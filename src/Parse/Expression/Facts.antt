-- ===== src/Parse/Expression/Facts.antt =====
-- passes/parse/expression.c: single rounds of its loops, and the tokens that the grammar's expressions
-- start with and are followed by.
use enqcc.Base.{
  ℕ, suc, ◌+◌, ◌≤◌, ◌==◌, ◌≡◌, refl, ap, ◌∙◌, Bool, true, false, not, ◌&&◌, ◌||◌, ltb, List, [],
  ◌∷◌, Option, none, some, if◌then◌else◌, Result, ok, ◌⊎◌, Bool-cases, inl, inr, arith,
}
use mathlib.Core.List.{tail}
use enqcc.Lang.Types.{Ctype}
use enqcc.Lex.Tokens.{
  TokenType, Token, plus_sign_plus_sign, hyphen_hyphen, question, colon, square_bracket_open,
  square_bracket_close,
}
use enqcc.Lex.{token}
use enqcc.Parse.Tree.{
  Prefix, Postfix, Infix, ternary_conditional, unary_size_of, Expr, ternary, subscript, binary,
  postfix, Args, arg, no_args,
}
use enqcc.Parse.Operators.{
  prefix_op, infix_op, parse_expr_check_next_token, bounded, next_infix, get_precedence,
  right_precedence, is_right_associative,
}
use enqcc.Parse.Expression.{
  is_token_type, is_paren_open, is_square_open, parse_expr, climb_round, climb, subscripts,
  subscripts_by,
}
use enqcc.Parse.Expression.Grammar.{
  prefix_token, infix_token, is_binary, is_not_sizeof, left_precedence,
}

-- What may follow an atom: neither a postfix operator nor an argument list.
abbrev pub ends_atom : TokenType → Bool
ends_atom plus_sign_plus_sign = false
ends_atom hyphen_hyphen = false
ends_atom t = not (is_paren_open t)

abbrev pub ends_factor : TokenType → Bool
ends_factor t = ends_atom t && not (is_square_open t)

abbrev pub Follows : (TokenType → Bool) → List Token → Type 0
Follows test [] = Unit
Follows test (tok ∷ toks) = test tok.token_type ≡ true

-- An operator that may follow an expression of the level `m`.
abbrev pub binds_less : ℕ → Option Infix → Bool
binds_less m none = true
binds_less m (some op) = ltb (get_precedence op) m || get_precedence op == m && ltb 20 m

abbrev pub Stops : ℕ → List Token → Type 0
Stops m rest = Follows ends_factor rest × (binds_less m (parse_expr_check_next_token rest) ≡ true)

pub infix_op-infix_token : (op : Infix) → infix_op (infix_token op) ≡ some op
infix_op-infix_token enqcc.Parse.Tree.binary_add = refl
infix_op-infix_token _ = refl

pub prefix_op-prefix_token :
    (op : Prefix) → is_not_sizeof op ≡ true → prefix_op (prefix_token op) ≡ some op
prefix_op-prefix_token unary_size_of h = cc
prefix_op-prefix_token _ h = refl

pub ends_factor-infix_token : (op : Infix) → ends_factor (infix_token op) ≡ true
ends_factor-infix_token enqcc.Parse.Tree.binary_add = refl
ends_factor-infix_token _ = refl

-- An operator may follow its left operand, and what may follow an operation may follow its right
-- operand, on which the loop stops.
pub binds_less-left : (op : Infix) → binds_less (left_precedence op) (some op) ≡ true
binds_less-left enqcc.Parse.Tree.binary_add = refl
binds_less-left _ = refl

pub le-left_precedence : (op : Infix) (m : ℕ) → m ≤ get_precedence op → m ≤ left_precedence op
le-left_precedence op m h = omega (arith, h)

operator_kind :
    (op : Infix)
    → ((get_precedence op ≤ 20) × (is_right_associative op ≡ true))
      ⊎ ((30 ≤ get_precedence op) × (is_right_associative op ≡ false))
operator_kind enqcc.Parse.Tree.variable_assignment = inl (omega arith, refl)
operator_kind enqcc.Parse.Tree.compound_assign_add = inl (omega arith, refl)
operator_kind enqcc.Parse.Tree.compound_assign_sub = inl (omega arith, refl)
operator_kind enqcc.Parse.Tree.compound_assign_mul = inl (omega arith, refl)
operator_kind enqcc.Parse.Tree.compound_assign_div = inl (omega arith, refl)
operator_kind enqcc.Parse.Tree.compound_assign_rem = inl (omega arith, refl)
operator_kind enqcc.Parse.Tree.compound_assign_and = inl (omega arith, refl)
operator_kind enqcc.Parse.Tree.compound_assign_or = inl (omega arith, refl)
operator_kind enqcc.Parse.Tree.compound_assign_xor = inl (omega arith, refl)
operator_kind enqcc.Parse.Tree.compound_assign_sl = inl (omega arith, refl)
operator_kind enqcc.Parse.Tree.compound_assign_sr = inl (omega arith, refl)
operator_kind ternary_conditional = inl (omega arith, refl)
operator_kind _ = inr (omega arith, refl)

right_bound :
    (q p m : ℕ) (b : Bool)
    → m ≤ p
    → (p ≤ 20) × (b ≡ true) ⊎ (30 ≤ p) × (b ≡ false)
    → (ltb q m || q == m && ltb 20 m) ≡ true
    → ltb q (p + (if b then 0 else 1)) ≡ true
right_bound q p m b h (inl (k, e)) l = rw e (ground arith)
right_bound q p m b h (inr (k, e)) l = rw e (ground arith)

pub next_infix-Stops :
    (op : Infix) (m : ℕ) (next : Option Infix)
    → m ≤ get_precedence op
    → binds_less m next ≡ true
    → binds_less (right_precedence op) next ≡ true
next_infix-Stops op m none h l = refl
next_infix-Stops op m (some q) h l =
    rw
      (right_bound (get_precedence q) (get_precedence op) m (is_right_associative op) h
        (operator_kind op) l)
      refl

-- Rounds of the loops.
pub bounded-le : (op : Infix) (m : ℕ) → m ≤ get_precedence op → bounded m (some op) ≡ some op
bounded-le op m h = if_less (ltb (get_precedence op) m) (ground arith)
  where
    if_less : (b : Bool) → b ≡ false → (if b then none else some op) ≡ some op
    if_less true e = cc
    if_less false e = refl

pub Stops-bounded : (m : ℕ) (next : Option Infix) → bounded m next ≡ none → binds_less m next ≡ true
Stops-bounded m none e = refl
Stops-bounded m (some q) e = elim (Bool-cases (ltb (get_precedence q) m)) [
  | inl h ↦ rw h refl
  | inr h ↦ cc (rw h at e)
]

pub right-bounded :
    (op : Infix) (m : ℕ) (next : Option Infix)
    → m ≤ get_precedence op
    → binds_less m next ≡ true
    → bounded (right_precedence op) next ≡ none
right-bounded op m none h l = refl
right-bounded op m (some q) h l =
    rw
      (right_bound (get_precedence q) (get_precedence op) m (is_right_associative op) h
        (operator_kind op) l)
      refl

module _ (parse_type : List Token → Result (Ctype × List Token))
    (strtoull strtod : List ℕ → Option ℕ) where
  round_binary :
      (f m : ℕ) (left r : Expr) (pos rest : List Token) (op : Infix)
      → is_binary op ≡ true
      → parse_expr parse_type strtoull strtod f (right_precedence op) (tail pos) ≡ ok (r, rest)
      → climb_round parse_type strtoull strtod (suc f) m left pos (some op)
        ≡ climb parse_type strtoull strtod f m (binary op left r) rest
  unfolding parse_expr
  round_binary f m left r pos rest ternary_conditional b e = cc
  round_binary f m left r pos rest op b e = rw e refl

  -- A binary operator with its right operand.
  pub climb_binary :
      (f m : ℕ) (left r : Expr) (toks rest : List Token) (op : Infix)
      → m ≤ get_precedence op
      → is_binary op ≡ true
      → parse_expr parse_type strtoull strtod f (right_precedence op) toks ≡ ok (r, rest)
      → climb parse_type strtoull strtod (suc (suc f)) m left (token (infix_token op) [] ∷ toks)
        ≡ climb parse_type strtoull strtod f m (binary op left r) rest
  unfolding parse_expr parse_expr_check_next_token
  climb_binary f m left r toks rest op h b e =
      ap
        (λ o.
          climb_round parse_type strtoull strtod (suc f) m left (token (infix_token op) [] ∷ toks)
            (bounded m o))
        (infix_op-infix_token op)
      ∙ ap
          (climb_round parse_type strtoull strtod (suc f) m left (token (infix_token op) [] ∷ toks))
          (bounded-le op m h)
      ∙ round_binary f m left r (token (infix_token op) [] ∷ toks) rest op b e

  -- A conditional with its middle and its right operand.
  pub climb_ternary :
      (f m : ℕ) (left l r : Expr) (toks after rest : List Token)
      → m ≤ get_precedence ternary_conditional
      → parse_expr parse_type strtoull strtod f 0 toks ≡ ok (l, token colon [] ∷ after)
      → parse_expr parse_type strtoull strtod f (right_precedence ternary_conditional) after
        ≡ ok (r, rest)
      → climb parse_type strtoull strtod (suc (suc f)) m left (token question [] ∷ toks)
        ≡ climb parse_type strtoull strtod f m (ternary left l r) rest
  unfolding parse_expr parse_expr_check_next_token
  climb_ternary f m left l r toks after rest h e e' =
      ap (climb_round parse_type strtoull strtod (suc f) m left (token question [] ∷ toks))
        (bounded-le ternary_conditional m h)
      ∙ rw (e, e') refl

  pub climb_stop :
      (f m : ℕ) (left : Expr) (rest : List Token)
      → next_infix m rest ≡ none
      → climb parse_type strtoull strtod (suc (suc f)) m left rest ≡ ok (left, rest)
  unfolding parse_expr
  climb_stop f m left rest e = ap (climb_round parse_type strtoull strtod (suc f) m left rest) e

  -- A subscript, and the end of a row of them.
  pub subscripts_round :
      (f : ℕ) (lhs r : Expr) (toks rest : List Token)
      → parse_expr parse_type strtoull strtod f 0 toks
        ≡ ok (r, token square_bracket_close [] ∷ rest)
      → subscripts parse_type strtoull strtod
          (suc (suc f))
          lhs
          (token square_bracket_open [] ∷ toks)
        ≡ subscripts parse_type strtoull strtod f (subscript lhs r) rest
  unfolding parse_expr
  subscripts_round f lhs r toks rest e = rw e refl

  pub subscripts_stop :
      (f : ℕ) (lhs : Expr) (rest : List Token)
      → is_token_type rest is_square_open ≡ false
      → subscripts parse_type strtoull strtod (suc (suc f)) lhs rest ≡ ok (lhs, rest)
  unfolding parse_expr
  subscripts_stop f lhs rest e = ap (subscripts_by parse_type strtoull strtod (suc f) lhs rest) e
