-- ===== src/Parse/Expression/Parts.antt =====
-- passes/parse/expression.c: what the calls read of the tokens that an expression is written with.
use enqcc.Base.{
  ℕ, suc, ◌-◌, ◌≤◌, ◌≡◌, refl, ap, ◌∙◌, Bool, true, false, not, ◌&&◌, if◌then◌else◌, List, [], ◌∷◌,
  Option, Result, ok, err, ◌>>=◌, arith,
}
use enqcc.Lang.Types.{Ctype}
use enqcc.Lang.Symbol.{Name}
use enqcc.Lex.Tokens.{
  TokenType, Token, constant, constant_char, identifier, paren_open, paren_close,
  plus_sign_plus_sign, hyphen_hyphen,
}
use enqcc.Lex.{token}
use enqcc.Parse.Constant.{ConstantNode, can_parse_constant, node_of_constant, parse_constant}
use enqcc.Parse.Specifiers.{is_token_variable_type}
use enqcc.Parse.Tree.{
  Prefix, Postfix, postdecrement, postincrement, unary_size_of, Expr, constant_node, function_call,
  variable_usage, unary, paren_enclosed, postfix, Args,
}
use enqcc.Parse.Operators.{prefix_op}
use enqcc.Parse.Expression.{
  is_token_type, is_paren_open, is_paren_close, is_square_open, is_comma, parse_postfix, postfix_by,
  parse_expr, climb, parse_factor, parse_primary, primary_by, symbol_by, call_by, parse_args,
  args_by, subscripts, subscripts_by, FactorStart, constant_start, paren_start, prefix_start,
  symbol_start, factor_start, start_with, sizeof_start, parse_expression,
}
use enqcc.Parse.Expression.Grammar.{prefix_token, postfix_token, is_not_sizeof}
use enqcc.Parse.Expression.Facts.{ends_atom, ends_factor, Follows}
use enqcc.Parse.Expression.Starts.{Starts}

pub two : (f : ℕ) → 2 ≤ f → (g : ℕ) × (f ≡ suc (suc g))
two f h = (f - 2, omega (arith, h))

pub four : (f : ℕ) → 4 ≤ f → (g : ℕ) × (f ≡ suc (suc (suc (suc g))))
four f h = (f - 4, omega (arith, h))

pub parse_postfix-ends_atom :
    (e : Expr) (rest : List Token) → Follows ends_atom rest → parse_postfix e rest ≡ (e, rest)
parse_postfix-ends_atom e [] h = refl
parse_postfix-ends_atom e (tok ∷ toks) h = by_type tok.token_type h
  where
    by_type :
        (t : TokenType) → ends_atom t ≡ true → postfix_by t e (tok ∷ toks) toks ≡ (e, tok ∷ toks)
    by_type plus_sign_plus_sign h = cc
    by_type hyphen_hyphen h = cc
    by_type _ h = refl

pub parse_postfix-postfix_token :
    (op : Postfix) (e : Expr) (rest : List Token)
    → parse_postfix e (token (postfix_token op) [] ∷ rest) ≡ (postfix op e, rest)
parse_postfix-postfix_token postdecrement e rest = refl
parse_postfix-postfix_token postincrement e rest = refl

-- A factor may also be followed by what may follow an atom, which is no argument list.
pub ends_factor-ends_atom : (rest : List Token) → Follows ends_factor rest → Follows ends_atom rest
ends_factor-ends_atom [] h = tt
ends_factor-ends_atom (tok ∷ toks) h = left_part (ends_atom tok.token_type) _ h
  where
    left_part : (a b : Bool) → (a && b) ≡ true → a ≡ true
    left_part true b h = refl
    left_part false b h = h

pub ends_factor-is_square_open :
    (rest : List Token) → Follows ends_factor rest → is_token_type rest is_square_open ≡ false
ends_factor-is_square_open [] h = refl
ends_factor-is_square_open (tok ∷ toks) h =
    right_part (ends_atom tok.token_type) (is_square_open tok.token_type) h
  where
    right_part : (a b : Bool) → (a && not b) ≡ true → b ≡ false
    right_part true true h = cc
    right_part true false h = refl
    right_part false b h = cc

pub ends_atom-is_paren_open :
    (rest : List Token) → Follows ends_atom rest → is_token_type rest is_paren_open ≡ false
ends_atom-is_paren_open [] h = refl
ends_atom-is_paren_open (tok ∷ toks) h = by_type tok.token_type h
  where
    by_type : (t : TokenType) → ends_atom t ≡ true → is_paren_open t ≡ false
    by_type paren_open h = cc
    by_type _ h = refl

pub Starts-closing :
    (toks : List Token)
    → Starts toks
    → (is_token_type toks is_paren_close ≡ false)
      × (is_token_type toks is_token_variable_type ≡ false)
Starts-closing [] h = absurd h
Starts-closing (tok ∷ toks) h =
    both (is_paren_close tok.token_type) (is_token_variable_type tok.token_type) h
  where
    both : (a b : Bool) → (not a && not b) ≡ true → (a ≡ false) × (b ≡ false)
    both true b h = cc
    both false true h = cc
    both false false h = (refl, refl)

start_with-constant :
    (t : TokenType) (toks : List Token)
    → can_parse_constant t ≡ true
    → start_with toks t (prefix_op t) ≡ constant_start
start_with-constant constant toks h = refl
start_with-constant constant_char toks h = refl
start_with-constant _ toks h = cc

start_with-prefix :
    (op : Prefix) (toks : List Token)
    → is_not_sizeof op ≡ true
    → start_with toks (prefix_token op) (prefix_op (prefix_token op)) ≡ prefix_start op
start_with-prefix unary_size_of toks h = cc
start_with-prefix _ toks h = refl

module _ (parse_type : List Token → Result (Ctype × List Token))
    (strtoull strtod : List ℕ → Option ℕ) where
  pub primary_constant :
      (f : ℕ) (tok : Token) (a : ConstantNode) (rest : List Token)
      → can_parse_constant tok.token_type ≡ true
      → node_of_constant strtoull strtod tok ≡ ok a
      → parse_primary parse_type strtoull strtod (suc (suc f)) (tok ∷ rest)
        ≡ ok (constant_node a, rest)
  unfolding parse_expr parse_constant
  primary_constant f tok a rest c e =
      ap (primary_by parse_type strtoull strtod (suc f) (tok ∷ rest))
        (start_with-constant tok.token_type rest c)
      ∙ rw e refl

  pub primary_prefix :
      (f : ℕ) (op : Prefix) (e : Expr) (toks rest : List Token)
      → is_not_sizeof op ≡ true
      → parse_factor parse_type strtoull strtod f toks ≡ ok (e, rest)
      → parse_primary parse_type strtoull strtod (suc (suc f)) (token (prefix_token op) [] ∷ toks)
        ≡ ok (unary op e, rest)
  unfolding parse_expr
  primary_prefix f op e toks rest n h =
      ap (primary_by parse_type strtoull strtod (suc f) (token (prefix_token op) [] ∷ toks))
        (start_with-prefix op toks n)
      ∙ rw h refl

  pub primary_variable :
      (f : ℕ) (name : Name) (rest : List Token)
      → is_token_type rest is_paren_open ≡ false
      → parse_primary parse_type strtoull strtod (suc (suc (suc f))) (token identifier name ∷ rest)
        ≡ ok (variable_usage name, rest)
  unfolding parse_expr
  primary_variable f name rest h = ap (symbol_by parse_type strtoull strtod (suc f) name rest) h

  pub primary_call :
      (f : ℕ) (name : Name) (args : Args) (toks rest : List Token)
      → is_token_type toks is_paren_close ≡ false
      → parse_args parse_type strtoull strtod f toks ≡ ok (args, token paren_close [] ∷ rest)
      → parse_primary parse_type strtoull strtod
          (suc (suc (suc (suc f))))
          (token identifier name ∷ token paren_open [] ∷ toks)
        ≡ ok (function_call name args, rest)
  unfolding parse_expr
  primary_call f name args toks rest s h =
      ap (call_by parse_type strtoull strtod (suc f) name toks) s ∙ rw h refl

  pub primary_paren :
      (f : ℕ) (e : Expr) (toks rest : List Token)
      → is_token_type toks is_token_variable_type ≡ false
      → parse_expr parse_type strtoull strtod f 0 toks ≡ ok (e, token paren_close [] ∷ rest)
      → parse_primary parse_type strtoull strtod (suc (suc f)) (token paren_open [] ∷ toks)
        ≡ ok (paren_enclosed e, rest)
  unfolding parse_expr
  primary_paren f e toks rest s h =
      ap
        (λ b.
          primary_by parse_type strtoull strtod (suc f) (token paren_open [] ∷ toks) (paren_kind b))
        s
      ∙ rw h refl
    where
      paren_kind : Bool → FactorStart
      paren_kind b = if b then enqcc.Parse.Expression.cast_start else paren_start

  -- A factor, up to the subscripts behind its first part.
  abbrev pub attach : ℕ → ℕ → List Token → Result (Expr × List Token)
  attach f1 f2 pos = parse_primary parse_type strtoull strtod f1 pos >>= λ r.
      subscripts parse_type strtoull strtod f2 (parse_postfix r.0 r.1).0 (parse_postfix r.0 r.1).1

  pub parse_factor-attach :
      (f : ℕ) (pos : List Token) (e : Expr) (rest : List Token)
      → attach f f pos ≡ ok (e, rest)
      → parse_factor parse_type strtoull strtod (suc f) pos ≡ ok (parse_postfix e rest)
  unfolding parse_expr
  parse_factor-attach f pos e rest h = by_primary (parse_primary parse_type strtoull strtod f pos) h
    where
      by_primary :
          (r : Result (Expr × List Token))
          → (r >>= λ r.
              subscripts parse_type strtoull strtod f
                (parse_postfix r.0 r.1).0
                (parse_postfix r.0 r.1).1)
            ≡ ok (e, rest)
          → (r >>= λ r.
              subscripts parse_type strtoull strtod f
                (parse_postfix r.0 r.1).0
                (parse_postfix r.0 r.1).1
              >>= λ q. ok (parse_postfix q.0 q.1))
            ≡ ok (parse_postfix e rest)
      by_primary (err x) h = cc
      by_primary (ok r) h = rw h refl
