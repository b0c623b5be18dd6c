-- ===== src/Parse/Expression/Casts.antt =====
-- passes/parse/expression.c: what a cast takes in.
use enqcc.Base.{
  ℕ, suc, ◌+◌, ◌*◌, ◌≡◌, refl, ap, ◌∙◌, Bool, true, List, [], ◌∷◌, ◌++◌, length, length-append,
  Option, none, some, if◌then◌else◌, Result, ok, arith,
}
use enqcc.Lang.Types.{Ctype}
use enqcc.Lex.Tokens.{Token, paren_open, paren_close}
use enqcc.Lex.{token}
use enqcc.Parse.Constant.{ConstantNode}
use enqcc.Parse.Specifiers.{is_token_variable_type}
use enqcc.Parse.Tree.{Infix, Expr}
use enqcc.Parse.Operators.{bounded, next_infix}
use enqcc.Parse.Expression.{
  finish_cast, FactorStart, cast_start, paren_start, primary_by, parse_expr, parse_primary,
  parse_expression,
}
use enqcc.Parse.Expression.Grammar.{tokens, IsExpr}
use enqcc.Parse.Expression.Facts.{bounded-le, ends_factor, Follows, climb_stop, subscripts_stop}
use enqcc.Parse.Expression.Parts.{
  four, parse_postfix-ends_atom, ends_factor-ends_atom, ends_factor-is_square_open,
  parse_factor-attach,
}
use enqcc.Parse.Expression.Operands.{whole_of}
use enqcc.Parse.Expression.RoundTrip.{expr_read}

abbrev paren_kind : Bool → FactorStart
paren_kind b = if b then cast_start else paren_start

bounded_any : (m : ℕ) (next : Option Infix) → bounded 0 next ≡ none → bounded m next ≡ none
bounded_any m none e = refl
bounded_any m (some op) e = cc (e, bounded-le op 0 (omega arith))

module _ (parse_type : List Token → Result (Ctype × List Token))
    (strtoull strtod : List ℕ → Option ℕ) where
  primary_cast :
      (f : ℕ) (t : Ctype) (name : Token) (e : Expr) (toks rest : List Token)
      → is_token_variable_type name.token_type ≡ true
      → parse_type (name ∷ token paren_close [] ∷ toks) ≡ ok (t, token paren_close [] ∷ toks)
      → parse_expr parse_type strtoull strtod f 0 toks ≡ ok (e, rest)
      → parse_primary parse_type strtoull strtod
          (suc (suc f))
          (token paren_open [] ∷ name ∷ token paren_close [] ∷ toks)
        ≡ ok (finish_cast t e, rest)
  unfolding parse_expr
  primary_cast f t name e toks rest v p h =
      ap
        (λ b.
          primary_by parse_type strtoull strtod (suc f)
            (token paren_open [] ∷ name ∷ token paren_close [] ∷ toks) (paren_kind b))
        v
      ∙ rw (p, h) refl

  -- Whatever operators the expression behind a cast has outside brackets, the cast takes it in as a
  -- whole, and then moves to the left operand of the operator at its top alone, if that is one of
  -- those it moves into. This holds at every minimum precedence, so on the right of an operator too.
  pub parse_expression-cast :
      (print : ConstantNode → Token) (m : ℕ) (t : Ctype) (name : Token) (e : Expr)
      (rest : List Token)
      → is_token_variable_type name.token_type ≡ true
      → parse_type (name ∷ token paren_close [] ∷ (tokens print e ++ rest))
        ≡ ok (t, token paren_close [] ∷ (tokens print e ++ rest))
      → IsExpr strtoull strtod print 0 e
      → Follows ends_factor rest
      → next_infix 0 rest ≡ none
      → parse_expression parse_type strtoull strtod m
          (token paren_open [] ∷ name ∷ token paren_close [] ∷ (tokens print e ++ rest))
        ≡ ok (finish_cast t e, rest)
  unfolding parse_expression parse_expr
  parse_expression-cast print m t name e rest v p g h n =
      let pos = token paren_open [] ∷ name ∷ token paren_close [] ∷ (tokens print e ++ rest) in
      let size = length-append (tokens print e) rest in
      let (f, q) = four (8 * length pos + 8) (omega arith) in
      let read =
        whole_of parse_type strtoull strtod print 0 e
          (expr_read parse_type strtoull strtod print 0 e g) f rest (omega (arith, q, size)) h n in
      let after = ends_factor-ends_atom rest h in
      let cast_read = primary_cast f t name e (tokens print e ++ rest) rest v p read in
      let factor_read =
        parse_factor-attach parse_type strtoull strtod (suc (suc f)) pos (finish_cast t e) rest (
          rw (cast_read, parse_postfix-ends_atom (finish_cast t e) rest after)
            (subscripts_stop parse_type strtoull strtod f (finish_cast t e) rest
              (ends_factor-is_square_open rest h)))
        ∙ ap (λ r. ok r) (parse_postfix-ends_atom (finish_cast t e) rest after) in
      ap (λ k. parse_expr parse_type strtoull strtod k m pos) q
      ∙ rw factor_read (
          climb_stop parse_type strtoull strtod (suc f) m (finish_cast t e) rest
            (bounded_any m _ n))
