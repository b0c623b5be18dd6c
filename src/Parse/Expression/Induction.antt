-- ===== src/Parse/Expression/Induction.antt =====
-- passes/parse/expression.c: enough fuel, by induction on it.
use enqcc.Base.{
  ℕ, zero, suc, ◌+◌, ◌*◌, ◌≤◌, ◌≡◌, refl, true, false, Bool-cases, inl, inr, List, ◌∷◌, length,
  Option, none, some, Result, Ends, Ends-bind, Ends-guard, arith,
  parse_cast_expect_token_paren_close, parse_expr_expect_token_paren_close,
}
use mathlib.Core.List.{tail}
use enqcc.Lang.Types.{Ctype}
use enqcc.Lex.Tokens.{TokenType, Token, constant, constant_char, paren_open}
use enqcc.Parse.Constant.{can_parse_constant, parse_constant}
use enqcc.Parse.Specifiers.{is_token_variable_type}
use enqcc.Parse.Tree.{Prefix, unary_size_of, paren_enclosed}
use enqcc.Parse.Operators.{prefix_op}
use enqcc.Parse.Expression.{
  is_token_type, is_paren_open, is_paren_close, FactorStart, sizeof_with_parens, symbol_start,
  constant_start, str_start, cast_start, paren_start, no_factor, prefix_start, start_with,
  factor_start, parse_expr, parse_factor, primary_by, parse_expression,
}
use enqcc.Parse.Expression.Total.{
  front-AreLeft, AreLeft, Left, are_lexed, tail-AreLeft, expect-Left, parse_constant-Left,
}
use enqcc.Parse.Expression.Calls.{IsTotalType, AllEnd, LeftConstant, LeftType, LeftExpr}
use enqcc.Parse.Expression.Steps.{
  expr_step, loop_step, round_step, factor_step, primary_step, sizeof_step, symbol_step, call_step,
  args_step, more_args_step, subs_step, subs_round_step,
}

-- A constant starts at a token that parse_constant takes.
start_constant :
    (t : TokenType) (toks : List Token) (o : Option Prefix)
    → start_with toks t o ≡ constant_start
    → can_parse_constant t ≡ true
start_constant t toks (some unary_size_of) e =
    elim (Bool-cases (is_token_type toks is_paren_open)) [
      | inl q ↦ cc (rw q at e)
      | inr q ↦ cc (rw q at e)
    ]
start_constant t toks (some op) e = cc
start_constant constant toks none e = refl
start_constant constant_char toks none e = refl
start_constant paren_open toks none e =
    elim (Bool-cases (is_token_type toks is_token_variable_type)) [
      | inl q ↦ cc (rw q at e)
      | inr q ↦ cc (rw q at e)
    ]
start_constant t toks none e = cc

constant_start-can_parse :
    (tok : Token) (toks : List Token)
    → factor_start (tok ∷ toks) ≡ constant_start
    → can_parse_constant tok.token_type ≡ true
constant_start-can_parse tok toks e =
    start_constant tok.token_type toks (prefix_op tok.token_type) e

module _ (parse_type : List Token → Result (Ctype × List Token))
    (strtoull strtod : List ℕ → Option ℕ) (total : IsTotalType parse_type) where
  by_step :
      (f : ℕ)
      → AllEnd parse_type strtoull strtod f
      → (n : ℕ) (tok : Token) (toks : List Token) (start : FactorStart) → 8 * n + 13 ≤ suc f
      → AreLeft (suc n) (tok ∷ toks)
      → factor_start (tok ∷ toks) ≡ start
      → Ends false (Left n) (primary_by parse_type strtoull strtod (suc f) (tok ∷ toks) start)
  unfolding parse_expr
  by_step f ih n tok toks sizeof_with_parens b h e =
      let k = tail-AreLeft n toks (front-AreLeft n tok toks h) in
      ih.sizeof_ n (tail toks) (parse_type (tail toks)) (omega (arith, b)) k (total n (tail toks) k)
  by_step f ih n tok toks (prefix_start op) b h e =
      Ends-bind false (LeftExpr n) (LeftExpr n) (parse_factor parse_type strtoull strtod f toks) _
        (ih.factor n toks (omega (arith, b)) (front-AreLeft n tok toks h)) λ r k. k
  by_step f ih n tok toks constant_start b h e =
      Ends-bind false (LeftConstant n) (LeftExpr n) (parse_constant strtoull strtod (tok ∷ toks)) _
        (parse_constant-Left strtoull strtod n tok.token_type tok.val toks
          (constant_start-can_parse tok toks e) h)
        λ r k. k
  by_step f ih n tok toks str_start b h e = front-AreLeft n tok toks h
  by_step f ih n tok toks symbol_start b h e =
      ih.symbol n tok.val toks _ (omega (arith, b)) (front-AreLeft n tok toks h)
  by_step f ih n tok toks cast_start b h e =
      Ends-bind false (LeftType n) (LeftExpr n) (parse_type toks) _
        (total n toks (front-AreLeft n tok toks h))
        λ r k.
          Ends-guard false (LeftExpr n) (is_token_type r.1 is_paren_close)
            parse_cast_expect_token_paren_close _ refl
            (Ends-bind false (LeftExpr n) (LeftExpr n)
              (parse_expr parse_type strtoull strtod f 0 (tail r.1)) _
              (ih.expr n 0 (tail r.1) (omega (arith, b)) (tail-AreLeft n r.1 k)) λ q k'. k')
  by_step f ih n tok toks paren_start b h e =
      Ends-bind false (LeftExpr n) (LeftExpr n) (parse_expr parse_type strtoull strtod f 0 toks) _
        (ih.expr n 0 toks (omega (arith, b)) (front-AreLeft n tok toks h))
        λ q k.
          expect-Left is_paren_close parse_expr_expect_token_paren_close n (paren_enclosed q.0, q.1)
            refl k
  by_step f ih n tok toks no_factor b h e = refl

  -- No bound holds of no fuel.
  all_zero : AllEnd parse_type strtoull strtod 0
  all_zero = record {
    expr = λ n m pos b. absurd (omega (arith, b));
    loop = λ n m left pos b. absurd (omega (arith, b));
    round = λ n m left tok toks op b. absurd (omega (arith, b));
    factor = λ n pos b. absurd (omega (arith, b));
    primary = λ n pos b. absurd (omega (arith, b));
    by = λ n tok toks start b. absurd (omega (arith, b));
    sizeof_ = λ n pos r b. absurd (omega (arith, b));
    symbol = λ n name toks c b. absurd (omega (arith, b));
    call = λ n name toks c b. absurd (omega (arith, b));
    args = λ n pos b. absurd (omega (arith, b));
    more_args = λ n e toks c b. absurd (omega (arith, b));
    subs = λ n lhs pos b. absurd (omega (arith, b));
    subs_round = λ n lhs tok toks c b. absurd (omega (arith, b));
  }

  all_end : (f : ℕ) → AllEnd parse_type strtoull strtod f
  all_end zero = all_zero
  all_end (suc f) =
      let ih = all_end f in
      record {
        expr = expr_step parse_type strtoull strtod f ih;
        loop = loop_step parse_type strtoull strtod f ih;
        round = round_step parse_type strtoull strtod f ih;
        factor = factor_step parse_type strtoull strtod f ih;
        primary = primary_step parse_type strtoull strtod f ih;
        by = by_step f ih;
        sizeof_ = sizeof_step parse_type strtoull strtod f ih;
        symbol = symbol_step parse_type strtoull strtod f ih;
        call = call_step parse_type strtoull strtod f ih;
        args = args_step parse_type strtoull strtod f ih;
        more_args = more_args_step parse_type strtoull strtod f ih;
        subs = subs_step parse_type strtoull strtod f ih;
        subs_round = subs_round_step parse_type strtoull strtod f ih;
      }

  -- parse_expr ends on every list of tokens in which each character constant has one byte, as the
  -- lexer gives them: it gives a tree and at most the tokens there were, or reports an error, and
  -- no assertion fails and no NULL pointer is used. Of the parser of types, it is relied on that it
  -- does the same.
  pub parse_expression-Ends :
      (m : ℕ) (toks : List Token)
      → are_lexed toks ≡ true
      → Ends false (Left (length toks)) (parse_expression parse_type strtoull strtod m toks)
  unfolding parse_expression
  parse_expression-Ends m toks h =
      (all_end (8 * length toks + 8)).expr (length toks) m toks (omega arith) (omega arith, h)
