-- ===== src/Parse/Expression/Steps.antt =====
-- passes/parse/expression.c: each call ends if the calls with one fuel less do.
use enqcc.Base.{
  ℕ, zero, suc, ◌+◌, ◌*◌, ◌≤◌, ◌≡◌, refl, Bool, true, false, List, [], ◌∷◌, Option, none, some,
  Result, ok, err, is_reported, Ends, Ends-bind, Ends-guard, arith,
  parse_sizeof_expect_token_paren_close, parse_call_expect_token_paren_close,
  parse_expr_expect_token_sq_bracket_close, parse_expr_expect_colon_in_ternary_op,
}
use mathlib.Core.List.{tail}
use enqcc.Lang.Types.{Ctype}
use enqcc.Lang.Symbol.{Name}
use enqcc.Lex.Tokens.{Token}
use enqcc.Parse.Tree.{
  Infix, ternary_conditional, Expr, binary, ternary, size_of_type, unary, unary_size_of,
  function_call, subscript,
}
use enqcc.Parse.Operators.{parse_expr_check_next_token, next_infix, right_precedence}
use enqcc.Parse.Expression.{
  is_token_type, is_paren_close, is_comma, is_colon, is_square_open, is_square_close, factor_start,
  parse_postfix, expect, parse_expr, climb, climb_round, parse_factor, parse_primary, sizeof_by,
  symbol_by, call_by, parse_args, args_by, subscripts, subscripts_by,
}
use enqcc.Parse.Expression.Total.{
  front-AreLeft, Left-suc, AreLeft, Left, tail-AreLeft, expect-Left, parse_postfix-Left,
}
use enqcc.Parse.Expression.Calls.{AllEnd, LeftArgs, LeftExpr}

module _ (parse_type : List Token → Result (Ctype × List Token))
    (strtoull strtod : List ℕ → Option ℕ) where
  pub expr_step :
      (f : ℕ)
      → AllEnd parse_type strtoull strtod f
      → (n m : ℕ) (pos : List Token) → 8 * n + 8 ≤ suc f
      → AreLeft n pos
      → Ends false (Left n) (parse_expr parse_type strtoull strtod (suc f) m pos)
  unfolding parse_expr
  expr_step f ih n m pos b h =
      Ends-bind false (LeftExpr n) (LeftExpr n) (parse_factor parse_type strtoull strtod f pos) _
        (ih.factor n pos (omega (arith, b)) h) λ r k. ih.loop n m r.0 r.1 (omega (arith, b)) k

  pub loop_step :
      (f : ℕ)
      → AllEnd parse_type strtoull strtod f
      → (n m : ℕ) (left : Expr) (pos : List Token) → 8 * n + 2 ≤ suc f
      → AreLeft n pos
      → Ends false (Left n) (climb parse_type strtoull strtod (suc f) m left pos)
  unfolding parse_expr parse_expr_check_next_token
  loop_step zero ih n m left [] b h = absurd (omega (arith, b))
  loop_step (suc f) ih n m left [] b h = h
  loop_step f ih zero m left (tok ∷ toks) b h = absurd (omega (arith, h.0))
  loop_step f ih (suc n) m left (tok ∷ toks) b h =
      ih.round n m left tok toks (next_infix m (tok ∷ toks)) (omega (arith, b)) h

  pub round_step :
      (f : ℕ)
      → AllEnd parse_type strtoull strtod f
      → (n m : ℕ) (left : Expr) (tok : Token) (toks : List Token) (op : Option Infix)
      → 8 * n + 9 ≤ suc f
      → AreLeft (suc n) (tok ∷ toks)
      → Ends false
          (Left (suc n))
          (climb_round parse_type strtoull strtod (suc f) m left (tok ∷ toks) op)
  unfolding parse_expr
  round_step f ih n m left tok toks none b h = h
  round_step f ih n m left tok toks (some ternary_conditional) b h =
      Ends-bind false (LeftExpr n) (LeftExpr (suc n))
        (parse_expr parse_type strtoull strtod f 0 toks) _
        (ih.expr n 0 toks (omega (arith, b)) (front-AreLeft n tok toks h))
        λ r k.
          Ends-bind false (LeftExpr n) (LeftExpr (suc n))
            (expect is_colon parse_expr_expect_colon_in_ternary_op r) _
            (expect-Left is_colon parse_expr_expect_colon_in_ternary_op n r refl k)
            λ q k'.
              Ends-bind false (LeftExpr n) (LeftExpr (suc n))
                (parse_expr parse_type strtoull strtod f (right_precedence ternary_conditional) q.1)
                _ (ih.expr n _ q.1 (omega (arith, b)) k')
                λ u k''.
                  Left-suc n _ (ih.loop n m (ternary left q.0 u.0) u.1 (omega (arith, b)) k'')
  round_step f ih n m left tok toks (some op) b h =
      Ends-bind false (LeftExpr n) (LeftExpr (suc n))
        (parse_expr parse_type strtoull strtod f (right_precedence op) toks) _
        (ih.expr n _ toks (omega (arith, b)) (front-AreLeft n tok toks h))
        λ u k. Left-suc n _ (ih.loop n m (binary op left u.0) u.1 (omega (arith, b)) k)

  pub factor_step :
      (f : ℕ)
      → AllEnd parse_type strtoull strtod f
      → (n : ℕ) (pos : List Token) → 8 * n + 7 ≤ suc f
      → AreLeft n pos
      → Ends false (Left n) (parse_factor parse_type strtoull strtod (suc f) pos)
  unfolding parse_expr
  factor_step f ih n pos b h =
      Ends-bind false (LeftExpr n) (LeftExpr n) (parse_primary parse_type strtoull strtod f pos) _
        (ih.primary n pos (omega (arith, b)) h)
        λ r k.
          Ends-bind false (LeftExpr n) (LeftExpr n)
            (subscripts parse_type strtoull strtod f (parse_postfix r.0 r.1).0
              (parse_postfix r.0 r.1).1)
            _ (ih.subs n _ _ (omega (arith, b)) (parse_postfix-Left n r.0 r.1 k))
            λ q k'. parse_postfix-Left n q.0 q.1 k'

  pub primary_step :
      (f : ℕ)
      → AllEnd parse_type strtoull strtod f
      → (n : ℕ) (pos : List Token) → 8 * n + 6 ≤ suc f
      → AreLeft n pos
      → Ends false (Left n) (parse_primary parse_type strtoull strtod (suc f) pos)
  unfolding parse_expr
  primary_step zero ih n [] b h = absurd (omega (arith, b))
  primary_step (suc f) ih n [] b h = refl
  primary_step f ih zero (tok ∷ toks) b h = absurd (omega (arith, h.0))
  primary_step f ih (suc n) (tok ∷ toks) b h =
      Left-suc n _ (ih.by n tok toks (factor_start (tok ∷ toks)) (omega (arith, b)) h refl)

  pub sizeof_step :
      (f : ℕ)
      → AllEnd parse_type strtoull strtod f
      → (n : ℕ) (pos : List Token) (r : Result (Ctype × List Token)) → 8 * n + 9 ≤ suc f
      → AreLeft n pos
      → Ends false (Left n) r
      → Ends false (Left n) (sizeof_by parse_type strtoull strtod (suc f) pos r)
  unfolding parse_expr
  sizeof_step f ih n pos (ok (tmp, after)) b h k =
      expect-Left is_paren_close parse_sizeof_expect_token_paren_close n (size_of_type tmp, after)
        refl k
  sizeof_step f ih n pos (err failure) b h k =
      Ends-guard false (LeftExpr n) (is_reported false failure) failure _ k (
        Ends-bind false (LeftExpr n) (LeftExpr n) (parse_expr parse_type strtoull strtod f 0 pos) _
          (ih.expr n 0 pos (omega (arith, b)) h)
          λ q k'.
            expect-Left is_paren_close parse_sizeof_expect_token_paren_close n
              (unary unary_size_of q.0, q.1) refl k')

  pub symbol_step :
      (f : ℕ)
      → AllEnd parse_type strtoull strtod f
      → (n : ℕ) (name : Name) (toks : List Token) (b : Bool) → 8 * n + 12 ≤ suc f
      → AreLeft n toks
      → Ends false (Left n) (symbol_by parse_type strtoull strtod (suc f) name toks b)
  unfolding parse_expr
  symbol_step f ih n name toks false b h = h
  symbol_step f ih n name toks true b h =
      ih.call n name (tail toks) _ (omega (arith, b)) (tail-AreLeft n toks h)

  pub call_step :
      (f : ℕ)
      → AllEnd parse_type strtoull strtod f
      → (n : ℕ) (name : Name) (toks : List Token) (b : Bool) → 8 * n + 11 ≤ suc f
      → AreLeft n toks
      → Ends false (Left n) (call_by parse_type strtoull strtod (suc f) name toks b)
  unfolding parse_expr
  call_step f ih n name toks true b h = tail-AreLeft n toks h
  call_step f ih n name toks false b h =
      Ends-bind false (LeftArgs n) (LeftExpr n) (parse_args parse_type strtoull strtod f toks) _
        (ih.args n toks (omega (arith, b)) h)
        λ r k.
          expect-Left is_paren_close parse_call_expect_token_paren_close n
            (function_call name r.0, r.1) refl k

  pub args_step :
      (f : ℕ)
      → AllEnd parse_type strtoull strtod f
      → (n : ℕ) (pos : List Token) → 8 * n + 10 ≤ suc f
      → AreLeft n pos
      → Ends false (Left n) (parse_args parse_type strtoull strtod (suc f) pos)
  unfolding parse_expr
  args_step f ih n pos b h =
      Ends-bind false (LeftExpr n) (LeftArgs n) (parse_expr parse_type strtoull strtod f 0 pos) _
        (ih.expr n 0 pos (omega (arith, b)) h)
        λ r k. ih.more_args n r.0 r.1 _ (omega (arith, b)) k refl

  pub more_args_step :
      (f : ℕ)
      → AllEnd parse_type strtoull strtod f
      → (n : ℕ) (e : Expr) (toks : List Token) (b : Bool) → 8 * n + 9 ≤ suc f
      → AreLeft n toks
      → b ≡ is_token_type toks is_comma
      → Ends false (Left n) (args_by parse_type strtoull strtod (suc f) e toks b)
  unfolding parse_expr
  more_args_step f ih n e toks false b h c = h
  more_args_step f ih n e [] true b h c = cc
  more_args_step f ih zero e (tok ∷ toks) true b h c = absurd (omega (arith, h.0))
  more_args_step f ih (suc n) e (tok ∷ toks) true b h c =
      Ends-bind false (LeftArgs n) (LeftArgs (suc n)) (parse_args parse_type strtoull strtod f toks)
        _ (ih.args n toks (omega (arith, b)) (front-AreLeft n tok toks h))
        λ r k. (omega (arith, k.0), k.1)

  pub subs_step :
      (f : ℕ)
      → AllEnd parse_type strtoull strtod f
      → (n : ℕ) (lhs : Expr) (pos : List Token) → 8 * n + 2 ≤ suc f
      → AreLeft n pos
      → Ends false (Left n) (subscripts parse_type strtoull strtod (suc f) lhs pos)
  unfolding parse_expr
  subs_step zero ih n lhs [] b h = absurd (omega (arith, b))
  subs_step (suc f) ih n lhs [] b h = h
  subs_step f ih zero lhs (tok ∷ toks) b h = absurd (omega (arith, h.0))
  subs_step f ih (suc n) lhs (tok ∷ toks) b h =
      ih.subs_round n lhs tok toks (is_square_open tok.token_type) (omega (arith, b)) h

  pub subs_round_step :
      (f : ℕ)
      → AllEnd parse_type strtoull strtod f
      → (n : ℕ) (lhs : Expr) (tok : Token) (toks : List Token) (b : Bool) → 8 * n + 9 ≤ suc f
      → AreLeft (suc n) (tok ∷ toks)
      → Ends false
          (Left (suc n))
          (subscripts_by parse_type strtoull strtod (suc f) lhs (tok ∷ toks) b)
  unfolding parse_expr
  subs_round_step f ih n lhs tok toks false b h = h
  subs_round_step f ih n lhs tok toks true b h =
      Ends-bind false (LeftExpr n) (LeftExpr (suc n))
        (parse_expr parse_type strtoull strtod f 0 toks) _
        (ih.expr n 0 toks (omega (arith, b)) (front-AreLeft n tok toks h))
        λ r k.
          Ends-bind false (LeftExpr n) (LeftExpr (suc n))
            (expect is_square_close parse_expr_expect_token_sq_bracket_close r) _
            (expect-Left is_square_close parse_expr_expect_token_sq_bracket_close n r refl k)
            λ q k'. Left-suc n _ (ih.subs n (subscript lhs q.0) q.1 (omega (arith, b)) k')
