-- ===== src/Parse/Expression/Operands.antt =====
-- passes/parse/expression.c: operators with the operands that are written around them.
use enqcc.Base.{
  ℕ, suc, ◌≤◌, ◌≡◌, refl, ap, ◌∙◌, true, List, [], ◌∷◌, ◌++◌, length-append, Option, Result, arith,
}
use mathlib.Core.List.{append_assoc}
use enqcc.Lang.Types.{Ctype}
use enqcc.Lex.Tokens.{Token, question, colon}
use enqcc.Lex.{token}
use enqcc.Parse.Constant.{ConstantNode}
use enqcc.Parse.Tree.{Infix, ternary_conditional, Expr, ternary, binary}
use enqcc.Parse.Operators.{parse_expr_check_next_token, get_precedence, right_precedence}
use enqcc.Parse.Expression.{parse_expr, climb}
use enqcc.Parse.Expression.Grammar.{infix_token, is_binary, left_precedence, tokens}
use enqcc.Parse.Expression.Facts.{
  ends_factor-infix_token, binds_less-left, infix_op-infix_token, le-left_precedence, Stops-bounded,
  right-bounded, climb_binary, climb_ternary, climb_stop,
}
use enqcc.Parse.Expression.Parts.{two}
use enqcc.Parse.Expression.Statements.{spelled, ReadsSpine, ReadsWhole, ReadsFactor}

module _ (parse_type : List Token → Result (Ctype × List Token))
    (strtoull strtod : List ℕ → Option ℕ) (print : ConstantNode → Token) where
  pub whole_of :
      (m : ℕ) (e : Expr)
      → ReadsSpine parse_type strtoull strtod print m e
      → ReadsWhole parse_type strtoull strtod print m e
  unfolding parse_expr
  whole_of m e spine f rest b h n =
      let (f0, q) = two f (omega (arith, b)) in
      let (f3, b3, q3) =
        spine m (suc f0) (suc f0) rest (omega arith) (omega (arith, b, q)) (omega (arith, b, q))
          (h, Stops-bounded m _ n) in
      let (f4, q4) = two f3 (omega (arith, b, q, b3)) in
      rw q (q3 ∙ rw q4 (climb_stop parse_type strtoull strtod f4 m e rest n))

  pub spine_factor :
      (m : ℕ) (e : Expr)
      → ReadsFactor parse_type strtoull strtod print e
      → ReadsSpine parse_type strtoull strtod print m e
  spine_factor m e read m0 f1 f2 rest h b1 b2 s = (f2, omega arith, rw (read f1 rest b1 s.0) refl)

  pub spine_operation :
      (m : ℕ) (op : Infix) (l r : Expr)
      → m ≤ get_precedence op
      → is_binary op ≡ true
      → ReadsSpine parse_type strtoull strtod print (left_precedence op) l
      → ReadsSpine parse_type strtoull strtod print (right_precedence op) r
      → ReadsSpine parse_type strtoull strtod print m (binary op l r)
  unfolding tokens parse_expr_check_next_token
  spine_operation m op l r h bin left right m0 f1 f2 rest h0 b1 b2 s =
      let n =
        length-append (spelled parse_type strtoull strtod print l)
          (token (infix_token op) [] ∷ spelled parse_type strtoull strtod print r) in
      let (f3, b3, q3) =
        left m0 f1 f2
          (token (infix_token op) [] ∷ (spelled parse_type strtoull strtod print r ++ rest))
          (omega (arith, h0, le-left_precedence op m h)) (omega (arith, b1, n))
          (omega (arith, b2, n))
          (ends_factor-infix_token op, rw (infix_op-infix_token op) (binds_less-left op)) in
      let (f4, q4) = two f3 (omega (arith, b2, b3, n)) in
      let read =
        whole_of (right_precedence op) r right f4 rest (omega (arith, b2, b3, q4, n)) s.0
          (right-bounded op m _ h s.1) in
      (
        f4,
        omega (arith, b3, q4, n),
        rw
            (append_assoc (spelled parse_type strtoull strtod print l)
              (token (infix_token op) [] ∷ spelled parse_type strtoull strtod print r) rest)
            (q3
              ∙ ap
                  (λ k. climb parse_type strtoull strtod k m0 l (
                    token (infix_token op) []
                    ∷ (spelled parse_type strtoull strtod print r ++ rest)))
                  q4
              ∙ climb_binary parse_type strtoull strtod f4 m0 l r
                  (spelled parse_type strtoull strtod print r ++ rest) rest op
                  (omega (arith, h, h0)) bin read),
      )

  pub spine_conditional :
      (m : ℕ) (c l r : Expr)
      → m ≤ get_precedence ternary_conditional
      → ReadsSpine parse_type strtoull strtod print (left_precedence ternary_conditional) c
      → ReadsSpine parse_type strtoull strtod print 0 l
      → ReadsSpine parse_type strtoull strtod print (right_precedence ternary_conditional) r
      → ReadsSpine parse_type strtoull strtod print m (ternary c l r)
  unfolding tokens parse_expr_check_next_token
  spine_conditional m c l r h condition middle right m0 f1 f2 rest h0 b1 b2 s =
      let behind = token colon [] ∷ spelled parse_type strtoull strtod print r in
      let n =
        length-append (spelled parse_type strtoull strtod print c)
          (token question [] ∷ (spelled parse_type strtoull strtod print l ++ behind)) in
      let n' = length-append (spelled parse_type strtoull strtod print l) behind in
      let (f3, b3, q3) =
        condition m0 f1 f2
          (token question []
            ∷ (spelled parse_type strtoull strtod print l
                ++ (token colon [] ∷ (spelled parse_type strtoull strtod print r ++ rest))))
          (omega (arith, h0, le-left_precedence ternary_conditional m h)) (omega (arith, b1, n))
          (omega (arith, b2, n)) (refl, refl) in
      let (f4, q4) = two f3 (omega (arith, b2, b3, n)) in
      let read =
        whole_of 0 l middle f4
          (token colon [] ∷ (spelled parse_type strtoull strtod print r ++ rest))
          (omega (arith, b2, b3, q4, n, n')) refl refl in
      let read' =
        whole_of (right_precedence ternary_conditional) r right f4 rest
          (omega (arith, b2, b3, q4, n, n')) s.0 (right-bounded ternary_conditional m _ h s.1) in
      (
        f4,
        omega (arith, b3, q4, n),
        rw
            (
              append_assoc (spelled parse_type strtoull strtod print c)
                  (token question [] ∷ (spelled parse_type strtoull strtod print l ++ behind)) rest,
              append_assoc (spelled parse_type strtoull strtod print l) behind rest,
            )
            (q3
              ∙ ap
                  (λ k. climb parse_type strtoull strtod k m0 c (
                    token question []
                    ∷ (spelled parse_type strtoull strtod print l
                        ++ (token colon []
                            ∷ (spelled parse_type strtoull strtod print r ++ rest)))))
                  q4
              ∙ climb_ternary parse_type strtoull strtod f4 m0 c l r
                  (spelled parse_type strtoull strtod print l
                    ++ (token colon [] ∷ (spelled parse_type strtoull strtod print r ++ rest)))
                  (spelled parse_type strtoull strtod print r ++ rest) rest (omega (arith, h, h0))
                  read read'),
      )
