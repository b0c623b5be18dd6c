-- ===== src/Parse/Expression/Factors.antt =====
-- passes/parse/expression.c: factors with their prefixes, postfixes and subscripts.
use enqcc.Base.{
  ℕ, suc, ◌≡◌, refl, ap, ◌∙◌, true, false, List, [], ◌∷◌, ◌++◌, length-append, Option, Result, ok,
  arith,
}
use mathlib.Core.List.{append_assoc}
use enqcc.Lang.Types.{Ctype}
use enqcc.Lex.Tokens.{Token, square_bracket_open, square_bracket_close}
use enqcc.Lex.{token}
use enqcc.Parse.Constant.{ConstantNode}
use enqcc.Parse.Tree.{
  Prefix, Postfix, postdecrement, postincrement, Expr, unary, subscript, postfix,
}
use enqcc.Parse.Operators.{parse_expr_check_next_token}
use enqcc.Parse.Expression.{is_paren_open, is_square_open, subscripts}
use enqcc.Parse.Expression.Grammar.{postfix_token, is_not_sizeof, tokens}
use enqcc.Parse.Expression.Facts.{subscripts_round, subscripts_stop}
use enqcc.Parse.Expression.Parts.{
  two, four, parse_postfix-ends_atom, parse_postfix-postfix_token, ends_factor-ends_atom,
  ends_factor-is_square_open, ends_atom-is_paren_open, primary_prefix, parse_factor-attach,
}
use enqcc.Parse.Expression.Statements.{
  spelled, ReadsSpine, ReadsChain, ReadsFactor, ReadsAtom, ReadsSubscripted,
}
use enqcc.Parse.Expression.Operands.{whole_of}

module _ (parse_type : List Token → Result (Ctype × List Token))
    (strtoull strtod : List ℕ → Option ℕ) (print : ConstantNode → Token) where
  pub chain_atom :
      (e : Expr)
      → ReadsAtom parse_type strtoull strtod print e
      → ReadsChain parse_type strtoull strtod print e
  chain_atom e read f1 f2 rest b1 b2 h = (
    f2,
    omega arith,
    rw (read f1 rest b1 (ends_atom-is_paren_open rest h), parse_postfix-ends_atom e rest h) refl,
  )

  is_paren_open-postfix_token : (op : Postfix) → is_paren_open (postfix_token op) ≡ false
  is_paren_open-postfix_token postdecrement = refl
  is_paren_open-postfix_token postincrement = refl

  pub chain_postfix :
      (op : Postfix) (e : Expr)
      → ReadsAtom parse_type strtoull strtod print e
      → ReadsChain parse_type strtoull strtod print (postfix op e)
  unfolding tokens
  chain_postfix op e read f1 f2 rest b1 b2 h =
      let next = token (postfix_token op) [] in
      (
        f2,
        omega arith,
        rw
            (
              append_assoc (spelled parse_type strtoull strtod print e) (next ∷ []) rest,
              read f1 (next ∷ rest)
                  (omega (
                    arith,
                    b1,
                    length-append (spelled parse_type strtoull strtod print e) (next ∷ []),
                  ))
                  (is_paren_open-postfix_token op),
              parse_postfix-postfix_token op e rest,
            )
            refl,
      )

  pub chain_subscript :
      (l r : Expr)
      → ReadsChain parse_type strtoull strtod print l
      → ReadsSpine parse_type strtoull strtod print 0 r
      → ReadsSubscripted parse_type strtoull strtod print (subscript l r)
  unfolding tokens parse_expr_check_next_token
  chain_subscript l r left right f1 f2 rest b1 b2 =
      let closing = token square_bracket_close [] ∷ [] in
      let behind =
        token square_bracket_open [] ∷ (spelled parse_type strtoull strtod print r ++ closing) in
      let n = length-append (spelled parse_type strtoull strtod print l) behind in
      let n' = length-append (spelled parse_type strtoull strtod print r) closing in
      let (f3, b3, q3) =
        left f1 f2
          (token square_bracket_open []
            ∷ (spelled parse_type strtoull strtod print r
                ++ (token square_bracket_close [] ∷ rest)))
          (omega (arith, b1, n)) (omega (arith, b2, n)) refl in
      let (f4, q4) = two f3 (omega (arith, b2, b3, n)) in
      let read =
        whole_of parse_type strtoull strtod print 0 r right f4
          (token square_bracket_close [] ∷ rest) (omega (arith, b2, b3, q4, n, n')) refl refl in
      (
        f4,
        omega (arith, b3, q4, n),
        rw
            (
              append_assoc (spelled parse_type strtoull strtod print l) behind rest,
              append_assoc (spelled parse_type strtoull strtod print r) closing rest,
            )
            (q3
              ∙ ap
                  (λ k. subscripts parse_type strtoull strtod k l (
                    token square_bracket_open []
                    ∷ (spelled parse_type strtoull strtod print r
                        ++ (token square_bracket_close [] ∷ rest))))
                  q4
              ∙ subscripts_round parse_type strtoull strtod f4 l r
                  (spelled parse_type strtoull strtod print r
                    ++ (token square_bracket_close [] ∷ rest))
                  rest read),
      )

  pub factor_chain :
      (e : Expr)
      → ReadsChain parse_type strtoull strtod print e
      → ReadsFactor parse_type strtoull strtod print e
  factor_chain e chain f rest b h =
      let (f0, q) = two f (omega (arith, b)) in
      let (f3, b3, q3) =
        chain (suc f0) (suc f0) rest (omega (arith, b, q)) (omega (arith, b, q))
          (ends_factor-ends_atom rest h) in
      let (f4, q4) = two f3 (omega (arith, b, q, b3)) in
      rw q (
        parse_factor-attach parse_type strtoull strtod (suc f0)
          (spelled parse_type strtoull strtod print e ++ rest) e rest
          (q3
            ∙ rw q4 (
                subscripts_stop parse_type strtoull strtod f4 e rest
                  (ends_factor-is_square_open rest h)))
        ∙ ap (λ r. ok r) (parse_postfix-ends_atom e rest (ends_factor-ends_atom rest h)))

  is_square_open-postfix_token : (op : Postfix) → is_square_open (postfix_token op) ≡ false
  is_square_open-postfix_token postdecrement = refl
  is_square_open-postfix_token postincrement = refl

  pub factor_postfix :
      (op : Postfix) (e : Expr)
      → ReadsSubscripted parse_type strtoull strtod print e
      → ReadsFactor parse_type strtoull strtod print (postfix op e)
  unfolding tokens
  factor_postfix op e chain f rest b h =
      let next = token (postfix_token op) [] in
      let n = length-append (spelled parse_type strtoull strtod print e) (next ∷ []) in
      let (f0, q) = two f (omega (arith, b)) in
      let (f3, b3, q3) =
        chain (suc f0) (suc f0) (next ∷ rest) (omega (arith, b, q, n)) (omega (arith, b, q, n)) in
      let (f4, q4) = two f3 (omega (arith, b, q, b3, n)) in
      rw (q, append_assoc (spelled parse_type strtoull strtod print e) (next ∷ []) rest)
        (parse_factor-attach parse_type strtoull strtod (suc f0)
            (spelled parse_type strtoull strtod print e ++ (next ∷ rest)) e (next ∷ rest)
            (q3
              ∙ rw q4 (
                  subscripts_stop parse_type strtoull strtod f4 e (next ∷ rest)
                    (is_square_open-postfix_token op)))
          ∙ ap (λ r. ok r) (parse_postfix-postfix_token op e rest))

  pub factor_prefix :
      (op : Prefix) (e : Expr)
      → is_not_sizeof op ≡ true
      → ReadsFactor parse_type strtoull strtod print e
      → ReadsFactor parse_type strtoull strtod print (unary op e)
  unfolding tokens
  factor_prefix op e s read f rest b h =
      let (f0, q) = four f (omega (arith, b)) in
      let inner =
        primary_prefix parse_type strtoull strtod (suc f0) op e
          (spelled parse_type strtoull strtod print e ++ rest) rest s
          (read (suc f0) rest (omega (arith, b, q)) h) in
      rw q (
        parse_factor-attach parse_type strtoull strtod (suc (suc (suc f0)))
          (spelled parse_type strtoull strtod print (unary op e) ++ rest) (unary op e) rest
          (rw (inner, parse_postfix-ends_atom (unary op e) rest (ends_factor-ends_atom rest h))
            (subscripts_stop parse_type strtoull strtod (suc f0) (unary op e) rest
              (ends_factor-is_square_open rest h)))
        ∙ ap (λ r. ok r) (parse_postfix-ends_atom (unary op e) rest (ends_factor-ends_atom rest h)))
