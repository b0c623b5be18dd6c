-- ===== src/Parse/Expression/Statements.antt =====
-- passes/parse/expression.c: what is said of the calls that read an expression.
use enqcc.Base.{
  ℕ, ◌+◌, ◌*◌, ◌≤◌, ◌≡◌, false, List, [], ◌∷◌, ◌++◌, length, Option, none, Result, ok, ◌>>=◌,
}
use enqcc.Lang.Types.{Ctype}
use enqcc.Lex.Tokens.{Token, paren_close}
use enqcc.Lex.{token}
use enqcc.Parse.Constant.{ConstantNode}
use enqcc.Parse.Tree.{Expr, Args}
use enqcc.Parse.Operators.{next_infix}
use enqcc.Parse.Expression.{
  is_token_type, is_paren_open, parse_expr, climb, parse_factor, parse_primary, parse_args,
  subscripts,
}
use enqcc.Parse.Expression.Grammar.{tokens, arg_tokens}
use enqcc.Parse.Expression.Facts.{ends_atom, ends_factor, Follows, Stops}
use enqcc.Parse.Expression.Parts.{attach}
-- passes/parse/expression.c: an expression of the grammar is read if its parts are.
use enqcc.Base.{
  ℕ, ◌+◌, ◌*◌, ◌≤◌, ◌≡◌, false, List, [], ◌∷◌, ◌++◌, length, Option, none, Result, ok, ◌>>=◌,
}
use enqcc.Lang.Types.{Ctype}
use enqcc.Lex.Tokens.{Token, paren_close}
use enqcc.Lex.{token}
use enqcc.Parse.Constant.{ConstantNode}
use enqcc.Parse.Tree.{Expr, Args}
use enqcc.Parse.Operators.{next_infix}
use enqcc.Parse.Expression.{
  is_token_type, is_paren_open, parse_expr, climb, parse_factor, parse_primary, parse_args,
  subscripts,
}
use enqcc.Parse.Expression.Grammar.{tokens, arg_tokens}
use enqcc.Parse.Expression.Facts.{ends_atom, ends_factor, Follows, Stops}
use enqcc.Parse.Expression.Parts.{attach}

module _ (parse_type : List Token → Result (Ctype × List Token))
    (strtoull strtod : List ℕ → Option ℕ) (print : ConstantNode → Token) where
  -- The tokens of an expression, and how many there are.
  abbrev pub spelled : Expr → List Token
  spelled e = tokens print e

  abbrev pub size : Expr → ℕ
  size e = length (spelled e)

  abbrev pub launch : ℕ → ℕ → ℕ → List Token → Result (Expr × List Token)
  launch f1 f2 m pos = parse_factor parse_type strtoull strtod f1 pos >>= λ r.
      climb parse_type strtoull strtod f2 m r.0 r.1

  -- The loop comes to stand behind the expression, with most of its fuel left.
  abbrev pub ReadsSpine : ℕ → Expr → Type 0
  ReadsSpine m e =
      (m0 f1 f2 : ℕ) (rest : List Token)
      → m0 ≤ m
      → 8 * size e + 7 ≤ f1
      → 8 * size e + 2 ≤ f2
      → Stops m rest
      → (f3 : ℕ) × (f2 ≤ f3 + 8 * size e)
        × (launch f1 f2 m0 (spelled e ++ rest) ≡ climb parse_type strtoull strtod f3 m0 e rest)

  abbrev pub ReadsWhole : ℕ → Expr → Type 0
  ReadsWhole m e =
      (f : ℕ) (rest : List Token)
      → 8 * size e + 8 ≤ f
      → Follows ends_factor rest
      → next_infix m rest ≡ none
      → parse_expr parse_type strtoull strtod f m (spelled e ++ rest) ≡ ok (e, rest)

  abbrev pub ReadsChain : Expr → Type 0
  ReadsChain e =
      (f1 f2 : ℕ) (rest : List Token)
      → 8 * size e + 6 ≤ f1
      → 8 * size e + 2 ≤ f2
      → Follows ends_atom rest
      → (f3 : ℕ) × (f2 ≤ f3 + 8 * size e)
        × (attach parse_type strtoull strtod f1 f2 (spelled e ++ rest)
            ≡ subscripts parse_type strtoull strtod f3 e rest)

  abbrev pub ReadsFactor : Expr → Type 0
  ReadsFactor e =
      (f : ℕ) (rest : List Token)
      → 8 * size e + 7 ≤ f
      → Follows ends_factor rest
      → parse_factor parse_type strtoull strtod f (spelled e ++ rest) ≡ ok (e, rest)

  abbrev pub ReadsAtom : Expr → Type 0
  ReadsAtom e =
      (f : ℕ) (rest : List Token)
      → 8 * size e + 6 ≤ f
      → is_token_type rest is_paren_open ≡ false
      → parse_primary parse_type strtoull strtod f (spelled e ++ rest) ≡ ok (e, rest)

  abbrev pub ReadsArguments : Args → Type 0
  ReadsArguments args =
      (f : ℕ) (rest : List Token)
      → 8 * length (arg_tokens print args) + 10 ≤ f
      → parse_args parse_type strtoull strtod f
          (arg_tokens print args ++ (token paren_close [] ∷ rest))
        ≡ ok (args, token paren_close [] ∷ rest)

  -- A subscript may be followed by anything.
  abbrev pub ReadsSubscripted : Expr → Type 0
  ReadsSubscripted e =
      (f1 f2 : ℕ) (rest : List Token)
      → 8 * size e + 6 ≤ f1
      → 8 * size e + 2 ≤ f2
      → (f3 : ℕ) × (f2 ≤ f3 + 8 * size e)
        × (attach parse_type strtoull strtod f1 f2 (spelled e ++ rest)
            ≡ subscripts parse_type strtoull strtod f3 e rest)
