-- ===== src/Parse/Expression/Atoms.antt =====
-- passes/parse/expression.c: parentheses and calls.
use enqcc.Base.{ℕ, suc, refl, List, [], ◌∷◌, ◌++◌, length-append, Option, Result, arith}
use mathlib.Core.List.{append_assoc}
use enqcc.Lang.Types.{Ctype}
use enqcc.Lang.Symbol.{Name}
use enqcc.Lex.Tokens.{Token, paren_close, comma}
use enqcc.Lex.{token}
use enqcc.Parse.Constant.{ConstantNode}
use enqcc.Parse.Tree.{Expr, function_call, paren_enclosed, Args, arg, no_args}
use enqcc.Parse.Operators.{parse_expr_check_next_token}
use enqcc.Parse.Expression.{parse_expr}
use enqcc.Parse.Expression.Grammar.{tokens, arg_tokens}
use enqcc.Parse.Expression.Starts.{Starts, Starts-append}
use enqcc.Parse.Expression.Parts.{two, four, Starts-closing, primary_call, primary_paren}
use enqcc.Parse.Expression.Statements.{spelled, ReadsSpine, ReadsAtom, ReadsArguments}
use enqcc.Parse.Expression.Operands.{whole_of}

module _ (parse_type : List Token → Result (Ctype × List Token))
    (strtoull strtod : List ℕ → Option ℕ) (print : ConstantNode → Token) where
  pub atom_paren :
      (e : Expr)
      → Starts (spelled parse_type strtoull strtod print e)
      → ReadsSpine parse_type strtoull strtod print 0 e
      → ReadsAtom parse_type strtoull strtod print (paren_enclosed e)
  unfolding tokens parse_expr_check_next_token
  atom_paren e s inner f rest b h =
      let closing = token paren_close [] in
      let n = length-append (spelled parse_type strtoull strtod print e) (closing ∷ []) in
      let (f0, q) = two f (omega (arith, b)) in
      rw (q, append_assoc (spelled parse_type strtoull strtod print e) (closing ∷ []) rest)
        (primary_paren parse_type strtoull strtod f0 e
          (spelled parse_type strtoull strtod print e ++ (closing ∷ rest)) rest
          (Starts-closing (spelled parse_type strtoull strtod print e ++ (closing ∷ rest))
            (Starts-append (spelled parse_type strtoull strtod print e) (closing ∷ rest) s)).1
          (whole_of parse_type strtoull strtod print 0 e inner f0 (closing ∷ rest)
            (omega (arith, b, q, n)) refl refl))

  pub atom_call :
      (name : Name) (e : Expr) (args : Args)
      → Starts (arg_tokens print (arg e args))
      → ReadsArguments parse_type strtoull strtod print (arg e args)
      → ReadsAtom parse_type strtoull strtod print (function_call name (arg e args))
  unfolding tokens
  atom_call name e args s read f rest b h =
      let closing = token paren_close [] in
      let given = arg_tokens print (arg e args) in
      let n = length-append given (closing ∷ []) in
      let (f0, q) = four f (omega (arith, b)) in
      rw (q, append_assoc given (closing ∷ []) rest)
        (primary_call parse_type strtoull strtod f0 name (arg e args) (given ++ (closing ∷ rest))
          rest
          (Starts-closing (given ++ (closing ∷ rest)) (Starts-append given (closing ∷ rest) s)).0
          (read f0 rest (omega (arith, b, q, n))))

  pub arguments_one :
      (e : Expr)
      → ReadsSpine parse_type strtoull strtod print 0 e
      → ReadsArguments parse_type strtoull strtod print (arg e no_args)
  unfolding parse_expr tokens parse_expr_check_next_token
  arguments_one e inner f rest b =
      let (f0, q) = two f (omega (arith, b)) in
      rw
        (
          q,
          whole_of parse_type strtoull strtod print 0 e inner (suc f0) (token paren_close [] ∷ rest)
              (omega (arith, b, q)) refl refl,
        )
        refl

  pub arguments_more :
      (e f : Expr) (args : Args)
      → ReadsSpine parse_type strtoull strtod print 0 e
      → ReadsArguments parse_type strtoull strtod print (arg f args)
      → ReadsArguments parse_type strtoull strtod print (arg e (arg f args))
  unfolding parse_expr tokens parse_expr_check_next_token
  arguments_more e f args inner others k rest b =
      let given = arg_tokens print (arg f args) in
      let behind = token comma [] ∷ (given ++ (token paren_close [] ∷ rest)) in
      let n = length-append (spelled parse_type strtoull strtod print e) (token comma [] ∷ given) in
      let (k0, q) = two k (omega (arith, b)) in
      rw
        (
          q,
          append_assoc (spelled parse_type strtoull strtod print e) (token comma [] ∷ given)
              (token paren_close [] ∷ rest),
          whole_of parse_type strtoull strtod print 0 e inner (suc k0) behind
              (omega (arith, b, q, n)) refl refl,
          others k0 rest (omega (arith, b, q, n)),
        )
        refl
