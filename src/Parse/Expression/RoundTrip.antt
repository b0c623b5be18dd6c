-- ===== src/Parse/Expression/RoundTrip.antt =====
-- passes/parse/expression.c: each expression of the grammar is read back.
use enqcc.Base.{
  ℕ, suc, ◌+◌, ◌*◌, ◌≡◌, refl, true, List, ◌++◌, length, length-append, Option, none, Result, ok,
  arith,
}
use enqcc.Lang.Types.{Ctype}
use enqcc.Lang.Symbol.{Name}
use enqcc.Lex.Tokens.{Token}
use enqcc.Parse.Constant.{ConstantNode, can_parse_constant, node_of_constant}
use enqcc.Parse.Tree.{
  Expr, constant_node, function_call, variable_usage, subscript, Args, arg, no_args,
}
use enqcc.Parse.Operators.{next_infix}
use enqcc.Parse.Expression.{parse_expr, parse_expression, str_node}
use enqcc.Parse.Expression.Grammar.{
  tokens, arg_tokens, IsExpr, factor, operation, conditional, IsFactor, prefixed, chained,
  chained_postfix, IsChain, atom, atom_postfix, subscripted, IsAtom, constant_atom, str_atom,
  variable_atom, call_atom, call_args_atom, paren_atom, AreArgs, one_arg, more_args,
}
use enqcc.Parse.Expression.Facts.{ends_factor, Follows}
use enqcc.Parse.Expression.Starts.{Starts, Starts-append, expr-Starts}
use enqcc.Parse.Expression.Parts.{two, four, primary_constant, primary_variable}
use enqcc.Parse.Expression.Statements.{
  ReadsSpine, ReadsChain, ReadsFactor, ReadsAtom, ReadsArguments,
}
use enqcc.Parse.Expression.Operands.{whole_of, spine_factor, spine_operation, spine_conditional}
use enqcc.Parse.Expression.Factors.{
  chain_atom, chain_postfix, chain_subscript, factor_chain, factor_postfix, factor_prefix,
}
use enqcc.Parse.Expression.Atoms.{atom_paren, atom_call, arguments_one, arguments_more}

module _ (parse_type : List Token → Result (Ctype × List Token))
    (strtoull strtod : List ℕ → Option ℕ) (print : ConstantNode → Token) where
  atom_constant :
      (a : ConstantNode)
      → can_parse_constant (print a).token_type ≡ true
      → node_of_constant strtoull strtod (print a) ≡ ok a
      → ReadsAtom parse_type strtoull strtod print (constant_node a)
  unfolding tokens
  atom_constant a c e f rest b h =
      let (f0, q) = two f (omega (arith, b)) in
      rw q (primary_constant parse_type strtoull strtod f0 (print a) a rest c e)

  atom_str : (val : Name) → ReadsAtom parse_type strtoull strtod print (str_node val)
  unfolding tokens parse_expr
  atom_str val f rest b h = let (f0, q) = two f (omega (arith, b)) in rw q refl

  atom_variable : (name : Name) → ReadsAtom parse_type strtoull strtod print (variable_usage name)
  unfolding tokens
  atom_variable name f rest b h =
      let (f0, q) = four f (omega (arith, b)) in
      rw q (primary_variable parse_type strtoull strtod (suc f0) name rest h)

  atom_call_empty :
      (name : Name) → ReadsAtom parse_type strtoull strtod print (function_call name no_args)
  unfolding tokens parse_expr
  atom_call_empty name f rest b h = let (f0, q) = four f (omega (arith, b)) in rw q refl

  args-Starts : (args : Args) → AreArgs strtoull strtod print args → Starts (arg_tokens print args)
  unfolding tokens
  args-Starts _ (one_arg e h) = expr-Starts strtoull strtod print 0 e h
  args-Starts _ (more_args e f args h others) =
      Starts-append (tokens print e) _ (expr-Starts strtoull strtod print 0 e h)

  mutual
    pub expr_read :
        (m : ℕ) (e : Expr)
        → IsExpr strtoull strtod print m e
        → ReadsSpine parse_type strtoull strtod print m e
    expr_read _ _ (factor m e h) =
        spine_factor parse_type strtoull strtod print m e (factor_read e h)
    expr_read _ _ (operation m op l r h b left right) =
        spine_operation parse_type strtoull strtod print m op l r h b (expr_read _ l left)
          (expr_read _ r right)
    expr_read _ _ (conditional m c l r h left middle right) =
        spine_conditional parse_type strtoull strtod print m c l r h (expr_read _ c left)
          (expr_read _ l middle) (expr_read _ r right)

    factor_read :
        (e : Expr)
        → IsFactor strtoull strtod print e
        → ReadsFactor parse_type strtoull strtod print e
    factor_read _ (prefixed op e n h) =
        factor_prefix parse_type strtoull strtod print op e n (factor_read e h)
    factor_read _ (chained e h) = factor_chain parse_type strtoull strtod print e (chain_read e h)
    factor_read _ (chained_postfix op l r left right) =
        factor_postfix parse_type strtoull strtod print op (subscript l r) (
          chain_subscript parse_type strtoull strtod print l r (chain_read l left)
            (expr_read _ r right))

    chain_read :
        (e : Expr) → IsChain strtoull strtod print e → ReadsChain parse_type strtoull strtod print e
    chain_read _ (atom e h) = chain_atom parse_type strtoull strtod print e (atom_read e h)
    chain_read _ (atom_postfix op e h) =
        chain_postfix parse_type strtoull strtod print op e (atom_read e h)
    chain_read _ (subscripted l r left right) = λ f1 f2 rest b1 b2 h.
        chain_subscript parse_type strtoull strtod print l r (chain_read l left)
          (expr_read _ r right) f1 f2 rest b1 b2

    atom_read :
        (e : Expr) → IsAtom strtoull strtod print e → ReadsAtom parse_type strtoull strtod print e
    atom_read _ (constant_atom a c h) = atom_constant a c h
    atom_read _ (str_atom val) = atom_str val
    atom_read _ (variable_atom name) = atom_variable name
    atom_read _ (call_atom name) = atom_call_empty name
    atom_read _ (call_args_atom name e args h) =
        atom_call parse_type strtoull strtod print name e args (args-Starts (arg e args) h)
          (args_read (arg e args) h)
    atom_read _ (paren_atom e h) =
        atom_paren parse_type strtoull strtod print e (expr-Starts strtoull strtod print 0 e h)
          (expr_read _ e h)

    args_read :
        (args : Args)
        → AreArgs strtoull strtod print args
        → ReadsArguments parse_type strtoull strtod print args
    args_read _ (one_arg e h) = arguments_one parse_type strtoull strtod print e (expr_read _ e h)
    args_read _ (more_args e f args h others) =
        arguments_more parse_type strtoull strtod print e f args (expr_read _ e h)
          (args_read (arg f args) others)

  -- Precedence climbing reads each expression of the grammar back from its tokens, whatever follows
  -- that does not go on with it: a postfix operator, a bracket, or an operator of the minimum
  -- precedence at least. The tokens behind it are left.
  pub parse_expression-tokens :
      (m : ℕ) (e : Expr) (rest : List Token)
      → IsExpr strtoull strtod print m e
      → Follows ends_factor rest
      → next_infix m rest ≡ none
      → parse_expression parse_type strtoull strtod m (tokens print e ++ rest) ≡ ok (e, rest)
  unfolding parse_expression
  parse_expression-tokens m e rest g h n =
      whole_of parse_type strtoull strtod print m e (expr_read m e g)
        (8 * length (tokens print e ++ rest) + 8) rest
        (omega (arith, length-append (tokens print e) rest)) h n
