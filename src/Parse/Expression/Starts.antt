-- ===== src/Parse/Expression/Starts.antt =====
-- passes/parse/expression.c: the tokens that the expressions of the grammar start with.
use enqcc.Base.{ℕ, ◌≡◌, refl, Bool, true, not, ◌&&◌, List, [], ◌∷◌, ◌++◌, Option}
use enqcc.Lex.Tokens.{TokenType, Token, constant, constant_char}
use enqcc.Parse.Constant.{ConstantNode, can_parse_constant}
use enqcc.Parse.Specifiers.{is_token_variable_type}
use enqcc.Parse.Tree.{Prefix, unary_size_of, Expr, subscript}
use enqcc.Parse.Expression.{is_paren_close}
use enqcc.Parse.Expression.Grammar.{
  prefix_token, tokens, IsExpr, factor, operation, conditional, IsFactor, prefixed, chained,
  chained_postfix, IsChain, atom, atom_postfix, subscripted, IsAtom, constant_atom, str_atom,
  variable_atom, call_atom, call_args_atom, paren_atom,
}

-- An expression starts with a token that is no closing parenthesis and starts no type.
abbrev pub starts_expr : TokenType → Bool
starts_expr t = not (is_paren_close t) && not (is_token_variable_type t)

abbrev pub Starts : List Token → Type 0
Starts [] = ⊥
Starts (tok ∷ toks) = starts_expr tok.token_type ≡ true

pub Starts-append : (toks rest : List Token) → Starts toks → Starts (toks ++ rest)
Starts-append [] rest h = absurd h
Starts-append (tok ∷ toks) rest h = h

can_parse_constant-Starts : (t : TokenType) → can_parse_constant t ≡ true → starts_expr t ≡ true
can_parse_constant-Starts constant h = refl
can_parse_constant-Starts constant_char h = refl
can_parse_constant-Starts _ h = cc

prefix_token-Starts : (op : Prefix) → starts_expr (prefix_token op) ≡ true
prefix_token-Starts unary_size_of = refl
prefix_token-Starts _ = refl

module _ (strtoull strtod : List ℕ → Option ℕ) (print : ConstantNode → Token) where
  atom-Starts : (e : Expr) → IsAtom strtoull strtod print e → Starts (tokens print e)
  unfolding tokens
  atom-Starts _ (constant_atom a c h) = can_parse_constant-Starts (print a).token_type c
  atom-Starts _ (str_atom val) = refl
  atom-Starts _ (variable_atom name) = refl
  atom-Starts _ (call_atom name) = refl
  atom-Starts _ (call_args_atom name e args h) = refl
  atom-Starts _ (paren_atom e h) = refl

  chain-Starts : (e : Expr) → IsChain strtoull strtod print e → Starts (tokens print e)
  unfolding tokens
  chain-Starts _ (atom e h) = atom-Starts e h
  chain-Starts _ (atom_postfix op e h) = Starts-append (tokens print e) _ (atom-Starts e h)
  chain-Starts _ (subscripted l r h k) = Starts-append (tokens print l) _ (chain-Starts l h)

  factor-Starts : (e : Expr) → IsFactor strtoull strtod print e → Starts (tokens print e)
  unfolding tokens
  factor-Starts _ (prefixed op e n h) = prefix_token-Starts op
  factor-Starts _ (chained e h) = chain-Starts e h
  factor-Starts _ (chained_postfix op l r h k) =
      Starts-append (tokens print (subscript l r)) _
        (chain-Starts (subscript l r) (subscripted l r h k))

  pub expr-Starts : (m : ℕ) (e : Expr) → IsExpr strtoull strtod print m e → Starts (tokens print e)
  unfolding tokens
  expr-Starts _ _ (factor m e h) = factor-Starts e h
  expr-Starts _ _ (operation m op l r h b f g) =
      Starts-append (tokens print l) _ (expr-Starts _ l f)
  expr-Starts _ _ (conditional m c l r h f g k) =
      Starts-append (tokens print c) _ (expr-Starts _ c f)
