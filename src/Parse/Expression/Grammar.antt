-- ===== src/Parse/Expression/Grammar.antt =====
-- The expressions that passes/parse/expression.c is meant to read, as a grammar with levels of
-- precedence, and the tokens that each is written with. Casts and sizeof are not in it.
use enqcc.Base.{
  ℕ, ◌+◌, ◌≤◌, ◌≡◌, Bool, true, false, List, [], ◌∷◌, ◌++◌, length, Option, if◌then◌else◌, ok,
}
use enqcc.Lang.Types.{plain, referring, char, array_of}
use enqcc.Lang.Symbol.{Name}
use enqcc.Lex.Tokens.{
  TokenType, Token, identifier, constant_str, paren_open, paren_close, square_bracket_open,
  square_bracket_close, comma, colon, ampersand, ampersand_ampersand, ampersand_equal_sign,
  asterisk, asterisk_equal_sign, caret, caret_equal_sign, equal_sign, equal_sign_equal_sign,
  exclamation, exclamation_equal_sign, forward_slash, forward_slash_equal_sign, hyphen,
  hyphen_equal_sign, hyphen_hyphen, less_than, less_than_equal_sign, less_than_less_than,
  less_than_less_than_equal_sign, more_than, more_than_equal_sign, more_than_more_than,
  more_than_more_than_equal_sign, percent_sign, percent_sign_equal_sign, plus_sign,
  plus_sign_equal_sign, plus_sign_plus_sign, question, tilde, vert_bar, vert_bar_equal_sign,
  vert_bar_vert_bar,
}
use enqcc.Lex.{token}
use enqcc.Parse.Constant.{ConstantNode, can_parse_constant, node_of_constant}
use enqcc.Parse.Tree.{
  Prefix, unary_complement, unary_negate, unary_not, unary_dereference, unary_address_of,
  unary_size_of, predecrement, preincrement, Postfix, postdecrement, postincrement, Infix,
  binary_add, binary_subtract, binary_multiply, binary_divide, binary_remainder, bitwise_and,
  bitwise_or, bitwise_xor, bitwise_shift_left, bitwise_shift_right, logical_and, logical_or,
  variable_assignment, compare_equal, compare_not_equal, compare_less_than, compare_less_than_eq,
  compare_more_than, compare_more_than_eq, compound_assign_add, compound_assign_sub,
  compound_assign_mul, compound_assign_div, compound_assign_rem, compound_assign_and,
  compound_assign_or, compound_assign_xor, compound_assign_sl, compound_assign_sr,
  ternary_conditional, Expr, constant_node, constant_str_node, variable_usage, function_call, unary,
  postfix, size_of_type, cast, paren_enclosed, subscript, binary, ternary, Args, no_args, arg,
}
use enqcc.Parse.Operators.{get_precedence, is_right_associative, right_precedence}

-- The token of each operator.
abbrev pub prefix_token : Prefix → TokenType
prefix_token unary_complement = tilde
prefix_token unary_negate = hyphen
prefix_token unary_not = exclamation
prefix_token unary_dereference = asterisk
prefix_token unary_address_of = ampersand
prefix_token predecrement = hyphen_hyphen
prefix_token preincrement = plus_sign_plus_sign
prefix_token unary_size_of = enqcc.Lex.Tokens.keyword_sizeof

abbrev pub postfix_token : Postfix → TokenType
postfix_token postdecrement = hyphen_hyphen
postfix_token postincrement = plus_sign_plus_sign

abbrev pub infix_token : Infix → TokenType
infix_token binary_add = plus_sign
infix_token binary_subtract = hyphen
infix_token binary_multiply = asterisk
infix_token binary_divide = forward_slash
infix_token binary_remainder = percent_sign
infix_token bitwise_and = ampersand
infix_token bitwise_or = vert_bar
infix_token bitwise_xor = caret
infix_token bitwise_shift_left = less_than_less_than
infix_token bitwise_shift_right = more_than_more_than
infix_token logical_and = ampersand_ampersand
infix_token logical_or = vert_bar_vert_bar
infix_token variable_assignment = equal_sign
infix_token compare_equal = equal_sign_equal_sign
infix_token compare_not_equal = exclamation_equal_sign
infix_token compare_less_than = less_than
infix_token compare_less_than_eq = less_than_equal_sign
infix_token compare_more_than = more_than
infix_token compare_more_than_eq = more_than_equal_sign
infix_token compound_assign_add = plus_sign_equal_sign
infix_token compound_assign_sub = hyphen_equal_sign
infix_token compound_assign_mul = asterisk_equal_sign
infix_token compound_assign_div = forward_slash_equal_sign
infix_token compound_assign_rem = percent_sign_equal_sign
infix_token compound_assign_and = ampersand_equal_sign
infix_token compound_assign_or = vert_bar_equal_sign
infix_token compound_assign_xor = caret_equal_sign
infix_token compound_assign_sl = less_than_less_than_equal_sign
infix_token compound_assign_sr = more_than_more_than_equal_sign
infix_token ternary_conditional = question

abbrev pub is_binary : Infix → Bool
is_binary ternary_conditional = false
is_binary _ = true

abbrev pub is_not_sizeof : Prefix → Bool
is_not_sizeof unary_size_of = false
is_not_sizeof _ = true

-- The least precedence of the operators on the left of an operator.
abbrev pub left_precedence : Infix → ℕ
left_precedence op = get_precedence op + (if is_right_associative op then 1 else 0)

-- `print` writes a constant as a token.
module _ (print : ConstantNode → Token) where
  unfoldable mutual
    pub tokens : Expr → List Token
    tokens (constant_node a) = print a ∷ []
    tokens (constant_str_node val t) = token constant_str val ∷ []
    tokens (variable_usage name) = token identifier name ∷ []
    tokens (function_call name args) =
        token identifier name
        ∷ token paren_open []
        ∷ (arg_tokens args ++ (token paren_close [] ∷ []))
    tokens (unary op e) = token (prefix_token op) [] ∷ tokens e
    tokens (postfix op e) = tokens e ++ (token (postfix_token op) [] ∷ [])
    tokens (paren_enclosed e) = token paren_open [] ∷ (tokens e ++ (token paren_close [] ∷ []))
    tokens (subscript l r) =
        tokens l
        ++ (token square_bracket_open [] ∷ (tokens r ++ (token square_bracket_close [] ∷ [])))
    tokens (binary op l r) = tokens l ++ (token (infix_token op) [] ∷ tokens r)
    tokens (ternary c l r) =
        tokens c ++ (token question [] ∷ (tokens l ++ (token colon [] ∷ tokens r)))
    tokens (cast t e) = []
    tokens (size_of_type t) = []

    pub arg_tokens : Args → List Token
    arg_tokens no_args = []
    arg_tokens (arg e no_args) = tokens e
    arg_tokens (arg e (arg f args)) = tokens e ++ (token comma [] ∷ arg_tokens (arg f args))

module _ (strtoull strtod : List ℕ → Option ℕ) (print : ConstantNode → Token) where
  mutual
    -- Expressions whose operators have the precedence `m` at least, outside brackets.
    pub data IsExpr : ℕ → Expr → Type 0 where
      factor : (m : ℕ) (e : Expr) → IsFactor e → IsExpr m e
      operation :
          (m : ℕ) (op : Infix) (l r : Expr)
          → m ≤ get_precedence op
          → is_binary op ≡ true
          → IsExpr (left_precedence op) l
          → IsExpr (right_precedence op) r
          → IsExpr m (binary op l r)
      conditional :
          (m : ℕ) (c l r : Expr)
          → m ≤ get_precedence ternary_conditional
          → IsExpr (left_precedence ternary_conditional) c
          → IsExpr 0 l
          → IsExpr (right_precedence ternary_conditional) r
          → IsExpr m (ternary c l r)

    pub data IsFactor : Expr → Type 0 where
      prefixed :
          (op : Prefix) (e : Expr) → is_not_sizeof op ≡ true → IsFactor e → IsFactor (unary op e)
      chained : (e : Expr) → IsChain e → IsFactor e
      chained_postfix :
          (op : Postfix) (l r : Expr)
          → IsChain l
          → IsExpr 0 r
          → IsFactor (postfix op (subscript l r))

    -- Subscripts behind an atom, which may have a postfix operator itself.
    pub data IsChain : Expr → Type 0 where
      atom : (e : Expr) → IsAtom e → IsChain e
      atom_postfix : (op : Postfix) (e : Expr) → IsAtom e → IsChain (postfix op e)
      subscripted : (l r : Expr) → IsChain l → IsExpr 0 r → IsChain (subscript l r)

    pub data IsAtom : Expr → Type 0 where
      constant_atom :
          (a : ConstantNode)
          → can_parse_constant (print a).token_type ≡ true
          → node_of_constant strtoull strtod (print a) ≡ ok a
          → IsAtom (constant_node a)
      str_atom :
          (val : Name)
          → IsAtom
              (constant_str_node val (referring array_of false (plain char false 0) (length val)))
      variable_atom : (name : Name) → IsAtom (variable_usage name)
      call_atom : (name : Name) → IsAtom (function_call name no_args)
      call_args_atom :
          (name : Name) (e : Expr) (args : Args)
          → AreArgs (arg e args)
          → IsAtom (function_call name (arg e args))
      paren_atom : (e : Expr) → IsExpr 0 e → IsAtom (paren_enclosed e)

    pub data AreArgs : Args → Type 0 where
      one_arg : (e : Expr) → IsExpr 0 e → AreArgs (arg e no_args)
      more_args :
          (e f : Expr) (args : Args)
          → IsExpr 0 e
          → AreArgs (arg f args)
          → AreArgs (arg e (arg f args))
