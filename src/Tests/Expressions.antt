-- ===== src/Tests/Expressions.antt =====
-- Runs of passes/parse/expression.c and passes/parse/constant.c, and the theorems at them.
use enqcc.Base.{
  ℕ, ◌≡◌, refl, false, List, [], ◌∷◌, ◌++◌, length, Option, some, none, Result, ok, err, ◌>>=◌, pos,
  Ends, arith, ◌-◌, parse_decl_expect_type,
}
use enqcc.Lang.Types.{Ctype, plain, int, long}
use enqcc.Lex.Tokens.{
  TokenType, Token, semicolon, identifier, constant, keyword_int, paren_open, paren_close,
  plus_sign, hyphen, asterisk, equal_sign,
}
use enqcc.Lang.Symbol.{name_eq}
use enqcc.Lex.Operators.{early_match, lex_readahead_one_or_two_chars}
use enqcc.Lex.Words.{identifier_span, lex_one_token_keyword_maybe, find_keyword}
use enqcc.Lex.{
  token, lex_operator, lex_other, lex_word, lex_peek_ok, lex_one_token, lex_tokens, lex_init,
}
use enqcc.Parse.Constant.{ConstantNode, num, memchr, has_suffix, node_of_constant, parse_constant}
use enqcc.Parse.Constant.Fit.{candidates, first_fit, typed, parse_constant-first_fit}
use enqcc.Parse.Tree.{
  Expr, variable_usage, cast, binary, binary_add, binary_subtract, binary_multiply,
  variable_assignment,
}
use enqcc.Parse.Operators.{parse_expr_check_next_token}
use enqcc.Parse.Expression.{parse_expr, parse_expression}
use enqcc.Parse.Expression.Total.{Left, are_lexed, tail-AreLeft}
use enqcc.Parse.Expression.Calls.{IsTotalType}
use enqcc.Parse.Expression.Lexed.{lex_init-parse_expression}
use enqcc.Parse.Expression.Casts.{parse_expression-cast}
use enqcc.Parse.Expression.Grammar.{tokens, IsExpr, factor, operation, chained, atom, variable_atom}
use enqcc.Parse.Expression.RoundTrip.{parse_expression-tokens}
use enqcc.Parse.Expression.Induction.{parse_expression-Ends}

-- A parser of the type `int`, and functions that read one digit.
abbrev type_by : TokenType → List Token → Result (Ctype × List Token)
type_by keyword_int toks = ok (plain int false 0, toks)
type_by _ toks = err parse_decl_expect_type

abbrev parse_int : List Token → Result (Ctype × List Token)
parse_int [] = err parse_decl_expect_type
parse_int (tok ∷ toks) = type_by tok.token_type toks

abbrev read_digit : List ℕ → Option ℕ
read_digit [] = none
read_digit (c ∷ val) = some (c - 48)

parse_int-IsTotalType : IsTotalType parse_int
parse_int-IsTotalType n [] h = refl
parse_int-IsTotalType n (tok ∷ toks) h = by_type tok.token_type
  where
    by_type : (t : TokenType) → Ends false (Left n) (type_by t toks)
    by_type keyword_int = tail-AreLeft n (tok ∷ toks) h
    by_type _ = refl

abbrev name : ℕ → Token
name c = token identifier (c ∷ [])

abbrev var : ℕ → Expr
var c = variable_usage (c ∷ [])

-- a = b - c - d * e
abbrev assignment : List Token
assignment =
    name b'a'
    ∷ token equal_sign []
    ∷ name b'b'
    ∷ token hyphen []
    ∷ name b'c'
    ∷ token hyphen []
    ∷ name b'd'
    ∷ token asterisk []
    ∷ name b'e'
    ∷ []

assignment_parsed :
    parse_expression parse_int read_digit read_digit 0 assignment
    ≡ ok (
      binary variable_assignment (var b'a') (
          binary binary_subtract
            (binary binary_subtract (var b'b') (var b'c'))
            (binary binary_multiply (var b'd') (var b'e'))),
      [],
    )
unfolding parse_expression parse_expr parse_expr_check_next_token
assignment_parsed = refl

-- a * (int) b + c: the operand of the cast takes in the addition, which then takes in the cast.
cast_after_operator :
    parse_expression parse_int read_digit read_digit 0 (
      name b'a'
      ∷ token asterisk []
      ∷ token paren_open []
      ∷ token keyword_int []
      ∷ token paren_close []
      ∷ name b'b'
      ∷ token plus_sign []
      ∷ name b'c'
      ∷ [])
    ≡ ok (
      binary binary_multiply
          (var b'a')
          (binary binary_add (cast (plain int false 0) (var b'b')) (var b'c')),
      [],
    )
unfolding parse_expression parse_expr parse_expr_check_next_token
cast_after_operator = refl

-- (int) a * b + c: the cast applies to the product.
cast_of_product :
    parse_expression parse_int read_digit read_digit 0 (
      token paren_open []
      ∷ token keyword_int []
      ∷ token paren_close []
      ∷ name b'a'
      ∷ token asterisk []
      ∷ name b'b'
      ∷ token plus_sign []
      ∷ name b'c'
      ∷ [])
    ≡ ok (
      binary binary_add
          (cast (plain int false 0) (binary binary_multiply (var b'a') (var b'b')))
          (var b'c'),
      [],
    )
unfolding parse_expression parse_expr parse_expr_check_next_token
cast_of_product = refl

parse_expression-Ends_example :
    Ends false
      (Left (length assignment))
      (parse_expression parse_int read_digit read_digit 0 assignment)
parse_expression-Ends_example =
    parse_expression-Ends parse_int read_digit read_digit parse_int-IsTotalType 0 assignment
      (unfold are_lexed in refl)

parse_constant-first_fit_example :
    parse_constant read_digit read_digit (token constant (b'7' ∷ b'l' ∷ []) ∷ name b'a' ∷ []) ≡ (
      typed 7 (
        first_fit
          (candidates (has_suffix b'U' (b'7' ∷ b'l' ∷ [])) (has_suffix b'L' (b'7' ∷ b'l' ∷ [])))
          7)
      >>= λ a. ok (a, name b'a' ∷ []))
parse_constant-first_fit_example =
    parse_constant-first_fit read_digit read_digit (b'7' ∷ b'l' ∷ []) 7 (name b'a' ∷ [])
      (unfold memchr in refl) refl (omega arith)

constant_parsed :
    parse_constant read_digit read_digit (token constant (b'7' ∷ b'l' ∷ []) ∷ [])
    ≡ ok (record { expr_type = plain long false 0; value = num (pos 7) }, [])
unfolding parse_constant node_of_constant memchr has_suffix
constant_parsed = refl

-- The tree of the assignment, in the grammar.
abbrev tree : Expr
tree = binary variable_assignment (var b'a') (
    binary binary_subtract (binary binary_subtract (var b'b') (var b'c'))
      (binary binary_multiply (var b'd') (var b'e')))

abbrev print : ConstantNode → Token
print a = token constant (b'7' ∷ [])

var-IsExpr : (m c : ℕ) → IsExpr read_digit read_digit print m (var c)
var-IsExpr m c = factor m (var c) (chained (var c) (atom (var c) (variable_atom (c ∷ []))))

tree-IsExpr : IsExpr read_digit read_digit print 0 tree
tree-IsExpr = operation 0 variable_assignment (var b'a') _ (omega arith) refl (var-IsExpr 11 b'a') (
    operation 10 binary_subtract _ _ (omega arith) refl
      (operation 110 binary_subtract (var b'b') (var b'c') (omega arith) refl (var-IsExpr 110 b'b')
        (var-IsExpr 111 b'c'))
      (operation 111 binary_multiply (var b'd') (var b'e') (omega arith) refl (var-IsExpr 120 b'd')
        (var-IsExpr 121 b'e')))

tree-tokens : tokens print tree ≡ assignment
unfolding tokens
tree-tokens = refl

parse_expression-tokens_example :
    parse_expression parse_int read_digit read_digit 0
      (tokens print tree ++ token semicolon [] ∷ [])
    ≡ ok (tree, token semicolon [] ∷ [])
parse_expression-tokens_example =
    parse_expression-tokens parse_int read_digit read_digit print 0 tree (token semicolon [] ∷ [])
      tree-IsExpr refl (unfold parse_expr_check_next_token in refl)

-- `a = b` and a line break
abbrev line : List ℕ
line = b'a' ∷ 32 ∷ b'=' ∷ 32 ∷ b'b' ∷ 10 ∷ []

abbrev line_tokens : List Token
line_tokens = name b'a' ∷ token equal_sign [] ∷ name b'b' ∷ []

line_lexed : lex_init line ≡ ok line_tokens
unfolding lex_init lex_tokens lex_one_token lex_other lex_word lex_peek_ok early_match lex_operator
    lex_readahead_one_or_two_chars identifier_span lex_one_token_keyword_maybe find_keyword name_eq
line_lexed = refl

lex_init-parse_expression_example :
    Ends false
      (Left (length line_tokens))
      (parse_expression parse_int read_digit read_digit 0 line_tokens)
lex_init-parse_expression_example =
    lex_init-parse_expression parse_int read_digit read_digit line line_tokens 0
      parse_int-IsTotalType line_lexed

-- (int) b + c behind an operator that binds closer: the cast takes in the addition all the same.
abbrev sum : Expr
sum = binary binary_add (var b'b') (var b'c')

sum-IsExpr : IsExpr read_digit read_digit print 0 sum
sum-IsExpr =
    operation 0 binary_add _ _ (omega arith) refl (var-IsExpr 110 b'b') (var-IsExpr 111 b'c')

parse_expression-cast_example :
    parse_expression parse_int read_digit read_digit 121 (
      token paren_open []
      ∷ token keyword_int []
      ∷ token paren_close []
      ∷ (tokens print sum ++ token semicolon [] ∷ []))
    ≡ ok (
      binary binary_add (cast (plain int false 0) (var b'b')) (var b'c'),
      token semicolon [] ∷ [],
    )
parse_expression-cast_example =
    parse_expression-cast parse_int read_digit read_digit print 121 (plain int false 0)
      (token keyword_int []) sum (token semicolon [] ∷ []) refl refl sum-IsExpr refl
      (unfold parse_expr_check_next_token in refl)
