-- ===== src/Parse/Operators.antt =====
-- passes/parse/expression.c: the operators, from the tables of passes/parse.h.
use enqcc.Base.{
  ℕ, ◌+◌, ◌*◌, Bool, true, false, ltb, Option, none, some, List, [], ◌∷◌, if◌then◌else◌,
}
use enqcc.Lex.Tokens.{
  TokenType, Token, ampersand, ampersand_ampersand, ampersand_equal_sign, asterisk,
  asterisk_equal_sign, caret, caret_equal_sign, equal_sign, equal_sign_equal_sign, exclamation,
  exclamation_equal_sign, forward_slash, forward_slash_equal_sign, hyphen, hyphen_equal_sign,
  hyphen_hyphen, keyword_sizeof, less_than, less_than_equal_sign, less_than_less_than,
  less_than_less_than_equal_sign, more_than, more_than_equal_sign, more_than_more_than,
  more_than_more_than_equal_sign, percent_sign, percent_sign_equal_sign, plus_sign,
  plus_sign_equal_sign, plus_sign_plus_sign, question, tilde, vert_bar, vert_bar_equal_sign,
  vert_bar_vert_bar,
}
use enqcc.Parse.Tree.{
  Prefix, unary_complement, unary_negate, unary_not, unary_dereference, unary_address_of,
  unary_size_of, predecrement, preincrement, Infix, binary_add, binary_subtract, binary_multiply,
  binary_divide, binary_remainder, bitwise_and, bitwise_or, bitwise_xor, bitwise_shift_left,
  bitwise_shift_right, logical_and, logical_or, variable_assignment, compare_equal,
  compare_not_equal, compare_less_than, compare_less_than_eq, compare_more_than,
  compare_more_than_eq, compound_assign_add, compound_assign_sub, compound_assign_mul,
  compound_assign_div, compound_assign_rem, compound_assign_and, compound_assign_or,
  compound_assign_xor, compound_assign_sl, compound_assign_sr, ternary_conditional,
}

-- FOREACH_AST_NODE_EXPRESSION_PREFIX_OP
abbrev pub prefix_op : TokenType → Option Prefix
prefix_op tilde = some unary_complement
prefix_op hyphen = some unary_negate
prefix_op exclamation = some unary_not
prefix_op asterisk = some unary_dereference
prefix_op ampersand = some unary_address_of
prefix_op keyword_sizeof = some unary_size_of
prefix_op hyphen_hyphen = some predecrement
prefix_op plus_sign_plus_sign = some preincrement
prefix_op _ = none

-- FOREACH_AST_NODE_EXPRESSION_INFIX_OP
abbrev pub infix_op : TokenType → Option Infix
infix_op plus_sign = some binary_add
infix_op hyphen = some binary_subtract
infix_op asterisk = some binary_multiply
infix_op forward_slash = some binary_divide
infix_op percent_sign = some binary_remainder
infix_op ampersand = some bitwise_and
infix_op vert_bar = some bitwise_or
infix_op caret = some bitwise_xor
infix_op less_than_less_than = some bitwise_shift_left
infix_op more_than_more_than = some bitwise_shift_right
infix_op ampersand_ampersand = some logical_and
infix_op vert_bar_vert_bar = some logical_or
infix_op equal_sign = some variable_assignment
infix_op equal_sign_equal_sign = some compare_equal
infix_op exclamation_equal_sign = some compare_not_equal
infix_op less_than = some compare_less_than
infix_op less_than_equal_sign = some compare_less_than_eq
infix_op more_than = some compare_more_than
infix_op more_than_equal_sign = some compare_more_than_eq
infix_op plus_sign_equal_sign = some compound_assign_add
infix_op hyphen_equal_sign = some compound_assign_sub
infix_op asterisk_equal_sign = some compound_assign_mul
infix_op forward_slash_equal_sign = some compound_assign_div
infix_op percent_sign_equal_sign = some compound_assign_rem
infix_op ampersand_equal_sign = some compound_assign_and
infix_op vert_bar_equal_sign = some compound_assign_or
infix_op caret_equal_sign = some compound_assign_xor
infix_op less_than_less_than_equal_sign = some compound_assign_sl
infix_op more_than_more_than_equal_sign = some compound_assign_sr
infix_op question = some ternary_conditional
infix_op _ = none

abbrev pub precedence_increment : ℕ
precedence_increment = 10

-- The steps that the `switch` falls through.
abbrev pub precedence_steps : Infix → ℕ
precedence_steps binary_add = 11
precedence_steps binary_subtract = 11
precedence_steps binary_multiply = 12
precedence_steps binary_divide = 12
precedence_steps binary_remainder = 12
precedence_steps bitwise_and = 7
precedence_steps bitwise_or = 5
precedence_steps bitwise_xor = 6
precedence_steps bitwise_shift_left = 10
precedence_steps bitwise_shift_right = 10
precedence_steps logical_and = 4
precedence_steps logical_or = 3
precedence_steps compare_equal = 8
precedence_steps compare_not_equal = 8
precedence_steps compare_less_than = 9
precedence_steps compare_less_than_eq = 9
precedence_steps compare_more_than = 9
precedence_steps compare_more_than_eq = 9
precedence_steps ternary_conditional = 2
precedence_steps _ = 1

abbrev pub get_precedence : Infix → ℕ
get_precedence op = precedence_steps op * precedence_increment

abbrev pub is_right_associative : Infix → Bool
is_right_associative variable_assignment = true
is_right_associative compound_assign_add = true
is_right_associative compound_assign_sub = true
is_right_associative compound_assign_mul = true
is_right_associative compound_assign_div = true
is_right_associative compound_assign_rem = true
is_right_associative compound_assign_and = true
is_right_associative compound_assign_or = true
is_right_associative compound_assign_xor = true
is_right_associative compound_assign_sl = true
is_right_associative compound_assign_sr = true
is_right_associative ternary_conditional = true
is_right_associative _ = false

-- The least precedence of the operators on the right of an operator.
abbrev pub right_precedence : Infix → ℕ
right_precedence op = get_precedence op + (if is_right_associative op then 0 else 1)

-- The operands that a cast leaves to the operator around them.
abbrev pub takes_cast_lhs : Infix → Bool
takes_cast_lhs binary_add = true
takes_cast_lhs binary_subtract = true
takes_cast_lhs binary_multiply = true
takes_cast_lhs binary_divide = true
takes_cast_lhs binary_remainder = true
takes_cast_lhs bitwise_and = true
takes_cast_lhs bitwise_or = true
takes_cast_lhs bitwise_xor = true
takes_cast_lhs bitwise_shift_left = true
takes_cast_lhs bitwise_shift_right = true
takes_cast_lhs logical_and = true
takes_cast_lhs logical_or = true
takes_cast_lhs compare_equal = true
takes_cast_lhs compare_not_equal = true
takes_cast_lhs compare_less_than = true
takes_cast_lhs compare_less_than_eq = true
takes_cast_lhs compare_more_than = true
takes_cast_lhs compare_more_than_eq = true
takes_cast_lhs variable_assignment = true
takes_cast_lhs _ = false

unfoldable pub parse_expr_check_next_token : List Token → Option Infix
parse_expr_check_next_token [] = none
parse_expr_check_next_token (tok ∷ toks) = infix_op tok.token_type

-- The operator that the loop of parse_expr goes on with.
abbrev pub bounded : ℕ → Option Infix → Option Infix
bounded minimum_precedence none = none
bounded minimum_precedence (some bop) =
    if ltb (get_precedence bop) minimum_precedence then none else some bop

abbrev pub next_infix : ℕ → List Token → Option Infix
next_infix minimum_precedence pos = bounded minimum_precedence (parse_expr_check_next_token pos)
