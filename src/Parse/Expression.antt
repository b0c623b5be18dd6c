-- ===== src/Parse/Expression.antt =====
-- passes/parse/expression.c: precedence climbing. The calls that go back to each other have fuel: a
-- token is taken at least in every eighth call, so that eight times as much as tokens, and eight, is
-- enough.
pub mod Total
pub mod Calls
pub mod Steps
pub mod Induction
pub mod Lexed
pub mod Grammar
pub mod Facts
pub mod Starts
pub mod Parts
pub mod Statements
pub mod Operands
pub mod Factors
pub mod Atoms
pub mod RoundTrip
pub mod Casts
use enqcc.Base.{
  ℕ, zero, suc, ◌+◌, ◌*◌, Bool, true, false, ◌&&◌, ◌||◌, not, List, [], ◌∷◌, length, Option, none,
  some, if◌then◌else◌, Result, Error, ok, err, ◌>>=◌, ◌>>◌, guard, is_reported, assertion_failed,
  null_dereference, out_of_fuel, parse_expr_expect_reasonable, parse_call_expect_token_paren_close,
  parse_sizeof_expect_token_paren_close, parse_cast_expect_token_paren_close,
  parse_expr_expect_token_paren_close, parse_expr_expect_token_sq_bracket_close,
  parse_expr_expect_colon_in_ternary_op,
}
use mathlib.Core.List.{tail}
use enqcc.Lang.Types.{Ctype, plain, referring, char, array_of}
use enqcc.Lang.Symbol.{Name}
use enqcc.Lex.Tokens.{
  TokenType, Token, identifier, constant, constant_char, constant_str, paren_open, paren_close,
  square_bracket_open, square_bracket_close, comma, colon, plus_sign_plus_sign, hyphen_hyphen,
}
use enqcc.Parse.Constant.{parse_constant}
use enqcc.Parse.Specifiers.{is_token_variable_type}
use enqcc.Parse.Tree.{
  Prefix, unary_size_of, postdecrement, postincrement, Infix, ternary_conditional, Expr,
  constant_node, constant_str_node, variable_usage, function_call, unary, postfix, size_of_type,
  cast, paren_enclosed, subscript, binary, ternary, Args, no_args, arg,
}
use enqcc.Parse.Operators.{
  prefix_op, infix_op, get_precedence, right_precedence, takes_cast_lhs, next_infix,
}

-- is_token_type at each of the types that expression.c asks for
abbrev pub is_paren_open : TokenType → Bool
is_paren_open paren_open = true
is_paren_open _ = false

abbrev pub is_paren_close : TokenType → Bool
is_paren_close paren_close = true
is_paren_close _ = false

abbrev pub is_square_open : TokenType → Bool
is_square_open square_bracket_open = true
is_square_open _ = false

abbrev pub is_square_close : TokenType → Bool
is_square_close square_bracket_close = true
is_square_close _ = false

abbrev pub is_comma : TokenType → Bool
is_comma comma = true
is_comma _ = false

abbrev pub is_colon : TokenType → Bool
is_colon colon = true
is_colon _ = false

abbrev pub is_token_type : List Token → (TokenType → Bool) → Bool
is_token_type [] expected = false
is_token_type (tok ∷ toks) expected = expected tok.token_type

-- What parse_factor finds at its first token, in the order of its tests.
pub data FactorStart : Type 0 where
  sizeof_with_parens symbol_start constant_start str_start cast_start paren_start no_factor :
      FactorStart
  prefix_start : Prefix → FactorStart

abbrev pub sizeof_start : List Token → Prefix → FactorStart
sizeof_start toks unary_size_of =
    if is_token_type toks is_paren_open then sizeof_with_parens else prefix_start unary_size_of
sizeof_start toks op = prefix_start op

abbrev pub primary_start : List Token → TokenType → FactorStart
primary_start toks constant = constant_start
primary_start toks constant_char = constant_start
primary_start toks constant_str = str_start
primary_start toks identifier = symbol_start
primary_start toks paren_open =
    if is_token_type toks is_token_variable_type then cast_start else paren_start
primary_start toks _ = no_factor

abbrev pub start_with : List Token → TokenType → Option Prefix → FactorStart
start_with toks t none = primary_start toks t
start_with toks t (some op) = sizeof_start toks op

abbrev pub factor_start : List Token → FactorStart
factor_start [] = no_factor
factor_start (tok ∷ toks) = start_with toks tok.token_type (prefix_op tok.token_type)

-- parse_postfix
abbrev pub postfix_by : TokenType → Expr → List Token → List Token → Expr × List Token
postfix_by plus_sign_plus_sign dst pos toks = (postfix postincrement dst, toks)
postfix_by hyphen_hyphen dst pos toks = (postfix postdecrement dst, toks)
postfix_by _ dst pos toks = (dst, pos)

abbrev pub parse_postfix : Expr → List Token → Expr × List Token
parse_postfix dst [] = (dst, [])
parse_postfix dst (tok ∷ toks) = postfix_by tok.token_type dst (tok ∷ toks) toks

-- A cast, whose type moves to the left operand of the operator that its operand is.
abbrev pub finish_cast : Ctype → Expr → Expr
finish_cast to_type (binary op lhs rhs) =
    if takes_cast_lhs op then binary op (cast to_type lhs) rhs else cast to_type (binary op lhs rhs)
finish_cast to_type e = cast to_type e

-- The text of the token at the cursor.
abbrev pub val_at : List Token → Name
val_at [] = []
val_at (tok ∷ toks) = tok.val

abbrev pub str_node : Name → Expr
str_node val = constant_str_node val (referring array_of false (plain char false 0) (length val))

-- check that a token is there, and the tokens behind it
abbrev pub expect : (TokenType → Bool) → Error → Expr × List Token → Result (Expr × List Token)
expect expected failure r = do guard (is_token_type r.1 expected) failure; ok (r.0, tail r.1)

module _ (parse_type : List Token → Result (Ctype × List Token))
    (strtoull strtod : List ℕ → Option ℕ) where
  unfoldable mutual
    pub parse_expr : ℕ → ℕ → List Token → Result (Expr × List Token)
    parse_expr zero m pos = err out_of_fuel
    parse_expr (suc fuel) m pos = do (left, after) ← parse_factor fuel pos; climb fuel m left after

    pub climb : ℕ → ℕ → Expr → List Token → Result (Expr × List Token)
    climb zero m left pos = err out_of_fuel
    climb (suc fuel) m left pos = climb_round fuel m left pos (next_infix m pos)

    pub climb_round : ℕ → ℕ → Expr → List Token → Option Infix → Result (Expr × List Token)
    climb_round zero m left pos op = err out_of_fuel
    climb_round (suc fuel) m left pos none = ok (left, pos)
    climb_round (suc fuel) m left pos (some ternary_conditional) = do
      r ← parse_expr fuel 0 (tail pos)
      (middle, after) ← expect is_colon parse_expr_expect_colon_in_ternary_op r
      (right, rest) ← parse_expr fuel (right_precedence ternary_conditional) after
      climb fuel m (ternary left middle right) rest
    climb_round (suc fuel) m left pos (some bop) = do
      (right, rest) ← parse_expr fuel (right_precedence bop) (tail pos)
      climb fuel m (binary bop left right) rest

    pub parse_factor : ℕ → List Token → Result (Expr × List Token)
    parse_factor zero pos = err out_of_fuel
    parse_factor (suc fuel) pos = do
      (a, after) ← parse_primary fuel pos
      (b, rest) ← subscripts fuel (parse_postfix a after).0 (parse_postfix a after).1
      ok (parse_postfix b rest)

    pub parse_primary : ℕ → List Token → Result (Expr × List Token)
    parse_primary zero pos = err out_of_fuel
    parse_primary (suc fuel) pos = primary_by fuel pos (factor_start pos)

    pub primary_by : ℕ → List Token → FactorStart → Result (Expr × List Token)
    primary_by zero pos start = err out_of_fuel
    primary_by (suc fuel) pos sizeof_with_parens =
        sizeof_by fuel (tail (tail pos)) (parse_type (tail (tail pos)))
    primary_by (suc fuel) pos (prefix_start op) = do
      (operand, rest) ← parse_factor fuel (tail pos)
      ok (unary op operand, rest)
    primary_by (suc fuel) pos constant_start = do
      (a, rest) ← parse_constant strtoull strtod pos
      ok (constant_node a, rest)
    primary_by (suc fuel) pos str_start = ok (str_node (val_at pos), tail pos)
    primary_by (suc fuel) pos symbol_start =
        symbol_by fuel (val_at pos) (tail pos) (is_token_type (tail pos) is_paren_open)
    primary_by (suc fuel) pos cast_start = do
      (to_type, after) ← parse_type (tail pos)
      guard (is_token_type after is_paren_close) parse_cast_expect_token_paren_close
      (e, rest) ← parse_expr fuel 0 (tail after)
      ok (finish_cast to_type e, rest)
    primary_by (suc fuel) pos paren_start = do
      (e, after) ← parse_expr fuel 0 (tail pos)
      expect is_paren_close parse_expr_expect_token_paren_close (paren_enclosed e, after)
    primary_by (suc fuel) pos no_factor = err parse_expr_expect_reasonable

    pub sizeof_by : ℕ → List Token → Result (Ctype × List Token) → Result (Expr × List Token)
    sizeof_by zero pos tmp = err out_of_fuel
    sizeof_by (suc fuel) pos (ok (tmp, after)) =
        expect is_paren_close parse_sizeof_expect_token_paren_close (size_of_type tmp, after)
    sizeof_by (suc fuel) pos (err failure) = do
      guard (is_reported false failure) failure
      (operand, after) ← parse_expr fuel 0 pos
      expect is_paren_close parse_sizeof_expect_token_paren_close
          (unary unary_size_of operand, after)

    pub symbol_by : ℕ → Name → List Token → Bool → Result (Expr × List Token)
    symbol_by zero name pos call = err out_of_fuel
    symbol_by (suc fuel) name pos false = ok (variable_usage name, pos)
    symbol_by (suc fuel) name pos true =
        call_by fuel name (tail pos) (is_token_type (tail pos) is_paren_close)

    pub call_by : ℕ → Name → List Token → Bool → Result (Expr × List Token)
    call_by zero name pos closed = err out_of_fuel
    call_by (suc fuel) name pos true = ok (function_call name no_args, tail pos)
    call_by (suc fuel) name pos false = do
      (args, after) ← parse_args fuel pos
      expect is_paren_close parse_call_expect_token_paren_close (function_call name args, after)

    pub parse_args : ℕ → List Token → Result (Args × List Token)
    parse_args zero pos = err out_of_fuel
    parse_args (suc fuel) pos = do
      (e, after) ← parse_expr fuel 0 pos
      args_by fuel e after (is_token_type after is_comma)

    pub args_by : ℕ → Expr → List Token → Bool → Result (Args × List Token)
    args_by zero e pos more = err out_of_fuel
    args_by (suc fuel) e pos false = ok (arg e no_args, pos)
    args_by (suc fuel) e pos true = do
      (args, after) ← parse_args fuel (tail pos)
      ok (arg e args, after)

    pub subscripts : ℕ → Expr → List Token → Result (Expr × List Token)
    subscripts zero lhs pos = err out_of_fuel
    subscripts (suc fuel) lhs pos = subscripts_by fuel lhs pos (is_token_type pos is_square_open)

    pub subscripts_by : ℕ → Expr → List Token → Bool → Result (Expr × List Token)
    subscripts_by zero lhs pos more = err out_of_fuel
    subscripts_by (suc fuel) lhs pos false = ok (lhs, pos)
    subscripts_by (suc fuel) lhs pos true = do
      r ← parse_expr fuel 0 (tail pos)
      (rhs, after) ← expect is_square_close parse_expr_expect_token_sq_bracket_close r
      subscripts fuel (subscript lhs rhs) after

  -- parse_expr with enough fuel
  unfoldable pub parse_expression : ℕ → List Token → Result (Expr × List Token)
  unfolding parse_expr
  parse_expression minimum_precedence toks =
      parse_expr (8 * length toks + 8) minimum_precedence toks
