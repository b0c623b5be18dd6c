-- ===== src/Parse/Tree.antt =====
-- passes/parse.h: expressions, as passes/parse/expression.c builds them.
use enqcc.Lang.Types.{Ctype}
use enqcc.Lang.Symbol.{Name}
use enqcc.Parse.Constant.{ConstantNode}

pub data Prefix : Type 0 where
  unary_complement unary_negate unary_not unary_dereference : Prefix
  unary_address_of unary_size_of predecrement preincrement : Prefix

pub data Postfix : Type 0 where
  postdecrement postincrement : Postfix

pub data Infix : Type 0 where
  binary_add binary_subtract binary_multiply binary_divide binary_remainder : Infix
  bitwise_and bitwise_or bitwise_xor bitwise_shift_left bitwise_shift_right : Infix
  logical_and logical_or variable_assignment compare_equal compare_not_equal : Infix
  compare_less_than compare_less_than_eq compare_more_than compare_more_than_eq
        compound_assign_add :
      Infix
  compound_assign_sub compound_assign_mul compound_assign_div compound_assign_rem
        compound_assign_and :
      Infix
  compound_assign_or compound_assign_xor compound_assign_sl compound_assign_sr ternary_conditional :
      Infix

-- `size_of_type` is a NODE_EXPRESSION_UNARY_SIZE_OF on a NODE_EXPRESSION_NULL that has the type.
mutual
  pub data Expr : Type 0 where
    constant_node : ConstantNode → Expr
    constant_str_node : Name → Ctype → Expr
    variable_usage : Name → Expr
    function_call : Name → Args → Expr
    unary : Prefix → Expr → Expr
    postfix : Postfix → Expr → Expr
    size_of_type : Ctype → Expr
    cast : Ctype → Expr → Expr
    paren_enclosed : Expr → Expr
    subscript : Expr → Expr → Expr
    binary : Infix → Expr → Expr → Expr
    ternary : Expr → Expr → Expr → Expr

  pub data Args : Type 0 where
    no_args : Args
    arg : Expr → Args → Args
