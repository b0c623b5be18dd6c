-- ===== src/Base/Outcome.antt =====
-- include/result.h: a call gives a value or stops with an error. `assertion_failed` is a failing
-- `assert`, which aborts the compiler; `null_dereference`, `signed_overflow` and `out_of_bounds_read`
-- are what C leaves undefined, and `out_of_fuel` is no outcome of the program, but the end of a bound
-- on the rounds of a loop. The data that an error carries for its message is left out.
use mathlib.Core.Path.{◌≡◌, refl, subst}
use mathlib.Core.Bool.{Bool, true, false}
use enqcc.Base.Tests.{if◌then◌else◌}

pub data Error : Type 0 where
  assertion_failed null_dereference signed_overflow out_of_bounds_read : Error
  out_of_fuel : Error
  codegen_alloc emit_file_open emit_alloc ir_alloc ir_expect_ast_node_expression : Error
  lex_open_source_file lex_alloc lex_char_escape_invalid lex_char_expect_more : Error
  lex_char_invalid_empty lex_char_invalid_multichar lex_char_invalid_newline : Error
  lex_float_exponent_no_digits lex_no_match lex_identifier_constant_keyword_peek_error : Error
  parse_alloc parse_call_expect_token_paren_close parse_case_expect_constant : Error
  parse_case_expect_colon parse_cast_expect_token_paren_close parse_constant_strtod : Error
  parse_constant_strtoull parse_constant_too_large : Error
  parse_decl_atom_array_size_floating_point parse_decl_atom_array_size_non_constant : Error
  parse_decl_atom_array_size_non_positive parse_decl_atom_early_subscript : Error
  parse_decl_atom_expect_paren_close parse_decl_atom_expect_sq_bracket_close : Error
  parse_decl_atom_func_ptr_unsupported parse_decl_atom_params_expect_paren_close : Error
  parse_decl_atom_params_nesting parse_decl_atom_parens_invalid : Error
  parse_decl_atom_pointer_after_parens parse_decl_expect_brace_close : Error
  parse_decl_expect_type parse_decl_expect_token_semicolon parse_decl_identifier_missing : Error
  parse_decl_identifier_unexpected parse_decl_specifier_duplicate : Error
  parse_decl_type_array_incomplete parse_decl_type_char_invalid : Error
  parse_decl_type_double_invalid parse_decl_type_duplicate parse_decl_type_void_invalid : Error
  parse_decl_type_void_param_type parse_decl_type_void_var_type : Error
  parse_expr_expect_token_paren_close parse_expr_expect_token_sq_bracket_close : Error
  parse_expr_expect_colon_in_ternary_op parse_expr_expect_reasonable : Error
  parse_func_expect_token_paren_open parse_func_expect_token_paren_close : Error
  parse_func_expect_token_semicolon_or_brace_open parse_func_expect_token_brace_open : Error
  parse_func_expect_token_brace_close parse_if_else_expect_token_paren_open : Error
  parse_if_else_expect_token_paren_close parse_loop_expect_token_paren_open : Error
  parse_loop_expect_token_paren_close parse_loop_expect_token_semicolon : Error
  parse_loop_expect_token_while parse_sizeof_expect_token_paren_close : Error
  parse_stmt_expect_token_semicolon parse_switch_expect_token_paren_open : Error
  parse_switch_expect_token_paren_close sema_alloc sema_break_outside : Error
  sema_case_default_duplicate sema_case_default_outside sema_case_duplicate : Error
  sema_case_outside sema_cast_to_array_type_invalid sema_continue_outside : Error
  sema_goto_nonexistent_label sema_init_compound_empty sema_init_compound_excess_elements : Error
  sema_init_scalar_with_compound sema_init_str_literal_invalid sema_label_duplicate : Error
  sema_label_followed_by_declaration sema_label_at_block_end sema_function_call_uncallable : Error
  sema_function_call_undeclared sema_function_call_wrong_number_of_args : Error
  sema_function_definition_conflict sema_function_definition_duplicate : Error
  sema_function_definition_nested sema_function_definition_param_duplicate : Error
  sema_function_linkage_block_scope sema_function_linkage_conflict : Error
  sema_function_return_type_array sema_operand_add_pointer_both : Error
  sema_operand_add_pointer_void sema_operand_address_of_invalid : Error
  sema_operand_char_array_size sema_operand_deref_invalid sema_operand_deref_void_ptr : Error
  sema_operand_double_invalid sema_operand_pointer_conflict sema_operand_pointer_invalid : Error
  sema_operand_pointer_lhs_vs_not_rhs sema_operand_pointer_rhs_vs_not_lhs : Error
  sema_operand_scalar_required sema_operand_sizeof_incomplete : Error
  sema_return_statement_expect_value sema_return_statement_expect_void : Error
  sema_variable_declaration_bad_lvalue sema_variable_declaration_bad_lvalue_array : Error
  sema_variable_declaration_duplicate sema_variable_declaration_extern_init : Error
  sema_variable_declaration_extern_mismatch sema_variable_declaration_filescope_duplicate : Error
  sema_variable_declaration_filescope_init sema_variable_declaration_filescope_linkage : Error
  sema_variable_declaration_filescope_mismatch sema_variable_declaration_invalid_func : Error
  sema_variable_declaration_static_init sema_variable_declaration_type_conflict : Error
  sema_variable_usage_without_declaration symbol_alloc ctype_alloc : Error

pub data Result {ℓ} (A : Type ℓ) : Type ℓ where
  err : Error → Result A
  ok : A → Result A

abbrev pub guard : Bool → Error → Result (Unit {0})
guard false failure = err failure
guard true failure = ok tt

-- assert(holds)
abbrev pub assert : Bool → Result (Unit {0})
assert holds = guard holds assertion_failed

-- check(call), and what comes after it
infixl 5 ◌>>=◌
abbrev pub ◌>>=◌ {ℓ κ} : {A : Type ℓ} {B : Type κ} → Result A → (A → Result B) → Result B
err failure >>= rest = err failure
ok value >>= rest = rest value

infixl 5 ◌>>◌
abbrev pub ◌>>◌ {κ} : {B : Type κ} → Result (Unit {0}) → Result B → Result B
err failure >> rest = err failure
ok value >> rest = rest

-- The call returns, and its value meets `P`.
abbrev pub Returns {ℓ} : {A : Type ℓ} → (A → Type 0) → Result A → Type 0
Returns P (ok a) = P a
Returns P (err e) = ⊥

pub Returns-bind {ℓ κ} :
    {A : Type ℓ} {B : Type κ} (P : A → Type 0) (Q : B → Type 0) (m : Result A) (f : A → Result B)
    → Returns P m
    → ((a : A) → P a → Returns Q (f a))
    → Returns Q (m >>= f)
Returns-bind P Q (ok a) f h k = k a h
Returns-bind P Q (err e) f h k = absurd h

-- If the call returns, its value meets `P`.
abbrev pub Whenever {ℓ} : {A : Type ℓ} → (A → Type 0) → Result A → Type 0
Whenever P (err e) = Unit
Whenever P (ok a) = P a

pub Whenever-bind {ℓ κ} :
    {A : Type ℓ} {B : Type κ} (P : A → Type 0) (Q : B → Type 0) (r : Result A) (f : A → Result B)
    → Whenever P r
    → ((a : A) → P a → Whenever Q (f a))
    → Whenever Q (r >>= f)
Whenever-bind P Q (err e) f h k = tt
Whenever-bind P Q (ok a) f h k = k a h

pub Whenever-guard {ℓ} :
    {A : Type ℓ} (P : A → Type 0) (b : Bool) (e : Error) (r : Result A)
    → (b ≡ true → Whenever P r)
    → Whenever P (guard b e >> r)
Whenever-guard P false e r h = tt
Whenever-guard P true e r h = h refl

pub Returns-map {ℓ} :
    {A : Type ℓ} (P Q : A → Type 0) (m : Result A)
    → ((a : A) → P a → Q a)
    → Returns P m
    → Returns Q m
Returns-map P Q (ok a) f h = f a h
Returns-map P Q (err e) f h = h

-- A change `f` of the value commutes with the continuation `g` where it does so at every value.
pub >>=-commute {ℓ κ} :
    {A : Type ℓ} {B : Type κ} (r : Result A) (f : A → A) (g : A → Result B) (h : B → B)
    → ((a : A) → g (f a) ≡ (g a >>= λ b. ok (h b)))
    → ((r >>= λ a. ok (f a)) >>= g) ≡ ((r >>= g) >>= λ b. ok (h b))
>>=-commute (ok a) f g h e = e a
>>=-commute (err x) f g h e = refl

pub Whenever-if {ℓ} :
    {A : Type ℓ} (P : A → Type 0) (b : Bool) (r s : Result A)
    → Whenever P r
    → Whenever P s
    → Whenever P (if b then r else s)
Whenever-if P true r s h k = h
Whenever-if P false r s h k = k

pub Whenever-trivial {ℓ} : {A : Type ℓ} (r : Result A) → Whenever (λ a. Unit) r
Whenever-trivial (err e) = tt
Whenever-trivial (ok a) = tt

pub Whenever-ok {ℓ} :
    {A : Type ℓ} (P : A → Type 0) (r : Result A) (a : A) → r ≡ ok a → Whenever P r → P a
Whenever-ok P r a e h = subst (Whenever P) e h

pub Whenever-both {ℓ} :
    {A : Type ℓ} (P Q : A → Type 0) (r : Result A)
    → Whenever P r
    → Whenever Q r
    → Whenever (λ a. P a × Q a) r
Whenever-both P Q (err e) p q = tt
Whenever-both P Q (ok a) p q = (p, q)

-- The errors that a call may end with: those it reports, as against a failing assertion, what C
-- leaves undefined and the end of the fuel; a read past the end only where `overreads` holds.
abbrev pub is_reported : (overreads : Bool) → Error → Bool
is_reported overreads assertion_failed = false
is_reported overreads null_dereference = false
is_reported overreads signed_overflow = false
is_reported overreads out_of_bounds_read = overreads
is_reported overreads out_of_fuel = false
is_reported overreads _ = true

-- The call gives a value that meets `P`, or ends with such an error.
abbrev pub Ends {ℓ} : {A : Type ℓ} → Bool → (A → Type 0) → Result A → Type 0
Ends overreads P (ok a) = P a
Ends overreads P (err e) = is_reported overreads e ≡ true

pub Ends-bind {ℓ κ} :
    {A : Type ℓ} {B : Type κ} (o : Bool) (P : A → Type 0) (Q : B → Type 0) (r : Result A)
    (f : A → Result B)
    → Ends o P r
    → ((a : A) → P a → Ends o Q (f a))
    → Ends o Q (r >>= f)
Ends-bind o P Q (ok a) f h k = k a h
Ends-bind o P Q (err e) f h k = h

pub Ends-guard {ℓ} :
    {A : Type ℓ} (o : Bool) (P : A → Type 0) (b : Bool) (e : Error) (r : Result A)
    → is_reported o e ≡ true
    → Ends o P r
    → Ends o P (guard b e >> r)
Ends-guard o P false e r h k = h
Ends-guard o P true e r h k = k

pub Ends-if {ℓ} :
    {A : Type ℓ} (o : Bool) (P : A → Type 0) (b : Bool) (r s : Result A)
    → (b ≡ true → Ends o P r)
    → (b ≡ false → Ends o P s)
    → Ends o P (if b then r else s)
Ends-if o P true r s h k = h refl
Ends-if o P false r s h k = k refl

pub Ends-map {ℓ} :
    {A : Type ℓ} (o : Bool) (P Q : A → Type 0) (r : Result A)
    → ((a : A) → P a → Q a)
    → Ends o P r
    → Ends o Q r
Ends-map o P Q (ok a) f h = f a h
Ends-map o P Q (err e) f h = h
