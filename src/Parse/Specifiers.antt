-- ===== src/Parse/Specifiers.antt =====
-- passes/parse/token.c and passes/parse/declaration.c: the specifiers in front of a declaration.
pub mod Table
pub mod Order
use enqcc.Base.{
  ℕ, ◌+◌, Bool, true, false, ◌&&◌, ◌||◌, not, List, [], ◌∷◌, ltb, ◌==◌, if◌then◌else◌, Result, ok,
  err, ◌>>=◌, ◌>>◌, assert, guard, assertion_failed, parse_decl_type_duplicate,
  parse_decl_expect_type, parse_decl_type_void_invalid, parse_decl_type_double_invalid,
  parse_decl_type_char_invalid, parse_decl_specifier_duplicate,
}
use enqcc.Lang.Types.{
  TypeTag, void, char, signed_char, unsigned_char, int, unsigned_int, long, unsigned_long, double,
}
use enqcc.Lex.Tokens.{
  TokenType, Token, keyword_void, keyword_char, keyword_int, keyword_long, keyword_signed,
  keyword_unsigned, keyword_double, keyword_static, keyword_extern,
}

pub data AstSpecifier : Type 0 where
  specifier_none specifier_static specifier_extern : AstSpecifier

pub record BasicTypeState : Type 0 where
  pub n_void : ℕ
  pub n_char : ℕ
  pub n_int : ℕ
  pub n_long : ℕ
  pub n_signed : ℕ
  pub n_unsigned : ℕ
  pub n_double : ℕ

abbrev pub is_token_variable_type : TokenType → Bool
is_token_variable_type keyword_void = true
is_token_variable_type keyword_char = true
is_token_variable_type keyword_int = true
is_token_variable_type keyword_long = true
is_token_variable_type keyword_signed = true
is_token_variable_type keyword_unsigned = true
is_token_variable_type keyword_double = true
is_token_variable_type _ = false

abbrev pub is_storage : TokenType → Bool
is_storage keyword_static = true
is_storage keyword_extern = true
is_storage _ = false

abbrev pub is_token_maybe_function_prefix : TokenType → Bool
is_token_maybe_function_prefix t = is_token_variable_type t || is_storage t

unfoldable pub parse_basic_type_accumulate : TokenType → BasicTypeState → BasicTypeState
parse_basic_type_accumulate keyword_void s = record s { n_void = s.n_void + 1 }
parse_basic_type_accumulate keyword_char s = record s { n_char = s.n_char + 1 }
parse_basic_type_accumulate keyword_int s = record s { n_int = s.n_int + 1 }
parse_basic_type_accumulate keyword_long s = record s { n_long = s.n_long + 1 }
parse_basic_type_accumulate keyword_signed s = record s { n_signed = s.n_signed + 1 }
parse_basic_type_accumulate keyword_unsigned s = record s { n_unsigned = s.n_unsigned + 1 }
parse_basic_type_accumulate keyword_double s = record s { n_double = s.n_double + 1 }
parse_basic_type_accumulate _ s = s

-- The `switch` on n_long at the end of parse_basic_type_finalize.
unfoldable pub finalize_integer : BasicTypeState → Result TypeTag
finalize_integer s =
    if s.n_long == 1
    then ok (if ltb 0 s.n_unsigned then unsigned_long else long)
    else if s.n_long == 0
    then (if ltb 0 s.n_unsigned
        then ok unsigned_int
        else (do assert (s.n_int == 1 || s.n_signed == 1); ok int))
    else err assertion_failed

-- Some specifier is there twice, or both of `signed` and `unsigned`.
abbrev pub has_duplicate : BasicTypeState → Bool
has_duplicate s =
    ltb 1 s.n_void
    || ltb 1 s.n_char
    || ltb 1 s.n_int
    || ltb 1 s.n_long
    || ltb 1 s.n_signed
    || ltb 1 s.n_unsigned
    || ltb 1 s.n_double
    || ltb 0 s.n_signed && ltb 0 s.n_unsigned

-- The branch for `char`.
unfoldable pub finalize_char : BasicTypeState → Result TypeTag
finalize_char s =
    if ltb 0 s.n_int || ltb 0 s.n_long
    then err parse_decl_type_char_invalid
    else ok (
        if ltb 0 s.n_unsigned
        then unsigned_char
        else if ltb 0 s.n_signed
        then signed_char
        else char)

-- What follows the tests for duplicates and for no specifier at all.
unfoldable pub finalize_groups : BasicTypeState → Result TypeTag
unfolding finalize_char finalize_integer
finalize_groups s =
    if ltb 0 s.n_void
    then (if ltb 0 (s.n_char + s.n_int + s.n_long + s.n_signed + s.n_unsigned + s.n_double)
        then err parse_decl_type_void_invalid
        else ok void)
    else if ltb 0 s.n_double
    then (if ltb 0 (s.n_char + s.n_int + s.n_long + s.n_signed + s.n_unsigned)
        then err parse_decl_type_double_invalid
        else ok double)
    else if ltb 0 s.n_char
    then finalize_char s
    else finalize_integer s

unfoldable pub parse_basic_type_finalize : BasicTypeState → Result TypeTag
unfolding finalize_groups
parse_basic_type_finalize s =
    if has_duplicate s
    then err parse_decl_type_duplicate
    else if s.n_void + s.n_char + s.n_int + s.n_long + s.n_signed + s.n_unsigned + s.n_double == 0
    then err parse_decl_expect_type
    else finalize_groups s

-- The state of the loop of parse_specifiers, less the token cursor.
pub record Scan : Type 0 where
  pub basic : BasicTypeState
  pub dst : AstSpecifier
  pub specifier_count : ℕ

unfoldable pub scan_token : TokenType → Scan → Scan
unfolding parse_basic_type_accumulate
scan_token keyword_static s = record s {
  dst = specifier_static;
  specifier_count = s.specifier_count + 1;
}
scan_token keyword_extern s = record s {
  dst = specifier_extern;
  specifier_count = s.specifier_count + 1;
}
scan_token t s = record s { basic = parse_basic_type_accumulate t s.basic }

-- The loop: the tokens that are left and the state.
unfoldable pub scan_specifiers : List Token → Scan → List Token × Scan
unfolding scan_token
scan_specifiers [] s = ([], s)
scan_specifiers (tok ∷ rest) s =
    let next = scan_specifiers rest (scan_token tok.token_type s) in
    if is_token_maybe_function_prefix tok.token_type then next else (tok ∷ rest, s)

-- What follows the loop.
unfoldable pub conclude : Scan → Result (AstSpecifier × TypeTag)
conclude s =
    if ltb 1 s.specifier_count
    then err parse_decl_specifier_duplicate
    else (do t ← parse_basic_type_finalize s.basic; ok (s.dst, t))

abbrev pub zero_state : BasicTypeState
zero_state = record {
  n_void = 0;
  n_char = 0;
  n_int = 0;
  n_long = 0;
  n_signed = 0;
  n_unsigned = 0;
  n_double = 0;
}

abbrev pub start_of : AstSpecifier → Scan
start_of dst = record { basic = zero_state; dst = dst; specifier_count = 0 }

unfoldable pub parse_specifiers :
    List Token → AstSpecifier → Result (AstSpecifier × TypeTag × List Token)
parse_specifiers toks dst = do
  let (rest, s) = scan_specifiers toks (start_of dst)
  (specifier, t) ← conclude s
  ok (specifier, t, rest)
