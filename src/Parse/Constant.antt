-- ===== src/Parse/Constant.antt =====
-- passes/parse/constant.c: the type and the value of a constant. strtoull and strtod are parameters,
-- which give none where they set errno (ERANGE apart for strtod); they are given the token's text.
-- Doubles are given by their bits.
pub mod Fit
use enqcc.Base.{
  ℕ, ℤ, pos, negsuc, ◌-◌, Bool, true, false, ◌&&◌, ◌||◌, not, List, [], ◌∷◌, ltb, leb, ◌==◌,
  if◌then◌else◌, Option, none, some, Result, ok, err, ◌>>=◌, ◌>>◌, assert, guard, assertion_failed,
  null_dereference, parse_constant_strtod, parse_constant_strtoull, parse_constant_too_large,
}
use enqcc.Lang.Types.{
  TypeTag, char, signed_char, int, unsigned_int, long, unsigned_long, double, Ctype, plain,
}
use enqcc.Lex.Chars.{toupper, decimal_point, e_notation_char}
use enqcc.Lex.Tokens.{TokenType, Token, constant, constant_char}

-- The union member of a NODE_CONSTANT.
pub data Value : Type 0 where
  num : ℤ → Value
  double_ : ℕ → Value

-- A NODE_CONSTANT: its type, and its value.
pub record ConstantNode : Type 0 where
  pub expr_type : Ctype
  pub value : Value

abbrev pub can_parse_constant : TokenType → Bool
can_parse_constant constant = true
can_parse_constant constant_char = true
can_parse_constant _ = false

-- memchr(val->data, c, val->sz) is not NULL
unfoldable pub memchr : List ℕ → ℕ → Bool
memchr [] c = false
memchr (b ∷ val) c = b == c || memchr val c

abbrev pub is_constant_maybe_double : List ℕ → Bool
is_constant_maybe_double val =
    memchr val decimal_point || (memchr val e_notation_char || memchr val b'e')

abbrev pub int_max : ℕ
int_max = 2147483647

abbrev pub uint_max : ℕ
uint_max = 4294967295

abbrev pub long_max : ℕ
long_max = 9223372036854775807

abbrev pub ulong_max : ℕ
ulong_max = 18446744073709551615

-- The value of a `char`, which is signed.
abbrev pub char_value : ℕ → ℤ
char_value b = if leb b 127 then pos b else negsuc (255 - b)

-- Whether one of the last two bytes is the letter, in either case; no byte of a text of one is looked at.
unfoldable pub has_suffix : ℕ → List ℕ → Bool
has_suffix letter [] = false
has_suffix letter (a ∷ []) = false
has_suffix letter (a ∷ b ∷ []) = toupper a == letter || toupper b == letter
has_suffix letter (a ∷ b ∷ c ∷ val) = has_suffix letter (b ∷ c ∷ val)

-- The type of an integer constant, and `too_large`.
unfoldable pub integer_type : (suffix_unsigned suffix_long : Bool) → ℕ → Result (TypeTag × Bool)
integer_type suffix_unsigned suffix_long tmp =
    if suffix_unsigned && (ltb uint_max tmp || suffix_long)
    then ok (unsigned_long, ltb ulong_max tmp)
    else if suffix_unsigned
    then (do assert (leb tmp uint_max); ok (unsigned_int, false))
    else if ltb int_max tmp || suffix_long
    then ok (long, ltb long_max tmp)
    else (do assert (leb tmp int_max); ok (int, false))

unfoldable pub parse_char : List ℕ → Result ConstantNode
parse_char (b ∷ []) = ok (record { expr_type = plain int false 0; value = num (char_value b) })
parse_char _ = err assertion_failed

-- The branches for doubles and for integers, by what strtod and strtoull give.
unfoldable pub double_constant : Option ℕ → Result ConstantNode
double_constant none = err parse_constant_strtod
double_constant (some tmp) = ok (record { expr_type = plain double false 0; value = double_ tmp })

unfoldable pub integer_constant :
    (suffix_unsigned suffix_long : Bool) → Option ℕ → Result ConstantNode
integer_constant suffix_unsigned suffix_long none = err parse_constant_strtoull
integer_constant suffix_unsigned suffix_long (some tmp) = do
  (t, too_large) ← integer_type suffix_unsigned suffix_long tmp
  guard (not too_large) parse_constant_too_large
  ok (record { expr_type = plain t (tmp == 0) 0; value = num (pos tmp) })

module _ (strtoull strtod : List ℕ → Option ℕ) where
  -- The constant of a token.
  unfoldable pub node_of_constant : Token → Result ConstantNode
  unfolding parse_char double_constant integer_constant integer_type has_suffix memchr
  node_of_constant tok = elim tok.token_type [
    | constant_char ↦ parse_char tok.val
    | constant ↦
        if is_constant_maybe_double tok.val
        then double_constant (strtod tok.val)
        else integer_constant (has_suffix b'U' tok.val) (has_suffix b'L' tok.val) (strtoull tok.val)
    | _ ↦ err assertion_failed
  ]

  -- The constant, and the tokens behind it.
  unfoldable pub parse_constant : List Token → Result (ConstantNode × List Token)
  unfolding node_of_constant
  parse_constant [] = err null_dereference
  parse_constant (tok ∷ toks) = do a ← node_of_constant tok; ok (a, toks)
