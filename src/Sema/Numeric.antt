-- ===== src/Sema/Numeric.antt =====
-- passes/sema.c: map_numeric_type_scalar, which turns a constant into the bytes of an initializer.
-- The conversions between integers and doubles, on bit patterns, are C's, and so parameters.
pub mod Modulo
use enqcc.Base.{
  ℕ, ◌%◌, Bool, true, false, not, ◌&&◌, ltb, if◌then◌else◌, ℤ, pos, negsuc, Result, ok, err, ◌>>=◌,
  ◌>>◌, assert, assertion_failed,
}
use enqcc.Lang.Types.{
  TypeTag, void, char, signed_char, unsigned_char, int, unsigned_int, long, unsigned_long, double,
  array_of, pointer_to, tag_eq, Ctype, tag, ctype_is_array, ctype_to_size_bytes,
}
use enqcc.Lang.Constant.{ConstantBytes, u64_mod}

-- A NODE_CONSTANT: the tag of its type, and the union member that belongs to it.
pub record Constant : Type 0 where
  pub expr_tag : TypeTag
  pub num : ℤ
  pub double_bits : ℕ

abbrev pub int_to_char_truncator : ℕ
int_to_char_truncator = 256

abbrev pub long_to_int_truncator : ℕ
long_to_int_truncator = 4294967296

-- The largest value that is kept as it is, by the type: CHAR_MAX, SCHAR_MAX and UCHAR_MAX.
unfoldable pub truncate_to_char : TypeTag → ℕ → ℕ
truncate_to_char char x = if ltb 127 x then x % int_to_char_truncator else x
truncate_to_char signed_char x = if ltb 127 x then x % int_to_char_truncator else x
truncate_to_char unsigned_char x = if ltb 255 x then x % int_to_char_truncator else x
truncate_to_char _ x = x

-- INT_MAX and UINT_MAX
unfoldable pub truncate_to_int : TypeTag → ℕ → ℕ
truncate_to_int int x = if ltb 2147483647 x then x % long_to_int_truncator else x
truncate_to_int unsigned_int x = if ltb 4294967295 x then x % long_to_int_truncator else x
truncate_to_int _ x = x

-- What follows the first `switch`. A negative number is above none of the limits, and fails the
-- assertion; the assignment to byte_value is one to an unsigned number of 64 bits.
unfoldable pub byte_value_of : TypeTag → ℤ → Result ℕ
byte_value_of t (pos x) = ok (truncate_to_int t (truncate_to_char t x) % u64_mod)
byte_value_of t (negsuc x) = err assertion_failed

module _ (double_of_int : ℤ → ℕ) (int_of_double : ℕ → ℤ) where
  -- The bits of the constant as a double.
  unfoldable pub as_double : Constant → Result ℕ
  as_double a = elim a.expr_tag [
    | double ↦ ok a.double_bits
    | array_of ↦ err assertion_failed
    | void ↦ err assertion_failed
    | _ ↦ ok (double_of_int a.num)
  ]

  -- The constant as an integer.
  unfoldable pub as_integer : Constant → Result ℤ
  as_integer a = elim a.expr_tag [
    | double ↦ ok (int_of_double a.double_bits)
    | array_of ↦ err assertion_failed
    | void ↦ err assertion_failed
    | _ ↦ ok a.num
  ]

  -- `unique` is what zalloc left.
  unfoldable pub map_numeric_type_scalar : Constant → Ctype → Result ConstantBytes
  map_numeric_type_scalar a dst_type = do
    assert (not (ctype_is_array dst_type))
    byte_count ← ctype_to_size_bytes dst_type
    byte_value ←
        (if tag_eq (tag dst_type) double
          then as_double a
          else (do x ← as_integer a; byte_value_of (tag dst_type) x))
    ok (record { byte_count = byte_count; byte_value = byte_value; unique = 0 })
