-- ===== src/Sema/Numeric/Modulo.antt =====
-- map_numeric_type_scalar of passes/sema.c between integer types.
use enqcc.Base.{ℕ, ◌^◌, ◌*◌, ◌%◌, ◌≡◌, true, ok, pos, ℤ, arith}
use enqcc.Lang.Types.{
  TypeTag, Ctype, plain, referring, tag, is_integer_tag, ctype_is_integer, scalar_bytes,
  ctype_to_size_bytes,
}
use enqcc.Sema.Numeric.{
  Constant, truncate_to_char, truncate_to_int, byte_value_of, as_integer, map_numeric_type_scalar,
}

-- Truncation for each type.
byte_value_mod :
    (t : TypeTag) (x : ℕ)
    → is_integer_tag t ≡ true
    → byte_value_of t (pos x) ≡ ok (x % 2 ^ (8 * scalar_bytes t))
unfolding byte_value_of truncate_to_char truncate_to_int
byte_value_mod t x h = ground arith

module _ (double_of_int : ℤ → ℕ) (int_of_double : ℕ → ℤ) where
  -- A constant of an integer type, not negative, becomes an initializer of another integer type:
  -- as many bytes as that type has, with the number modulo their range.
  pub map_numeric_type_scalar-mod :
      (a : Constant) (dst_type : Ctype) (n : ℕ)
      → is_integer_tag a.expr_tag ≡ true
      → ctype_is_integer dst_type ≡ true
      → a.num ≡ pos n
      → map_numeric_type_scalar double_of_int int_of_double a dst_type
        ≡ ok (record {
          byte_count = scalar_bytes (tag dst_type);
          byte_value = n % 2 ^ (8 * scalar_bytes (tag dst_type));
          unique = 0;
        })
  unfolding map_numeric_type_scalar as_integer ctype_to_size_bytes
  map_numeric_type_scalar-mod a (plain t b k) n ha hd e = ground (arith, byte_value_mod t n)
  map_numeric_type_scalar-mod a (referring t b c k) n ha hd e = ground (arith, byte_value_mod t n)
