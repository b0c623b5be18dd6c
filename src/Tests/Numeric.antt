-- ===== src/Tests/Numeric.antt =====
-- Constants of passes/sema.c that are too large for their type.
use enqcc.Base.{ℕ, ◌≡◌, ◌^◌, ◌*◌, ◌%◌, refl, false, ℤ, pos, negsuc, ok, err, assertion_failed}
use enqcc.Lang.Types.{plain, long, unsigned_char, int, scalar_bytes, ctype_to_size_bytes}
use enqcc.Sema.Numeric.{
  Constant, as_integer, byte_value_of, truncate_to_char, truncate_to_int, map_numeric_type_scalar,
}
use enqcc.Sema.Numeric.Modulo.{map_numeric_type_scalar-mod}

-- Stand-ins for the conversions of C: the sign is lost, and the bits are the number.
abbrev magnitude : ℤ → ℕ
magnitude (pos n) = n
magnitude (negsuc n) = n

abbrev long_constant : ℕ → Constant
long_constant n = record { expr_tag = long; num = pos n; double_bits = 0 }

truncated_300 :
    map_numeric_type_scalar magnitude pos (long_constant 300) (plain unsigned_char false 0)
    ≡ ok (record { byte_count = 1; byte_value = 44; unique = 0 })
unfolding map_numeric_type_scalar as_integer byte_value_of truncate_to_char truncate_to_int
    ctype_to_size_bytes
truncated_300 = refl

negative_refused :
    map_numeric_type_scalar magnitude pos
      (record (long_constant 0) { num = negsuc 0 })
      (plain int false 0)
    ≡ err assertion_failed
unfolding map_numeric_type_scalar as_integer byte_value_of ctype_to_size_bytes
negative_refused = refl

map_numeric_type_scalar-mod_example :
    map_numeric_type_scalar magnitude pos (long_constant 4294967297) (plain int false 0)
    ≡ ok (record {
      byte_count = scalar_bytes int;
      byte_value = 4294967297 % 2 ^ (8 * scalar_bytes int);
      unique = 0;
    })
map_numeric_type_scalar-mod_example =
    map_numeric_type_scalar-mod magnitude pos (long_constant 4294967297) (plain int false 0)
      4294967297 refl refl refl
