-- ===== src/Tests/Types.antt =====
-- The types of lang/types.c, their initializers and their specifiers, at small examples.
use enqcc.Base.{
  ◌≡◌, ◌≢◌, ◌≤◌, ◌<◌, ◌⊎◌, refl, Bool, true, false, max, List, ok, err, assertion_failed, arith,
}
use enqcc.Lang.Types.{
  Ctype, plain, referring, int, unsigned_long, array_of, pointer_to, tag, rank, scalar_bytes,
  ctype_to_size_bytes, array_bytes,
}
use enqcc.Lang.Types.Compare.{
  is_formed, get_common_ctype, ctype_is_equal, ctype_array_decay_to_pointer,
}
use enqcc.Lang.Types.Equality.{
  ctype_is_equal_comm, ctype_is_equal-total, ctype_is_equal-decay, ctype_is_equal-nested,
}
use enqcc.Lang.Types.Common.{get_common_ctype-integer}
use enqcc.Lang.Types.Size.{is_complete, total_bytes, ctype_to_size_bytes-total}
use enqcc.Lang.Constant.{ConstantBytes, constant_set_zero, constant_byte_count, constant_is_zero}
use enqcc.Lang.Constant.Zero.{constant_set_zero-bytes}
use enqcc.Parse.Specifiers.{BasicTypeState, zero_state, parse_basic_type_finalize}
use enqcc.Parse.Specifiers.Table.{
  Spells-parse_basic_type_finalize, parse_basic_type_finalize-ne-assertion,
}

abbrev c_int : Ctype
c_int = plain int false 0

abbrev c_unsigned_long : Ctype
c_unsigned_long = plain unsigned_long false 0

-- int[2][3]
abbrev matrix : Ctype
matrix = referring array_of false (referring array_of false c_int 3) 2

-- int (*)[3]
abbrev row_pointer : Ctype
row_pointer = referring pointer_to false (referring array_of false c_int 3) 0

matrix_formed : is_formed matrix ≡ true
unfolding is_formed
matrix_formed = refl

row_pointer_formed : is_formed row_pointer ≡ true
unfolding is_formed
row_pointer_formed = refl

int_formed : is_formed c_int ≡ true
unfolding is_formed
int_formed = refl

ctype_is_equal_comm_example : ctype_is_equal matrix row_pointer ≡ ctype_is_equal row_pointer matrix
ctype_is_equal_comm_example = ctype_is_equal_comm matrix row_pointer

ctype_is_equal-total_example : (b : Bool) × (ctype_is_equal matrix row_pointer ≡ ok b)
ctype_is_equal-total_example =
    ctype_is_equal-total matrix row_pointer matrix_formed row_pointer_formed

ctype_is_equal-decay_example :
    (ctype_is_equal matrix matrix ≡ ok true)
    × (ctype_is_equal matrix (ctype_array_decay_to_pointer matrix) ≡ ok true)
ctype_is_equal-decay_example = ctype_is_equal-decay matrix matrix_formed

ctype_is_equal-nested_example :
    ctype_is_equal (referring pointer_to false (referring pointer_to false c_int 0) 0) matrix
    ≡ ok true
ctype_is_equal-nested_example =
    ctype_is_equal-nested c_int false false false false 2 3 0 0 int_formed

get_common_ctype-integer_example :
    (c : Ctype) × (get_common_ctype c_int c_unsigned_long ≡ ok c)
    × ((c ≡ c_int) ⊎ (c ≡ c_unsigned_long))
    × (rank (tag c) ≡ max (rank int) (rank unsigned_long))
    × (scalar_bytes (tag c) ≡ max (scalar_bytes int) (scalar_bytes unsigned_long))
get_common_ctype-integer_example = get_common_ctype-integer c_int c_unsigned_long refl refl

matrix_complete : is_complete matrix ≡ true
unfolding is_complete
matrix_complete = refl

matrix_small : total_bytes matrix ≤ 9223372036854775807
unfolding total_bytes
matrix_small = omega arith

ctype_to_size_bytes-total_example :
    (ctype_to_size_bytes matrix ≡ ok (total_bytes matrix)) × (0 < total_bytes matrix)
ctype_to_size_bytes-total_example = ctype_to_size_bytes-total matrix matrix_complete matrix_small

matrix_bytes : ctype_to_size_bytes matrix ≡ ok 24
unfolding ctype_to_size_bytes array_bytes
matrix_bytes = refl

constant_set_zero-bytes_example :
    (ci : List ConstantBytes) × (constant_set_zero matrix ≡ ok ci)
    × (ctype_to_size_bytes matrix ≡ ok (constant_byte_count ci))
    × (constant_is_zero ci ≡ ok true)
constant_set_zero-bytes_example = constant_set_zero-bytes matrix matrix_complete matrix_small

-- long unsigned int
abbrev long_unsigned_int : BasicTypeState
long_unsigned_int = record zero_state { n_long = 1; n_unsigned = 1; n_int = 1 }

Spells-parse_basic_type_finalize_example :
    parse_basic_type_finalize long_unsigned_int ≡ ok unsigned_long
Spells-parse_basic_type_finalize_example =
    Spells-parse_basic_type_finalize unsigned_long long_unsigned_int
      ((refl, refl, refl), (refl, refl, omega arith, omega arith))

parse_basic_type_finalize-ne-assertion_example :
    parse_basic_type_finalize long_unsigned_int ≢ err assertion_failed
parse_basic_type_finalize-ne-assertion_example =
    parse_basic_type_finalize-ne-assertion long_unsigned_int
