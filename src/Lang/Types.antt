-- ===== src/Lang/Types.antt =====
-- lang/types.h and lang/types.c: the types of C, and the tests on them.
pub mod Compare
pub mod Equality
pub mod Common
pub mod Size
use enqcc.Base.{
  ℕ, ◌*◌, Bool, true, false, not, ◌&&◌, ◌||◌, leb, ltb, ◌==◌, if◌then◌else◌, Result, ok, err, ◌>>=◌,
  ◌>>◌, assert, guard, null_dereference, signed_overflow,
}

pub data TypeTag : Type 0 where
  char signed_char unsigned_char int unsigned_int long unsigned_long double : TypeTag
  array_of pointer_to void : TypeTag

-- The order of the enumeration is the integer conversion rank.
abbrev pub rank : TypeTag → ℕ
rank char = 0
rank signed_char = 1
rank unsigned_char = 2
rank int = 3
rank unsigned_int = 4
rank long = 5
rank unsigned_long = 6
rank double = 7
rank array_of = 8
rank pointer_to = 9
rank void = 10

abbrev pub tag_eq : TypeTag → TypeTag → Bool
tag_eq t u = rank t == rank u

-- struct ctype: `plain` with a NULL referent, `referring` with one; then the fields t,
-- maybe_null_pointer_constant, referent and sz.
pub data Ctype : Type 0 where
  plain : TypeTag → Bool → ℕ → Ctype
  referring : TypeTag → Bool → Ctype → ℕ → Ctype

abbrev pub tag : Ctype → TypeTag
tag (plain t b n) = t
tag (referring t b c n) = t

abbrev pub sz : Ctype → ℕ
sz (plain t b n) = n
sz (referring t b c n) = n

abbrev pub maybe_null_pointer_constant : Ctype → Bool
maybe_null_pointer_constant (plain t b n) = b
maybe_null_pointer_constant (referring t b c n) = b

-- c->referent, where the source goes through it
unfoldable pub referent : Ctype → Result Ctype
referent (plain t b n) = err null_dereference
referent (referring t b c n) = ok c

abbrev pub llong_max : ℕ
llong_max = 9223372036854775807

-- The sizes of all types but arrays.
abbrev pub scalar_bytes : TypeTag → ℕ
scalar_bytes void = 0
scalar_bytes char = 1
scalar_bytes signed_char = 1
scalar_bytes unsigned_char = 1
scalar_bytes int = 4
scalar_bytes unsigned_int = 4
scalar_bytes long = 8
scalar_bytes unsigned_long = 8
scalar_bytes double = 8
scalar_bytes pointer_to = 8
scalar_bytes array_of = 0

abbrev pub is_array_tag : TypeTag → Bool
is_array_tag array_of = true
is_array_tag _ = false

-- The product of the size of an array is a signed 64-bit one.
unfoldable pub array_bytes : ℕ → ℕ → Result ℕ
array_bytes n b = do guard (leb (n * b) llong_max) signed_overflow; ok (n * b)

unfoldable pub ctype_to_size_bytes : Ctype → Result ℕ
unfolding array_bytes
ctype_to_size_bytes (plain t b n) =
    if is_array_tag t
    then (do assert (ltb 0 n && ltb n llong_max); err null_dereference)
    else ok (scalar_bytes t)
ctype_to_size_bytes (referring t b c n) =
    let inner = ctype_to_size_bytes c in
    if is_array_tag t
    then (do assert (ltb 0 n && ltb n llong_max); bytes ← inner; array_bytes n bytes)
    else ok (scalar_bytes t)

abbrev pub is_integer_tag : TypeTag → Bool
is_integer_tag char = true
is_integer_tag signed_char = true
is_integer_tag unsigned_char = true
is_integer_tag int = true
is_integer_tag unsigned_int = true
is_integer_tag long = true
is_integer_tag unsigned_long = true
is_integer_tag void = false
is_integer_tag double = false
is_integer_tag pointer_to = false
is_integer_tag array_of = false

abbrev pub ctype_is_integer : Ctype → Bool
ctype_is_integer c = is_integer_tag (tag c)

abbrev pub is_signed_tag : TypeTag → Bool
is_signed_tag char = true
is_signed_tag signed_char = true
is_signed_tag int = true
is_signed_tag long = true
is_signed_tag double = true
is_signed_tag void = false
is_signed_tag unsigned_char = false
is_signed_tag unsigned_int = false
is_signed_tag unsigned_long = false
is_signed_tag pointer_to = false
is_signed_tag array_of = false

abbrev pub ctype_is_signed : Ctype → Bool
ctype_is_signed c = is_signed_tag (tag c)

abbrev pub ctype_is_floating_point : Ctype → Bool
ctype_is_floating_point c = tag_eq (tag c) double

abbrev pub is_charlike_tag : TypeTag → Bool
is_charlike_tag char = true
is_charlike_tag signed_char = true
is_charlike_tag unsigned_char = true
is_charlike_tag _ = false

abbrev pub ctype_is_charlike : Ctype → Bool
ctype_is_charlike c = is_charlike_tag (tag c)

abbrev pub ctype_is_array : Ctype → Bool
ctype_is_array c = tag_eq (tag c) array_of

-- An array counts as a pointer.
abbrev pub ctype_is_pointer : Ctype → Bool
ctype_is_pointer c = tag_eq (tag c) pointer_to || ctype_is_array c

-- `a && b` where `b` may fault
abbrev pub and_then : Bool → Result Bool → Result Bool
and_then true b = b
and_then false b = ok false

unfoldable pub ctype_is_strlike_array : Ctype → Result Bool
unfolding referent
ctype_is_strlike_array c =
    and_then (tag_eq (tag c) array_of) (do r ← referent c; ok (ctype_is_charlike r))

unfoldable pub ctype_is_strlike_ptr : Ctype → Result Bool
unfolding referent
ctype_is_strlike_ptr c =
    and_then (tag_eq (tag c) pointer_to) (do r ← referent c; ok (tag_eq (tag r) char))

abbrev pub ctype_is_void : Ctype → Bool
ctype_is_void c = tag_eq (tag c) void

unfoldable pub ctype_is_void_ptr : Ctype → Result Bool
unfolding referent
ctype_is_void_ptr c = and_then (tag_eq (tag c) pointer_to) (do r ← referent c; ok (ctype_is_void r))

abbrev pub ctype_is_incomplete : Ctype → Bool
ctype_is_incomplete c = ctype_is_void c

abbrev pub ctype_nullptr_ish : Ctype → Bool
ctype_nullptr_ish c = maybe_null_pointer_constant c
