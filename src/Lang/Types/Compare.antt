-- ===== src/Lang/Types/Compare.antt =====
-- lang/types.c: get_common_ctype, ctype_is_equal and the decay of arrays.
use enqcc.Base.{
  Bool, true, false, not, ◌&&◌, ◌||◌, leb, ◌==◌, if◌then◌else◌, Result, ok, err, ◌>>=◌,
  assertion_failed, null_dereference,
}
use enqcc.Lang.Types.{
  TypeTag, array_of, pointer_to, rank, tag_eq, Ctype, plain, referring, tag, sz, ctype_is_array,
  ctype_is_pointer,
}

-- Which of its arguments get_common_ctype returns: it compares pointers to tell.
pub data Side : Type 0 where
  left right : Side

abbrev pub both_pointers : TypeTag → TypeTag → Bool
both_pointers t u = tag_eq t pointer_to && tag_eq u pointer_to

abbrev pub higher : TypeTag → TypeTag → Side
higher t u = if leb (rank u) (rank t) then left else right

-- A pointer without a referent fails the assertion of the call for the referents.
unfoldable pub common_side : Ctype → Ctype → Result Side
common_side (referring t b c n) (referring u b' d m) =
    let inner = common_side c d in if both_pointers t u then inner else ok (higher t u)
common_side l r =
    if both_pointers (tag l) (tag r) then err assertion_failed else ok (higher (tag l) (tag r))

abbrev pub take_side : Side → Ctype → Ctype → Ctype
take_side left l r = l
take_side right l r = r

unfoldable pub get_common_ctype : Ctype → Ctype → Result Ctype
get_common_ctype l r = do s ← common_side l r; ok (take_side s l r)

-- The three tests before the referents: different array sizes, the decay of an array that meets
-- an array or a pointer, and different tags.
pub data Verdict : Type 0 where
  unequal decays compares : Verdict

abbrev pub array_meets_pointer : Ctype → Ctype → Bool
array_meets_pointer l r =
    ctype_is_array l && ctype_is_pointer r || ctype_is_pointer l && ctype_is_array r

unfoldable pub first_tests : Ctype → Ctype → Bool → Verdict
first_tests l r array_to_pointer_decay =
    if ctype_is_array l && ctype_is_array r && not (sz l == sz r)
    then unequal
    else if array_meets_pointer l r && array_to_pointer_decay
    then decays
    else if not (tag_eq (tag l) (tag r))
    then unequal
    else compares

-- The outcome, given that of the referents with and without decay.
abbrev pub settle : Verdict → Result Bool → Result Bool → Result Bool
settle unequal after_decay referents = ok false
settle decays after_decay referents = after_decay
settle compares after_decay referents = referents

unfoldable pub ctype_is_equal_impl : Ctype → Ctype → Bool → Result Bool
ctype_is_equal_impl (referring t b c n) (referring u b' d m) decay =
    settle (first_tests (referring t b c n) (referring u b' d m) decay)
      (ctype_is_equal_impl c d true) (ctype_is_equal_impl c d false)
ctype_is_equal_impl (plain t b n) (plain u b' m) decay =
    settle (first_tests (plain t b n) (plain u b' m) decay) (err null_dereference) (ok true)
ctype_is_equal_impl l r decay = settle (first_tests l r decay) (err null_dereference) (ok false)

unfoldable pub ctype_is_equal : Ctype → Ctype → Result Bool
ctype_is_equal l r = ctype_is_equal_impl l r true

unfoldable pub ctype_array_decay_to_pointer : Ctype → Ctype
ctype_array_decay_to_pointer (plain t b n) =
    if tag_eq t array_of then plain pointer_to false 0 else plain t b n
ctype_array_decay_to_pointer (referring t b c n) =
    if tag_eq t array_of then referring pointer_to false c 0 else referring t b c n

-- A type as the compiler builds it: pointers and arrays, and only they, refer to another type.
abbrev pub refers : TypeTag → Bool
refers t = tag_eq t pointer_to || tag_eq t array_of

unfoldable pub is_formed : Ctype → Bool
is_formed (plain t b n) = not (refers t)
is_formed (referring t b c n) = refers t && is_formed c
