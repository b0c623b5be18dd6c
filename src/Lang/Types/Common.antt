-- ===== src/Lang/Types/Common.antt =====
-- get_common_ctype of lang/types.c on integer types.
use enqcc.Base.{ℕ, ◌≡◌, ◌⊎◌, ◌∙◌, inl, inr, refl, true, max, ok, arith}
use enqcc.Lang.Types.{
  TypeTag, rank, Ctype, plain, referring, tag, is_integer_tag, ctype_is_integer, scalar_bytes,
}
use enqcc.Lang.Types.Compare.{Side, left, right, higher, common_side, take_side, get_common_ctype}

common_side-integer :
    (l r : Ctype)
    → ctype_is_integer l ≡ true
    → ctype_is_integer r ≡ true
    → common_side l r ≡ ok (higher (tag l) (tag r))
unfolding common_side
common_side-integer (plain t b n) (plain u c m) hl hr = ground arith
common_side-integer (plain t b n) (referring u c d m) hl hr = ground arith
common_side-integer (referring t b a n) (plain u c m) hl hr = ground arith
common_side-integer (referring t b a n) (referring u c d m) hl hr = ground arith

side_of : (s : Side) (l r : Ctype) → (take_side s l r ≡ l) ⊎ (take_side s l r ≡ r)
side_of left l r = inl refl
side_of right l r = inr refl

tag-take_side :
    (s : Side) (f : TypeTag → ℕ) (l r : Ctype)
    → f (tag (take_side s l r)) ≡ elim s [ left ↦ f (tag l) | right ↦ f (tag r) ]
tag-take_side left f l r = refl
tag-take_side right f l r = refl

-- Among the integer types a higher rank is never a smaller size.
higher-max :
    (t u : TypeTag)
    → is_integer_tag t ≡ true
    → is_integer_tag u ≡ true
    → ((elim (higher t u) [ left ↦ rank t | right ↦ rank u ]) ≡ max (rank t) (rank u))
      × ((elim (higher t u) [ left ↦ scalar_bytes t | right ↦ scalar_bytes u ])
          ≡ max (scalar_bytes t) (scalar_bytes u))
higher-max t u ht hu = ground arith

-- The operand with the higher rank, which for two integers is also the wider of the two; a common
-- type is one of the two types, and the order of the operands does not change its tag.
pub get_common_ctype-integer :
    (l r : Ctype)
    → ctype_is_integer l ≡ true
    → ctype_is_integer r ≡ true
    → (c : Ctype) × (get_common_ctype l r ≡ ok c)
      × ((c ≡ l) ⊎ (c ≡ r))
      × (rank (tag c) ≡ max (rank (tag l)) (rank (tag r)))
      × (scalar_bytes (tag c) ≡ max (scalar_bytes (tag l)) (scalar_bytes (tag r)))
unfolding get_common_ctype
get_common_ctype-integer l r hl hr = (
  take_side (higher (tag l) (tag r)) l r,
  rw (common_side-integer l r hl hr),
  side_of (higher (tag l) (tag r)) l r,
  tag-take_side (higher (tag l) (tag r)) rank l r ∙ (higher-max (tag l) (tag r) hl hr).0,
  tag-take_side (higher (tag l) (tag r)) scalar_bytes l r ∙ (higher-max (tag l) (tag r) hl hr).1,
)
