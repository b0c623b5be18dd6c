-- ===== src/Lang/Types/Size.antt =====
-- ctype_to_size_bytes of lang/types.c.
use enqcc.Base.{ℕ, ◌≡◌, ◌≤◌, ◌<◌, ◌*◌, Bool, true, not, ◌&&◌, ltb, if◌then◌else◌, ok, arith}
use enqcc.Lang.Types.{
  Ctype, plain, referring, scalar_bytes, ctype_to_size_bytes, llong_max, is_array_tag,
}
use enqcc.Lang.Types.Compare.{refers}

-- The type has a size: every array in it, down to the first pointer, has elements, fewer than
-- LLONG_MAX, and ends in a type other than void.
unfoldable pub is_complete : Ctype → Bool
is_complete (plain t b n) = not (refers t) && ltb 0 (scalar_bytes t)
is_complete (referring t b c n) =
    let inner = is_complete c in
    if is_array_tag t then ltb 0 n && ltb n llong_max && inner else refers t

-- The bytes of a type, with no limit on them.
unfoldable pub total_bytes : Ctype → ℕ
total_bytes (plain t b n) = scalar_bytes t
total_bytes (referring t b c n) =
    let inner = total_bytes c in if is_array_tag t then n * inner else scalar_bytes t

pub product_bounds : (n m : ℕ) → 0 < n → 0 < m → (0 < n * m) × (m ≤ n * m)
product_bounds n m p q = (grind arith, grind arith)

pub total_bytes_positive : (c : Ctype) → is_complete c ≡ true → 0 < total_bytes c
unfolding total_bytes is_complete
total_bytes_positive (plain t b n) h = ground arith
total_bytes_positive (referring t b c n) h =
    ground (arith, total_bytes_positive c, product_bounds n (total_bytes c))

-- A complete type of at most LLONG_MAX bytes has a size, and it is not 0: for an array the elements
-- times the size of one.
pub ctype_to_size_bytes-total :
    (c : Ctype)
    → is_complete c ≡ true
    → total_bytes c ≤ llong_max
    → (ctype_to_size_bytes c ≡ ok (total_bytes c)) × (0 < total_bytes c)
unfolding ctype_to_size_bytes total_bytes is_complete
ctype_to_size_bytes-total (plain t b n) h small = ground arith
ctype_to_size_bytes-total (referring t b c n) h small =
    ground
      (arith, total_bytes_positive c, product_bounds n (total_bytes c), ctype_to_size_bytes-total c)
