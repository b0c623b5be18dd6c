-- ===== src/Lang/Constant.antt =====
-- lang/symbol.c: constant initializers. An initializer is the list of its elements, whose number is
-- its `count`; `unsigned long long` wraps at 2 ^ 64.
pub mod Zero
use enqcc.Base.{
  ℕ, zero, suc, ◌+◌, ◌*◌, ◌%◌, ◌≡◌, ◌≤◌, ◌<◌, refl, Bool, true, false, ◌&&◌, ◌||◌, not, List, [],
  ◌∷◌, ltb, leb, ◌==◌, if◌then◌else◌, length, Result, ok, ◌>>=◌, ◌>>◌, err, assert,
  null_dereference, arith, Bool-cases, inl, inr,
}
use enqcc.Lang.Types.{
  Ctype, plain, referring, array_of, is_array_tag, ctype_to_size_bytes, scalar_bytes, llong_max,
}
use enqcc.Lang.Types.Size.{is_complete, total_bytes, ctype_to_size_bytes-total}

pub record ConstantBytes : Type 0 where
  pub byte_count : ℕ
  pub byte_value : ℕ
  pub unique : ℕ

abbrev pub u64_mod : ℕ
u64_mod = 18446744073709551616

unfoldable pub get_initializer_element_count : Ctype → Result ℕ
get_initializer_element_count (plain t b n) = if is_array_tag t then err null_dereference else ok 1
get_initializer_element_count (referring t b c n) =
    let inner = get_initializer_element_count c in
    if is_array_tag t then (do k ← inner; ok (n * k % u64_mod)) else ok 1

unfoldable pub get_initializer_element_size_bytes : Ctype → Result ℕ
get_initializer_element_size_bytes (plain t b n) =
    if is_array_tag t then err null_dereference else ctype_to_size_bytes (plain t b n)
get_initializer_element_size_bytes (referring t b c n) =
    let inner = get_initializer_element_size_bytes c in
    if is_array_tag t then inner else ctype_to_size_bytes (referring t b c n)

abbrev pub replicate {ℓ} : {A : Type ℓ} → ℕ → A → List A
replicate zero a = []
replicate (suc n) a = a ∷ replicate n a

-- constant_set_zero, and constant_make_zero on an initializer of its own
unfoldable pub constant_set_zero : Ctype → Result (List ConstantBytes)
constant_set_zero c89type = do
  count ← get_initializer_element_count c89type
  element_size_bytes ← get_initializer_element_size_bytes c89type
  ok (replicate count (record { byte_count = element_size_bytes; byte_value = 0; unique = 0 }))

-- The loop of constant_is_zero, and the function.
unfoldable pub all_zero : List ConstantBytes → Bool
all_zero [] = true
all_zero (e ∷ es) = e.byte_value == 0 && e.unique == 0 && all_zero es

unfoldable pub constant_is_zero : List ConstantBytes → Result Bool
unfolding all_zero
constant_is_zero elements = do assert (ltb 0 (length elements)); ok (all_zero elements)

unfoldable pub byte_count_from : ℕ → List ConstantBytes → ℕ
byte_count_from count [] = count
byte_count_from count (e ∷ es) = byte_count_from ((count + e.byte_count) % u64_mod) es

unfoldable pub constant_byte_count : List ConstantBytes → ℕ
unfolding byte_count_from
constant_byte_count elements = byte_count_from 0 elements
