-- ===== src/Lang/Constant/Zero.antt =====
-- constant_set_zero of lang/symbol.c: the bytes of a zero initializer.
use enqcc.Base.{
  ℕ, zero, suc, ◌+◌, ◌*◌, ◌%◌, ◌≡◌, ◌∙◌, ap, ◌≤◌, ◌<◌, refl, Bool, true, List, ltb, length, ok,
  arith, Bool-cases, inl, inr,
}
use native.Mathlib.Nat.{mul_assoc, le-mul_of_pos_right, mod-eq_of_lt}
use enqcc.Lang.Types.{
  TypeTag, Ctype, plain, referring, is_array_tag, ctype_to_size_bytes, llong_max,
}
use enqcc.Lang.Types.Size.{
  is_complete, total_bytes, total_bytes_positive, product_bounds, ctype_to_size_bytes-total,
}
use enqcc.Lang.Constant.{
  ConstantBytes, u64_mod, get_initializer_element_count, get_initializer_element_size_bytes,
  replicate, constant_set_zero, all_zero, constant_is_zero, byte_count_from, constant_byte_count,
}

-- The number of elements and their size, where neither is 0 and they make up the type.
Elements : Ctype → Type 0
Elements c =
    (k e : ℕ) × (get_initializer_element_count c ≡ ok k)
    × (get_initializer_element_size_bytes c ≡ ok e)
    × (k * e ≡ total_bytes c)
    × (0 < k)
    × (0 < e)

one_element :
    (c : Ctype)
    → get_initializer_element_count c ≡ ok 1
    → get_initializer_element_size_bytes c ≡ ctype_to_size_bytes c
    → is_complete c ≡ true
    → total_bytes c ≤ llong_max
    → Elements c
unfolding Elements
one_element c hk he h small =
    let size = ctype_to_size_bytes-total c h small in
    (1, total_bytes c, hk, he ∙ size.0, omega arith, omega arith, size.1)

array_elements :
    (n k e t : ℕ)
    → n * t ≤ llong_max
    → k * e ≡ t
    → 0 < n
    → 0 < k
    → 0 < e
    → (n * k % u64_mod ≡ n * k) × (n * k * e ≡ n * t) × (0 < n * k)
array_elements n k e t small q pn pk pe =
    let whole : n * k * e ≡ n * t = mul_assoc n k e ∙ ap (λ (x : ℕ). n * x) q in
    let fits : n * k ≤ n * k * e = le-mul_of_pos_right (n * k) pe in
    (mod-eq_of_lt (omega arith), whole, (product_bounds n k pn pk).0)

array-Elements :
    (t : TypeTag) (b : Bool) (c : Ctype) (n : ℕ)
    → is_array_tag t ≡ true
    → 0 < n
    → n * total_bytes c ≤ llong_max
    → Elements c
    → Elements (referring t b c n)
unfolding Elements get_initializer_element_count get_initializer_element_size_bytes total_bytes
array-Elements t b c n a pn small (k, e, hk, he, q, pk, pe) =
    let f = array_elements n k e (total_bytes c) small q pn pk pe in
    rw (a, hk, he) (n * k, e, rw f.0, refl, f.1, f.2, pe)

-- The parts of the completeness of an array type.
complete_array :
    (t : TypeTag) (b : Bool) (c : Ctype) (n : ℕ)
    → is_array_tag t ≡ true
    → is_complete (referring t b c n) ≡ true
    → total_bytes (referring t b c n) ≤ llong_max
    → (0 < n)
      × (is_complete c ≡ true)
      × (n * total_bytes c ≤ llong_max)
      × (total_bytes c ≤ llong_max)
unfolding is_complete total_bytes
complete_array t b c n a h small =
    ground (arith, total_bytes_positive c, product_bounds n (total_bytes c))

type-Elements : (c : Ctype) → is_complete c ≡ true → total_bytes c ≤ llong_max → Elements c
type-Elements (plain t b n) h small =
    one_element (plain t b n) (unfold get_initializer_element_count is_complete in ground arith)
      (unfold get_initializer_element_size_bytes is_complete in ground arith) h small
type-Elements (referring t b c n) h small = elim (Bool-cases (is_array_tag t)) [
  | inl a ↦
      let parts = complete_array t b c n a h small in
      array-Elements t b c n a parts.0 parts.2 (type-Elements c parts.1 parts.3)
  | inr a ↦
      one_element (referring t b c n) (unfold get_initializer_element_count in rw a)
        (unfold get_initializer_element_size_bytes in rw a) h small
]

byte_count-replicate :
    (k e a : ℕ)
    → a + k * e ≤ llong_max
    → byte_count_from a (replicate k (record { byte_count = e; byte_value = 0; unique = 0 }))
      ≡ a + k * e
unfolding byte_count_from
byte_count-replicate zero e a h = grind arith
byte_count-replicate (suc k) e a h =
    rw (byte_count_from, mod-eq_of_lt (no_wrap a e k h))
      (byte_count-replicate k e (a + e) (grind arith) ∙ grind arith)
  where
    no_wrap : (a e k : ℕ) → a + suc k * e ≤ llong_max → a + e < u64_mod
    no_wrap a e k h = grind arith

all_zero-replicate :
    (k e : ℕ)
    → all_zero (replicate k (record { byte_count = e; byte_value = 0; unique = 0 })) ≡ true
unfolding all_zero
all_zero-replicate zero e = refl
all_zero-replicate (suc k) e = all_zero-replicate k e

length-replicate {ℓ} : {A : Type ℓ} (k : ℕ) (a : A) → length (replicate k a) ≡ k
length-replicate zero a = refl
length-replicate (suc k) a = ap suc (length-replicate k a)

-- A complete type of at most LLONG_MAX bytes has a zero initializer; its elements have as many bytes
-- together as the type, and it is recognised as zero.
pub constant_set_zero-bytes :
    (c : Ctype)
    → is_complete c ≡ true
    → total_bytes c ≤ llong_max
    → (ci : List ConstantBytes) × (constant_set_zero c ≡ ok ci)
      × (ctype_to_size_bytes c ≡ ok (constant_byte_count ci))
      × (constant_is_zero ci ≡ ok true)
unfolding Elements constant_set_zero constant_byte_count constant_is_zero
constant_set_zero-bytes c h small =
    let (k, e, hk, he, q, pk, pe) = type-Elements c h small in
    (
      replicate k (record { byte_count = e; byte_value = 0; unique = 0 }),
      rw (hk, he),
      rw (byte_count-replicate k e 0 (omega arith))
          ((ctype_to_size_bytes-total c h small).0 ∙ ap ok (omega arith)),
      rw
          (length-replicate {A = ConstantBytes} k
            (record { byte_count = e; byte_value = 0; unique = 0 }))
          (rw (positive k pk, all_zero-replicate k e)),
    )
  where
    positive : (k : ℕ) → 0 < k → ltb 0 k ≡ true
    positive k p = ground arith
