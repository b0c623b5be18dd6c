-- ===== src/Lang/Types/Equality.antt =====
-- ctype_is_equal of lang/types.c as a relation.
use enqcc.Base.{ℕ, ◌≡◌, ◌≢◌, ◌⊎◌, refl, Bool, true, false, ◌&&◌, Result, ok, inl, inr, arith}
use enqcc.Lang.Types.{TypeTag, array_of, pointer_to, Ctype, plain, referring}
use enqcc.Lang.Types.Compare.{
  Verdict, unequal, decays, compares, first_tests, settle, ctype_is_equal_impl, ctype_is_equal,
  ctype_array_decay_to_pointer, refers, is_formed,
}

-- The tests before the referents, by the tags and sizes alone.
tests : TypeTag → ℕ → TypeTag → ℕ → Bool → Verdict
tests t n u m decay = first_tests (plain t true n) (plain u true m) decay

tests_comm : (t u : TypeTag) (n m : ℕ) (decay : Bool) → tests t n u m decay ≡ tests u m t n decay
unfolding tests first_tests
tests_comm t u n m decay = ground arith

verdict_comm : (l r : Ctype) (decay : Bool) → first_tests l r decay ≡ first_tests r l decay
unfolding tests first_tests
verdict_comm (plain t b n) (plain u c m) decay = tests_comm t u n m decay
verdict_comm (plain t b n) (referring u c d m) decay = tests_comm t u n m decay
verdict_comm (referring t b a n) (plain u c m) decay = tests_comm t u n m decay
verdict_comm (referring t b a n) (referring u c d m) decay = tests_comm t u n m decay

equal_impl_comm :
    (l r : Ctype) (decay : Bool) → ctype_is_equal_impl l r decay ≡ ctype_is_equal_impl r l decay
unfolding ctype_is_equal_impl
equal_impl_comm (plain t b n) (plain u c m) decay =
    rw (verdict_comm (plain t b n) (plain u c m) decay)
equal_impl_comm (plain t b n) (referring u c d m) decay =
    rw (verdict_comm (plain t b n) (referring u c d m) decay)
equal_impl_comm (referring t b a n) (plain u c m) decay =
    rw (verdict_comm (referring t b a n) (plain u c m) decay)
equal_impl_comm (referring t b a n) (referring u c d m) decay = rw (
  verdict_comm (referring t b a n) (referring u c d m) decay,
  equal_impl_comm a d true,
  equal_impl_comm a d false,
)

-- The comparison of two types does not depend on their order, faults included.
pub ctype_is_equal_comm : (l r : Ctype) → ctype_is_equal l r ≡ ctype_is_equal r l
unfolding ctype_is_equal
ctype_is_equal_comm l r = equal_impl_comm l r true

-- A decision of the loop is a value where the types are formed.
IsDecided : Result Bool → Type 0
IsDecided r = (b : Bool) × (r ≡ ok b)

settle-IsDecided :
    (v : Verdict) (a b : Result Bool) → IsDecided a → IsDecided b → IsDecided (settle v a b)
unfolding IsDecided
settle-IsDecided unequal a b ha hb = (false, refl)
settle-IsDecided decays a b ha hb = ha
settle-IsDecided compares a b ha hb = hb

-- Without a referent, no array and no pointer is met.
plain-ne-decays :
    (t : TypeTag) (b : Bool) (n : ℕ) (r : Ctype) (decay : Bool)
    → is_formed (plain t b n) ≡ true
    → first_tests (plain t b n) r decay ≢ decays
unfolding is_formed first_tests
plain-ne-decays t b n (plain u c m) decay h e = ground arith
plain-ne-decays t b n (referring u c d m) decay h e = ground arith

settle-plain :
    (v : Verdict) (a : Result Bool) (b : Bool) → v ≢ decays → IsDecided (settle v a (ok b))
unfolding IsDecided
settle-plain unequal a b n = (false, refl)
settle-plain decays a b n = absurd (n refl)
settle-plain compares a b n = (b, refl)

equal_impl-IsDecided :
    (l r : Ctype) (decay : Bool)
    → is_formed l ≡ true
    → is_formed r ≡ true
    → IsDecided (ctype_is_equal_impl l r decay)
unfolding ctype_is_equal_impl is_formed
equal_impl-IsDecided (plain t b n) (plain u c m) decay hl hr =
    settle-plain _ _ true (plain-ne-decays t b n (plain u c m) decay hl)
equal_impl-IsDecided (plain t b n) (referring u c d m) decay hl hr =
    settle-plain _ _ false (plain-ne-decays t b n (referring u c d m) decay hl)
equal_impl-IsDecided (referring t b a n) (plain u c m) decay hl hr =
    rw (verdict_comm (referring t b a n) (plain u c m) decay)
      (settle-plain _ _ false (plain-ne-decays u c m (referring t b a n) decay hr))
equal_impl-IsDecided (referring t b a n) (referring u c d m) decay hl hr =
    settle-IsDecided _ _ _ (equal_impl-IsDecided a d true (and_right _ _ hl) (and_right _ _ hr))
      (equal_impl-IsDecided a d false (and_right _ _ hl) (and_right _ _ hr))
  where
    and_right : (x y : Bool) → (x && y) ≡ true → y ≡ true
    and_right x y h = ground arith

-- The comparison of two types that the compiler can build gives an answer: no referent that it
-- goes through is missing.
pub ctype_is_equal-total :
    (l r : Ctype)
    → is_formed l ≡ true
    → is_formed r ≡ true
    → (b : Bool) × (ctype_is_equal l r ≡ ok b)
unfolding ctype_is_equal IsDecided
ctype_is_equal-total l r hl hr = equal_impl-IsDecided l r true hl hr

tests_refl :
    (t : TypeTag) (n : ℕ) (decay : Bool)
    → (tests t n t n decay ≡ compares) ⊎ (tests t n t n decay ≡ decays)
unfolding tests first_tests
tests_refl t n decay = ground arith

settle_same :
    (v : Verdict) {a b : Result Bool}
    → (v ≡ compares) ⊎ (v ≡ decays)
    → a ≡ ok true
    → b ≡ ok true
    → settle v a b ≡ ok true
settle_same v (inl e) ha hb = rw e hb
settle_same v (inr e) ha hb = rw e ha

equal_impl_refl :
    (c : Ctype) (decay : Bool) → is_formed c ≡ true → ctype_is_equal_impl c c decay ≡ ok true
unfolding ctype_is_equal_impl is_formed tests first_tests
equal_impl_refl (plain t b n) decay h = ground arith
equal_impl_refl (referring t b c n) decay h =
    settle_same _ (tests_refl t n decay) (equal_impl_refl c true (formed_inner t (is_formed c) h))
      (equal_impl_refl c false (formed_inner t (is_formed c) h))
  where
    formed_inner : (t : TypeTag) (y : Bool) → (refers t && y) ≡ true → y ≡ true
    formed_inner t y h = ground arith

-- A type that the compiler can build equals itself, and an array equals the pointer to its elements
-- that it decays to.
pub ctype_is_equal-decay :
    (c : Ctype)
    → is_formed c ≡ true
    → (ctype_is_equal c c ≡ ok true) × (ctype_is_equal c (ctype_array_decay_to_pointer c) ≡ ok true)
unfolding ctype_is_equal ctype_array_decay_to_pointer ctype_is_equal_impl is_formed first_tests
ctype_is_equal-decay (plain t b n) h =
    (equal_impl_refl (plain t b n) true h, ground (arith, equal_impl_refl (plain t b n) true h))
ctype_is_equal-decay (referring t b c n) h = (
  equal_impl_refl (referring t b c n) true h,
  ground (arith, equal_impl_refl (referring t b c n) true h, equal_impl_refl c true),
)

-- The decay also applies below the top: a pointer to a pointer is held equal to an array of arrays.
pub ctype_is_equal-nested :
    (c : Ctype) (b b₁ b₂ b₃ : Bool) (n m k l : ℕ)
    → is_formed c ≡ true
    → ctype_is_equal
        (referring pointer_to b (referring pointer_to b₁ c k) l)
        (referring array_of b₂ (referring array_of b₃ c m) n)
      ≡ ok true
unfolding ctype_is_equal ctype_is_equal_impl first_tests
ctype_is_equal-nested c b b₁ b₂ b₃ n m k l h = equal_impl_refl c true h
