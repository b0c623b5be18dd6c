-- ===== src/Codegen/Round.antt =====
-- passes/codegen.c: round_up_to_multiple_of, and sums of numbers of type long long int. The numbers are
-- sizes and offsets, none of them negative.
use enqcc.Base.{
  ℕ, ◌+◌, ◌-◌, ◌*◌, ◌/◌, ◌%◌, ◌≤◌, ◌<◌, ◌≡◌, leb, ltb, ◌==◌, true, Result, ok, ◌>>◌, guard, assert,
  signed_overflow, Returns, arith,
}

abbrev pub llong_max : ℕ
llong_max = 9223372036854775807

-- a + b, where it does not overflow
unfoldable pub long_sum : ℕ → ℕ → Result ℕ
long_sum a b = do guard (leb (a + b) llong_max) signed_overflow; ok (a + b)

unfoldable pub rounded : ℕ → ℕ → ℕ
rounded n base = (n + base - 1) / base * base

-- The first sum of `n + base - 1` is the one that may overflow.
unfoldable pub round_up_to_multiple_of : ℕ → ℕ → Result ℕ
round_up_to_multiple_of n base = do
  guard (leb (n + base) llong_max) signed_overflow
  assert (leb n (rounded n base))
  assert (ltb (rounded n base - n) base)
  assert (rounded n base % base == 0)
  ok (rounded n base)

pub rounded_bounds :
    (n base : ℕ)
    → 0 < base
    → (n ≤ rounded n base) × (rounded n base - n < base) × (rounded n base % base ≡ 0)
unfolding rounded
rounded_bounds n base h = (grind arith, grind arith, grind arith)

test_le : {a b : ℕ} → a ≤ b → leb a b ≡ true
test_le h = ground arith

test_lt : {a b : ℕ} → a < b → ltb a b ≡ true
test_lt h = ground arith

test_eq : {a b : ℕ} → a ≡ b → (a == b) ≡ true
test_eq h = ground arith

pub long_sum-ok : (a b : ℕ) → a + b ≤ llong_max → long_sum a b ≡ ok (a + b)
unfolding long_sum
long_sum-ok a b h = rw (test_le h)

pub round_up-ok :
    (n base : ℕ)
    → 0 < base
    → n + base ≤ llong_max
    → round_up_to_multiple_of n base ≡ ok (rounded n base)
unfolding round_up_to_multiple_of
round_up-ok n base p h =
    let b = rounded_bounds n base p in rw (test_le h, test_le b.0, test_lt b.1, test_eq b.2)

-- Where `n + base` is at most LLONG_MAX and the base is not 0, no sum overflows and none of the three
-- assertions of the function fails: it returns a multiple of the base that is at least `n`, and by
-- less than the base more.
pub round_up_bounds :
    (n base : ℕ)
    → 0 < base
    → n + base ≤ llong_max
    → Returns (λ r. (n ≤ r) × (r - n < base) × (r % base ≡ 0)) (round_up_to_multiple_of n base)
round_up_bounds n base p h = rw (round_up-ok n base p h) (rounded_bounds n base p)
