-- ===== src/Parse/Constant/Fit.antt =====
-- The type of an integer constant in passes/parse/constant.c against the lists of the C standard.
use enqcc.Base.{
  ℕ, ◌≤◌, ◌==◌, ◌≡◌, refl, Bool, true, false, leb, if◌then◌else◌, List, [], ◌∷◌, Option, none, some,
  Result, ok, err, ◌>>=◌, pos, arith, parse_constant_too_large,
}
use enqcc.Lang.Types.{TypeTag, int, unsigned_int, long, unsigned_long, plain}
use enqcc.Lex.Tokens.{Token, constant}
use enqcc.Parse.Constant.{
  ConstantNode, num, is_constant_maybe_double, has_suffix, integer_type, integer_constant,
  parse_constant, int_max, uint_max, long_max, ulong_max,
}

-- The types that a constant may have, by its suffixes, in the order in which they are tried.
abbrev pub candidates : (suffix_unsigned suffix_long : Bool) → List TypeTag
candidates false false = int ∷ long ∷ []
candidates false true = long ∷ []
candidates true false = unsigned_int ∷ unsigned_long ∷ []
candidates true true = unsigned_long ∷ []

abbrev pub largest : TypeTag → ℕ
largest int = int_max
largest unsigned_int = uint_max
largest long = long_max
largest unsigned_long = ulong_max
largest _ = 0

-- The first type that holds the value.
unfoldable pub first_fit : List TypeTag → ℕ → Option TypeTag
first_fit [] n = none
first_fit (t ∷ types) n =
    let later = first_fit types n in if leb n (largest t) then some t else later

abbrev pub typed : ℕ → Option TypeTag → Result ConstantNode
typed n none = err parse_constant_too_large
typed n (some t) = ok (record { expr_type = plain t (n == 0) 0; value = num (pos n) })

integer_constant-first_fit :
    (u l : Bool) (n : ℕ)
    → n ≤ ulong_max
    → integer_constant u l (some n) ≡ typed n (first_fit (candidates u l) n)
unfolding integer_constant integer_type first_fit
integer_constant-first_fit false false n h = ground arith
integer_constant-first_fit false true n h = ground arith
integer_constant-first_fit true false n h = ground arith
integer_constant-first_fit true true n h = ground arith

-- An integer constant has the first type of the list for its suffixes that holds its value, is a
-- null pointer constant where it is zero, and is rejected where no type of the list holds it. The
-- value is the one that strtoull reads, which is at most ULONG_MAX. No assertion fails.
pub parse_constant-first_fit :
    (strtoull strtod : List ℕ → Option ℕ) (val : List ℕ) (n : ℕ) (toks : List Token)
    → is_constant_maybe_double val ≡ false
    → strtoull val ≡ some n
    → n ≤ ulong_max
    → parse_constant strtoull strtod (record { token_type = constant; val = val } ∷ toks) ≡ (
        typed n (first_fit (candidates (has_suffix b'U' val) (has_suffix b'L' val)) n) >>= λ a.
        ok (a, toks))
unfolding parse_constant
parse_constant-first_fit strtoull strtod val n toks d e h =
    rw (d, e, integer_constant-first_fit (has_suffix b'U' val) (has_suffix b'L' val) n h) refl
