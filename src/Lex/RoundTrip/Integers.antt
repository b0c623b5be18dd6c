-- ===== src/Lex/RoundTrip/Integers.antt =====
-- lex_one_constant_numeric of passes/lex.c reads the integer constants that are written back.
use enqcc.Base.{
  ℕ, ◌≡◌, refl, ap, ◌∙◌, true, ◌||◌, Bool-cases, inl, inr, none, some, List, [], ◌∷◌, ◌++◌, arith,
  ok,
}
use enqcc.Lex.Tokens.{constant}
use enqcc.Lex.Chars.{isdigit}
use enqcc.Lex.Operators.{early_match}
use enqcc.Lex.Numeric.{
  no_sep, newly_found_sep, numeric_byte, numeric_span, second_suffix, suffix_span,
  lex_one_constant_numeric_finalize, lex_one_constant_numeric,
}
use enqcc.Lex.{token, lex_numeric, lex_other, lex_peek_ok, lex_one_token}
use enqcc.Lex.Total.{numeric_span-none, numeric_span-some}
use enqcc.Lex.Spelling.{is_long, is_unsigned, is_suffix, is_digits_then_suffix}

lex_one_token_digit :
    (c : ℕ) (rest : List ℕ) → isdigit c ≡ true → lex_one_token (c ∷ rest) ≡ lex_numeric (c ∷ rest)
unfolding lex_one_token lex_other early_match
lex_one_token_digit c rest h = ground arith

numeric_byte-isdigit :
    (c : ℕ) → isdigit c ≡ true → numeric_byte c no_sep (newly_found_sep c no_sep) ≡ some no_sep
unfolding numeric_byte newly_found_sep
numeric_byte-isdigit c h = ground arith

numeric_byte_suffix :
    (c : ℕ)
    → (is_long c || is_unsigned c) ≡ true
    → numeric_byte c no_sep (newly_found_sep c no_sep) ≡ none
unfolding numeric_byte newly_found_sep
numeric_byte_suffix c h = ground arith

suffix_span-is_suffix :
    (suffix rest : List ℕ)
    → is_suffix suffix ≡ true
    → suffix_span (suffix ++ 32 ∷ rest) ≡ ok (suffix, 32 ∷ rest)
unfolding suffix_span second_suffix
suffix_span-is_suffix [] rest h = refl
suffix_span-is_suffix (c ∷ []) rest h = ground arith
suffix_span-is_suffix (c ∷ d ∷ []) rest h = ground arith
suffix_span-is_suffix (c ∷ d ∷ e ∷ suffix) rest h = cc

numeric_span-is_suffix :
    (suffix rest : List ℕ)
    → is_suffix suffix ≡ true
    → numeric_span (suffix ++ 32 ∷ rest) no_sep ≡ ([], suffix ++ 32 ∷ rest, no_sep)
numeric_span-is_suffix [] rest h =
    numeric_span-none 32 rest no_sep (unfold numeric_byte newly_found_sep in refl)
numeric_span-is_suffix (c ∷ []) rest h =
    numeric_span-none c (32 ∷ rest) no_sep (numeric_byte_suffix c h)
numeric_span-is_suffix (c ∷ d ∷ []) rest h =
    numeric_span-none c (d ∷ 32 ∷ rest) no_sep (numeric_byte_suffix c (ground arith))
numeric_span-is_suffix (c ∷ d ∷ e ∷ suffix) rest h = cc

-- The digits and the suffix of an integer constant, as the loop tells them apart.
record IsSplit (text rest digits suffix : List ℕ) : Type 0 where
  whole : text ≡ digits ++ suffix
  valid : is_suffix suffix ≡ true
  read : numeric_span (text ++ 32 ∷ rest) no_sep ≡ (digits, suffix ++ 32 ∷ rest, no_sep)

integer_parts :
    (text rest : List ℕ)
    → is_digits_then_suffix text ≡ true
    → (digits : List ℕ) × (suffix : List ℕ) × IsSplit text rest digits suffix
unfolding is_digits_then_suffix
integer_parts [] rest h =
    ([], [], record { whole = refl; valid = refl; read = numeric_span-is_suffix [] rest refl })
integer_parts (c ∷ text) rest h = elim (Bool-cases (isdigit c)) [
  | inl e ↦
      let (digits, suffix, s) = integer_parts text rest (rw e at h) in
      (
        c ∷ digits,
        suffix,
        record {
          whole = ap (λ t. c ∷ t) s.whole;
          valid = s.valid;
          read =
              numeric_span-some c (text ++ 32 ∷ rest) no_sep no_sep (numeric_byte-isdigit c e)
              ∙ rw s.read refl;
        },
      )
  | inr e ↦
      let v = rw e at h in
      (
        [],
        c ∷ text,
        record { whole = refl; valid = v; read = numeric_span-is_suffix (c ∷ text) rest v },
      )
]

pub lex_integer :
    (c : ℕ) (text rest : List ℕ)
    → isdigit c ≡ true
    → is_digits_then_suffix text ≡ true
    → lex_one_token (c ∷ text ++ 32 ∷ rest) ≡ ok (token constant (c ∷ text), 32 ∷ rest)
unfolding lex_numeric lex_one_constant_numeric lex_one_constant_numeric_finalize lex_peek_ok
lex_integer c text rest h k =
    let (digits, suffix, s) = integer_parts text rest k in
    lex_one_token_digit c (text ++ 32 ∷ rest) h
    ∙ rw
        (
          numeric_span-some c (text ++ 32 ∷ rest) no_sep no_sep (numeric_byte-isdigit c h),
          s.read,
          suffix_span-is_suffix suffix rest s.valid,
          s.whole,
        )
        refl
