-- ===== src/Lex/RoundTrip/Neighbours.antt =====
-- lex_one_strlike of passes/lex.c makes neighbouring literals one.
use enqcc.Base.{
  ℕ, zero, suc, ◌<◌, ◌==◌, ◌≡◌, refl, ◌∙◌, Bool, true, false, ◌||◌, Bool-cases, inl, inr, none,
  some, List, [], ◌∷◌, ◌++◌, length, length-append, arith, Result, ok, err, ◌>>=◌, ◌>>◌,
}
use mathlib.Core.List.{append-nil}
use enqcc.Lex.Tokens.{TokenType, constant_char, constant_str}
use enqcc.Lex.Chars.{isspace, is_delimiter}
use enqcc.Lex.Strlike.{
  map_span, map_span_to_strlike, next_literal, Raw, prefixed, strlike_span,
  lex_one_strlike_check_size, lex_one_strlike,
}
use enqcc.Lex.Spelling.{all_bytes, escape_letter, escaped}
use enqcc.Lex.Total.Strlike.{next_literal-IsGap, map_span_closed}
use enqcc.Lex.RoundTrip.{and_split}
use enqcc.Lex.RoundTrip.Strlike.{
  delimiter, is_literal, is_plain, is_escape, has_escape, raw_text, escaped-plain, escaped-escape,
  strlike_span_plain, strlike_span_escape, strlike_span_end, map_span_backslash,
}

-- The bytes are read as `raw`, with as much fuel as there are bytes, and one more.
abbrev ReadsAs : TokenType → List ℕ → Raw → Type 0
ReadsAs t pos raw = (fuel : ℕ) → length pos < fuel → strlike_span fuel t pos ≡ ok raw

-- A text in front of what is read.
abbrev in_front : List ℕ → Raw → Raw
in_front text raw = prefixed (escaped text) (has_escape text) raw

strlike_span_front :
    (t : TokenType) (text pos : List ℕ) (raw : Raw)
    → ReadsAs t pos raw
    → ReadsAs t (escaped text ++ pos) (in_front text raw)
strlike_span_front t [] pos raw h fuel b = unfold escaped in h fuel b
strlike_span_front t (c ∷ text) pos raw h zero b = absurd (omega (arith, b))
strlike_span_front t (c ∷ text) pos raw h (suc fuel) b = elim (Bool-cases (escape_letter c == 0)) [
  | inl e ↦
      let (p, q) = escaped-plain c text e in
      let ih = strlike_span_front t text pos raw h fuel (omega (arith, rw p at b)) in
      rw (p, q) (strlike_span_plain fuel t c (escaped text ++ pos) (in_front text raw) e ih)
  | inr e ↦
      let (p, q) = escaped-escape c text e in
      let ih = strlike_span_front t text pos raw h fuel (omega (arith, rw p at b)) in
      rw (p, q)
        (strlike_span_escape fuel t (escape_letter c) (escaped text ++ pos) (in_front text raw)
          (is_escape c e).0 ih)
]

strlike_span_last :
    (t : TokenType) (after : List ℕ)
    → is_literal t ≡ true
    → next_literal t after ≡ none
    → ReadsAs t (delimiter t ∷ after) (raw_text [] after)
strlike_span_last t after l n zero b = absurd (omega (arith, b))
strlike_span_last t after l n (suc fuel) b = strlike_span_end fuel t after l n

-- White space up to the next literal.
next_literal_gap :
    (t : TokenType) (gap rest : List ℕ)
    → is_literal t ≡ true
    → all_bytes isspace gap ≡ true
    → next_literal t (gap ++ delimiter t ∷ rest) ≡ some (gap ++ delimiter t ∷ [], rest)
unfolding next_literal all_bytes
next_literal_gap constant_char [] rest l h = refl
next_literal_gap constant_str [] rest l h = refl
next_literal_gap _ [] rest l h = cc
next_literal_gap t (c ∷ gap) rest l h =
    let (s, others) = and_split (isspace c) (all_bytes isspace gap) h in
    rw (s, next_literal_gap t gap rest l others) refl

is_delimiter-delimiter : (t : TokenType) → is_literal t ≡ true → is_delimiter t (delimiter t) ≡ true
is_delimiter-delimiter constant_char l = refl
is_delimiter-delimiter constant_str l = refl
is_delimiter-delimiter _ l = cc

strlike_span_next :
    (t : TokenType) (gap rest : List ℕ) (raw : Raw)
    → is_literal t ≡ true
    → all_bytes isspace gap ≡ true
    → ReadsAs t rest raw
    → ReadsAs t
        (delimiter t ∷ (gap ++ delimiter t ∷ rest))
        (prefixed (delimiter t ∷ (gap ++ delimiter t ∷ [])) true raw)
unfolding strlike_span
strlike_span_next t gap rest raw l g h zero b = absurd (omega (arith, b))
strlike_span_next t gap rest raw l g h (suc fuel) b =
    rw
      (
        is_delimiter-delimiter t l,
        next_literal_gap t gap rest l g,
        h fuel (omega (arith, b, length-append gap (delimiter t ∷ rest))),
      )
      refl

map_span_front :
    (t : TokenType) (text pos : List ℕ)
    → map_span t (escaped text ++ pos) false false
      ≡ (map_span t pos false false >>= λ out. ok (text ++ out))
unfolding map_span
map_span_front t [] pos = unfold escaped in same (map_span t pos false false)
  where
    same : (r : Result (List ℕ)) → r ≡ (r >>= λ out. ok out)
    same (ok a) = refl
    same (err e) = refl
map_span_front t (c ∷ text) pos = elim (Bool-cases (escape_letter c == 0)) [
  | inl e ↦
      let (d, n, b) = is_plain t c e in
      rw ((escaped-plain c text e).0, d, b, map_span_front t text pos)
        ((step c text (map_span t pos false false)))
  | inr e ↦
      rw
        (
          (escaped-escape c text e).0,
          map_span_backslash t (escape_letter c) (escaped text ++ pos),
          map_span_front t text pos,
          (is_escape c e).1,
        )
        (step c text (map_span t pos false false))
]
  where
    step :
        (c : ℕ) (text : List ℕ) (r : Result (List ℕ))
        → ((r >>= λ out. ok (text ++ out)) >>= λ out. ok (c ∷ out))
          ≡ (r >>= λ out. ok (c ∷ text ++ out))
    step c text (ok a) = refl
    step c text (err e) = refl

or_true : (a b : Bool) → (a || (true || b)) ≡ true
or_true true b = refl
or_true false b = refl

-- The raw text of two neighbours maps to both of their texts.
map_span_neighbours :
    (t : TokenType) (a b gap : List ℕ)
    → is_literal t ≡ true
    → all_bytes isspace gap ≡ true
    → map_span t
        (escaped a ++ ((delimiter t ∷ (gap ++ (delimiter t ∷ []))) ++ (escaped b ++ [])))
        false
        false
      ≡ ok (a ++ (b ++ []))
map_span_neighbours t a b gap l g =
    let tail' = (gap ++ (delimiter t ∷ [])) ++ (escaped b ++ []) in
    let passed =
      (next_literal-IsGap true t (gap ++ delimiter t ∷ []) (gap ++ delimiter t ∷ []) [] refl
        (next_literal_gap t gap [] l g)).passed in
    map_span_front t a (delimiter t ∷ tail')
    ∙ rw
        (
          map_span_closed t (delimiter t) tail' (is_delimiter-delimiter t l),
          passed (escaped b ++ []),
          map_span_front t b [],
        )
        (unfold map_span in refl)

-- Two string literals with nothing but white space between them are one literal, whose text is both
-- texts, and so are two character constants, whose size is checked together. The second one is not
-- followed by a third.
pub lex_one_strlike-neighbours :
    (t : TokenType) (a b gap after : List ℕ)
    → is_literal t ≡ true
    → all_bytes isspace gap ≡ true
    → next_literal t after ≡ none
    → lex_one_strlike t
        (escaped a ++ (delimiter t ∷ (gap ++ (delimiter t ∷ (escaped b ++ (delimiter t ∷ after))))))
      ≡ (lex_one_strlike_check_size t (a ++ b) >> ok (a ++ b, after))
unfolding lex_one_strlike map_span_to_strlike
lex_one_strlike-neighbours t a b gap after l g n =
    let pos =
      escaped a ++ (delimiter t ∷ (gap ++ (delimiter t ∷ (escaped b ++ (delimiter t ∷ after))))) in
    let second =
      strlike_span_front t b (delimiter t ∷ after) (raw_text [] after)
        (strlike_span_last t after l n) in
    let read =
      strlike_span_front t a _ _
        (strlike_span_next t gap (escaped b ++ (delimiter t ∷ after))
          (in_front b (raw_text [] after)) l g second)
        (suc (length pos)) (omega arith) in
    rw read (
      unfold escaped in
      rw
        (
          or_true (has_escape a) (has_escape b || false),
          map_span_neighbours t a b gap l g,
          append-nil b,
        )
        refl)
