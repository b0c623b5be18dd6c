-- ===== src/Lex/RoundTrip/Strlike.antt =====
-- lex_one_strlike of passes/lex.c reads the literals that are written back.
use enqcc.Base.{
  ℕ, zero, suc, ◌<◌, ◌==◌, ◌≡◌, refl, sym, ap, ◌∙◌, Bool, true, false, not, ◌||◌, Bool-cases, inl,
  inr, none, List, [], ◌∷◌, ◌++◌, length, length-append, arith, ok, ◌>>=◌, ◌>>◌,
}
use enqcc.Lex.Tokens.{TokenType, constant_char, constant_str}
use enqcc.Lex.Chars.{is_delimiter, is_newline, is_backslash}
use enqcc.Lex.Strlike.{
  map_escape_char, is_valid_escape_char, map_span, map_span_to_strlike, next_literal, Raw, prefixed,
  escape_char, strlike_span, lex_one_strlike_check_size, lex_one_strlike,
}
use enqcc.Lex.Spelling.{escape_letter, escaped}

-- The delimiter of each kind of literal.
abbrev pub delimiter : TokenType → ℕ
delimiter constant_char = 39
delimiter _ = 34

abbrev pub is_literal : TokenType → Bool
is_literal constant_char = true
is_literal constant_str = true
is_literal _ = false

-- A byte that needs no escape sequence is none that the loop looks for.
pub is_plain :
    (t : TokenType) (c : ℕ)
    → (escape_letter c == 0) ≡ true
    → (is_delimiter t c ≡ false) × (is_newline c ≡ false) × (is_backslash c ≡ false)
is_plain t c h = (ground arith, ground arith, ground arith)

pub is_escape :
    (c : ℕ)
    → (escape_letter c == 0) ≡ false
    → (is_valid_escape_char (escape_letter c) ≡ true) × (map_escape_char (escape_letter c) ≡ c)
is_escape c h = (ground arith, ground arith)

abbrev pub has_escape : List ℕ → Bool
has_escape [] = false
has_escape (c ∷ text) = not (escape_letter c == 0) || has_escape text

abbrev pub raw_text : List ℕ → List ℕ → Raw
raw_text text after = record { text = escaped text; deepcopy = has_escape text; after = after }

pub escaped-plain :
    (c : ℕ) (text : List ℕ)
    → (escape_letter c == 0) ≡ true
    → (escaped (c ∷ text) ≡ c ∷ escaped text) × (has_escape (c ∷ text) ≡ has_escape text)
unfolding escaped
escaped-plain c text h = (rw h refl, rw h refl)

pub escaped-escape :
    (c : ℕ) (text : List ℕ)
    → (escape_letter c == 0) ≡ false
    → (escaped (c ∷ text) ≡ 92 ∷ escape_letter c ∷ escaped text) × (has_escape (c ∷ text) ≡ true)
unfolding escaped
escaped-escape c text h = (rw h refl, rw h refl)

-- The three kinds of rounds of the loop.
pub strlike_span_plain :
    (fuel : ℕ) (t : TokenType) (c : ℕ) (rest : List ℕ) (raw : Raw)
    → (escape_letter c == 0) ≡ true
    → strlike_span fuel t rest ≡ ok raw
    → strlike_span (suc fuel) t (c ∷ rest) ≡ ok (prefixed (c ∷ []) false raw)
unfolding strlike_span
strlike_span_plain fuel t c rest raw h e = let (d, n, b) = is_plain t c h in rw (d, n, b, e) refl

pub strlike_span_escape :
    (fuel : ℕ) (t : TokenType) (e : ℕ) (rest : List ℕ) (raw : Raw)
    → is_valid_escape_char e ≡ true
    → strlike_span fuel t rest ≡ ok raw
    → strlike_span (suc fuel) t (92 ∷ e ∷ rest) ≡ ok (prefixed (92 ∷ e ∷ []) true raw)
unfolding strlike_span escape_char
strlike_span_escape fuel constant_char e rest raw v h = rw (v, h) refl
strlike_span_escape fuel _ e rest raw v h = rw (v, h) refl

pub strlike_span_end :
    (fuel : ℕ) (t : TokenType) (after : List ℕ)
    → is_literal t ≡ true
    → next_literal t after ≡ none
    → strlike_span (suc fuel) t (delimiter t ∷ after) ≡ ok (raw_text [] after)
unfolding strlike_span escaped
strlike_span_end fuel constant_char after h e = rw e refl
strlike_span_end fuel constant_str after h e = rw e refl
strlike_span_end fuel _ after h e = cc

strlike_span-escaped :
    (fuel : ℕ) (t : TokenType) (text after : List ℕ)
    → is_literal t ≡ true
    → next_literal t after ≡ none
    → length (escaped text) < fuel
    → strlike_span fuel t (escaped text ++ delimiter t ∷ after) ≡ ok (raw_text text after)
strlike_span-escaped zero t text after l n h = absurd (omega (arith, h))
strlike_span-escaped (suc fuel) t [] after l n h =
    unfold escaped in strlike_span_end fuel t after l n
strlike_span-escaped (suc fuel) t (c ∷ text) after l n h =
    elim (Bool-cases (escape_letter c == 0)) [
      | inl e ↦
          let (p, q) = escaped-plain c text e in
          let ih = strlike_span-escaped fuel t text after l n (omega (arith, rw p at h)) in
          rw (p, q)
            (strlike_span_plain fuel t c (escaped text ++ delimiter t ∷ after) (raw_text text after)
              e ih)
      | inr e ↦
          let (p, q) = escaped-escape c text e in
          let ih = strlike_span-escaped fuel t text after l n (omega (arith, rw p at h)) in
          rw (p, q)
            (strlike_span_escape fuel t (escape_letter c) (escaped text ++ delimiter t ∷ after)
              (raw_text text after) (is_escape c e).0 ih)
    ]

pub map_span_backslash :
    (t : TokenType) (e : ℕ) (rest : List ℕ)
    → map_span t (92 ∷ e ∷ rest) false false
      ≡ (map_span t rest false false >>= λ out. ok (map_escape_char e ∷ out))
unfolding map_span
map_span_backslash constant_char e rest = refl
map_span_backslash _ e rest = refl

pub map_span-escaped :
    (t : TokenType) (text : List ℕ) → map_span t (escaped text) false false ≡ ok text
unfolding map_span
map_span-escaped t [] = unfold escaped in refl
map_span-escaped t (c ∷ text) = elim (Bool-cases (escape_letter c == 0)) [
  | inl e ↦
      let (d, n, b) = is_plain t c e in
      rw ((escaped-plain c text e).0, d, b, map_span-escaped t text) refl
  | inr e ↦
      rw
        (
          (escaped-escape c text e).0,
          map_span_backslash t (escape_letter c) (escaped text),
          map_span-escaped t text,
          (is_escape c e).1,
        )
        refl
]

escaped-has_escape : (text : List ℕ) → has_escape text ≡ false → escaped text ≡ text
escaped-has_escape [] h = unfold escaped in refl
escaped-has_escape (c ∷ text) h = elim (Bool-cases (escape_letter c == 0)) [
  | inl e ↦
      let (p, q) = escaped-plain c text e in
      p ∙ ap (λ t. c ∷ t) (escaped-has_escape text (sym q ∙ h))
  | inr e ↦ cc (escaped-escape c text e).1
]

pub lex_one_strlike-escaped :
    (t : TokenType) (text after : List ℕ)
    → is_literal t ≡ true
    → next_literal t after ≡ none
    → lex_one_strlike t (escaped text ++ delimiter t ∷ after)
      ≡ (lex_one_strlike_check_size t text >> ok (text, after))
unfolding lex_one_strlike map_span_to_strlike
lex_one_strlike-escaped t text after l n =
    rw
      (strlike_span-escaped (suc (length (escaped text ++ delimiter t ∷ after))) t text after l n
        (omega (arith, length-append (escaped text) (delimiter t ∷ after))))
      (elim (Bool-cases (has_escape text)) [
        | inl e ↦ rw (e, map_span-escaped t text) refl
        | inr e ↦ rw (e, escaped-has_escape text e) refl
      ])
