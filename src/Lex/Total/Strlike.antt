-- ===== src/Lex/Total/Strlike.antt =====
-- lex_one_strlike of passes/lex.c: the bytes that it takes, and the text that it maps.
use enqcc.Base.{
  ℕ, zero, suc, ◌<◌, ◌≡◌, refl, Bool, true, false, if◌then◌else◌, Option, none, some, List, [], ◌∷◌,
  ◌++◌, length, ◌∙◌, Bool-cases, Option-cases, inl, inr, Result, ok, err, ◌>>◌, Returns,
  Returns-bind, Ends, Ends-bind, Ends-if, arith,
}
use enqcc.Lex.Tokens.{TokenType, constant_char, constant_str}
use enqcc.Lex.Chars.{isspace, is_delimiter, is_newline, is_backslash}
use enqcc.Lex.Strlike.{
  is_valid_escape_char, map_span, map_span_to_strlike, next_literal, Raw, escape_char, strlike_span,
  lex_one_strlike_check_size, lex_one_strlike,
}
use enqcc.Lex.Total.{Terminated, Terminated-tail, Terminated-nil, Closed, Closed-tail}

-- The two kinds of literals.
abbrev pub is_strlike : TokenType → Bool
is_strlike constant_char = true
is_strlike constant_str = true
is_strlike _ = false

-- The span to the next literal is white space and a delimiter, which map_span passes over.
pub record IsGap (o : Bool) (t : TokenType) (rest span after : List ℕ) : Type 0 where
  pub shorter : length after < length rest
  pub kept : Closed o after
  pub passed : (text : List ℕ) → map_span t (span ++ text) false true ≡ map_span t text false false

later_literal :
    (c : ℕ) (later : Option (List ℕ × List ℕ)) (span after : List ℕ)
    → (elim later as (λ o. Option (List ℕ × List ℕ)) [
      | none ↦ none
      | some (s, a) ↦ some (c ∷ s, a)
    ])
      ≡ some (span, after)
    → (s : List ℕ) × (later ≡ some (s, after)) × (span ≡ c ∷ s)
later_literal c none span after e = cc
later_literal c (some (s, a)) span after e = (s, cc, cc)

space-ne-delimiter : (t : TokenType) (c : ℕ) → isspace c ≡ true → is_delimiter t c ≡ false
space-ne-delimiter t c h = ground arith

map_span_space :
    (t : TokenType) (c : ℕ) (text : List ℕ)
    → isspace c ≡ true
    → map_span t (c ∷ text) false true ≡ map_span t text false true
unfolding map_span
map_span_space t c text h = rw (space-ne-delimiter t c h, h)

map_span_delimiter :
    (t : TokenType) (c : ℕ) (text : List ℕ)
    → is_delimiter t c ≡ true
    → map_span t (c ∷ text) false true ≡ map_span t text false false
unfolding map_span
map_span_delimiter t c text h = rw h

here :
    {b : Bool} {c : ℕ} {rest span after : List ℕ}
    → if◌then◌else◌ {A = Option (List ℕ × List ℕ)} b (some (c ∷ [], rest)) none ≡ some (span, after)
    → (b ≡ true) × (span ≡ c ∷ []) × (after ≡ rest)
here {b = true} e = (refl, cc, cc)
here {b = false} e = cc

pub next_literal-IsGap :
    (o : Bool) (t : TokenType) (rest span after : List ℕ)
    → Closed o rest
    → next_literal t rest ≡ some (span, after)
    → IsGap o t rest span after
unfolding next_literal
next_literal-IsGap o t [] span after k e = cc
next_literal-IsGap o t (c ∷ rest) span after k e = elim (Bool-cases (isspace c)) [
  | inl p ↦
      let (s, e', q) = later_literal c (next_literal t rest) span after (rw p at e) in
      let gap = next_literal-IsGap o t rest s after (Closed-tail o c rest k) e' in
      record {
        shorter = omega (arith, gap.shorter);
        kept = gap.kept;
        passed = λ text. rw q (map_span_space t c (s ++ text) p ∙ gap.passed text);
      }
  | inr p ↦
      let (d, q, q') = here (rw p at e) in
      record {
        shorter = rw q' (omega arith);
        kept = rw q' (Closed-tail o c rest k);
        passed = λ text. rw q (map_span_delimiter t c text d);
      }
]

backslash-ne-delimiter : (t : TokenType) (c : ℕ) → is_backslash c ≡ true → is_delimiter t c ≡ false
backslash-ne-delimiter t c h = ground arith

-- What the loop gives: fewer bytes than there were, and a text that can be mapped.
abbrev IsRaw : Bool → TokenType → List ℕ → Raw → Type 0
IsRaw o t pos raw =
    (length raw.after < length pos)
    × Closed o raw.after
    × Returns (λ out. Unit) (map_span t raw.text false false)

map_span_plain :
    (t : TokenType) (c : ℕ) (text : List ℕ)
    → is_delimiter t c ≡ false
    → is_backslash c ≡ false
    → Returns (λ out. Unit) (map_span t text false false)
    → Returns (λ out. Unit) (map_span t (c ∷ text) false false)
unfolding map_span
map_span_plain t c text p q h =
    rw (p, q)
      (Returns-bind (λ out. Unit) (λ out. Unit) (map_span t text false false) _ h λ out u. tt)

map_span_escape :
    (t : TokenType) (c e : ℕ) (text : List ℕ)
    → is_backslash c ≡ true
    → Returns (λ out. Unit) (map_span t text false false)
    → Returns (λ out. Unit) (map_span t (c ∷ e ∷ text) false false)
unfolding map_span
map_span_escape t c e text p h =
    rw (backslash-ne-delimiter t c p, p)
      (Returns-bind (λ out. Unit) (λ out. Unit) (map_span t text false false) _ h λ out u. tt)

pub map_span_closed :
    (t : TokenType) (c : ℕ) (text : List ℕ)
    → is_delimiter t c ≡ true
    → map_span t (c ∷ text) false false ≡ map_span t text false true
unfolding map_span
map_span_closed t c text h = rw h

is_backslash-isspace : (c : ℕ) → is_backslash c ≡ true → isspace c ≡ false
is_backslash-isspace c h = ground arith

is_valid_escape_char-isspace : (c : ℕ) → is_valid_escape_char c ≡ true → isspace c ≡ false
is_valid_escape_char-isspace c h = ground arith

module _ (o : Bool) where
  escape_char-Fewer :
      (rest : List ℕ)
      → Terminated o rest
      → Ends o (λ r. (length r.1 < length rest) × Closed o r.1) (escape_char rest)
  unfolding escape_char
  escape_char-Fewer [] k = Terminated-nil o k
  escape_char-Fewer (c ∷ rest) k =
      Ends-if o _ (is_valid_escape_char c) _ _ (λ h. (omega arith, Closed-tail o c rest k))
        λ h. refl

  strlike_span-IsRaw :
      (fuel : ℕ) (t : TokenType) (pos : List ℕ)
      → length pos < fuel
      → Closed o pos
      → Ends o (IsRaw o t pos) (strlike_span fuel t pos)
  unfolding strlike_span
  strlike_span-IsRaw zero t pos h k = absurd (omega arith)
  strlike_span-IsRaw (suc fuel) t [] h k = refl
  strlike_span-IsRaw (suc fuel) t (c ∷ rest) h k =
      let k' = Closed-tail o c rest k in
      Ends-if o (IsRaw o t (c ∷ rest)) (is_delimiter t c) _ _
        (λ d. elim (Option-cases (next_literal t rest)) [
          | inl e ↦ rw e (omega arith, k', unfold map_span in tt)
          | inr ((span, after), e) ↦
              let gap = next_literal-IsGap o t rest span after k' e in
              rw e (
                Ends-bind o (IsRaw o t after) (IsRaw o t (c ∷ rest)) (strlike_span fuel t after) _
                  (strlike_span-IsRaw fuel t after (omega (arith, h, gap.shorter)) gap.kept)
                  λ raw r. (
                    omega (arith, r.0, gap.shorter),
                    r.1,
                    rw (map_span_closed t c (span ++ raw.text) d, gap.passed raw.text) r.2,
                  ))
        ])
        λ d.
          Ends-if o (IsRaw o t (c ∷ rest)) (is_newline c) _ _ (λ n. refl)
            λ n.
              Ends-if o (IsRaw o t (c ∷ rest)) (is_backslash c) _ _
                (λ b.
                  Ends-bind o _ (IsRaw o t (c ∷ rest)) (escape_char rest) _
                    (escape_char-Fewer rest (Terminated-tail o c rest (is_backslash-isspace c b) k))
                    λ (e, after) l.
                      Ends-bind o (IsRaw o t after) (IsRaw o t (c ∷ rest))
                        (strlike_span fuel t after) _
                        (strlike_span-IsRaw fuel t after (omega (arith, h, l.0)) l.1)
                        λ raw r.
                          (omega (arith, r.0, l.0), r.1, map_span_escape t c e raw.text b r.2))
                λ b.
                  Ends-bind o (IsRaw o t rest) (IsRaw o t (c ∷ rest)) (strlike_span fuel t rest) _
                    (strlike_span-IsRaw fuel t rest (omega (arith, h)) k')
                    λ raw r. (omega (arith, r.0), r.1, map_span_plain t c raw.text d b r.2)

Returns-Ends {ℓ} :
    {A : Type ℓ} (o : Bool) (P : A → Type 0) (r : Result A) → Returns P r → Ends o P r
Returns-Ends o P (ok a) h = h
Returns-Ends o P (err e) h = absurd h

check_size-Ends {ℓ} :
    {A : Type ℓ} (o : Bool) (P : A → Type 0) (t : TokenType) (val : List ℕ) (r : Result A)
    → Ends o P r
    → Ends o P (lex_one_strlike_check_size t val >> r)
check_size-Ends o P constant_char [] r h = refl
check_size-Ends o P constant_char (c ∷ []) r h = h
check_size-Ends o P constant_char (c ∷ d ∷ val) r h = refl
check_size-Ends o P _ val r h = h

-- What is left behind a literal.
abbrev pub Behind {ℓ} : {A : Type ℓ} → Bool → List ℕ → A × List ℕ → Type 0
Behind o pos r = (length r.1 < length pos) × Closed o r.1

pub lex_one_strlike-Behind :
    (o : Bool) (t : TokenType) (pos : List ℕ)
    → Closed o pos
    → Ends o (Behind o pos) (lex_one_strlike t pos)
unfolding lex_one_strlike map_span_to_strlike
lex_one_strlike-Behind o t pos k =
    Ends-bind o (IsRaw o t pos) (Behind o pos) (strlike_span (suc (length pos)) t pos) _
      (strlike_span-IsRaw o (suc (length pos)) t pos (omega arith) k)
      λ raw h.
        Ends-bind o (λ val. Unit) (Behind o pos)
          (if raw.deepcopy then map_span t raw.text false false else ok raw.text) _
          (Ends-if o (λ val. Unit) raw.deepcopy _ _ (λ d. Returns-Ends o (λ val. Unit) _ h.2)
            λ d. tt)
          λ val u. check_size-Ends o (Behind o pos) t val (ok (val, raw.after)) (h.0, h.1)
