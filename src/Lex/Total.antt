-- ===== src/Lex/Total.antt =====
-- How many bytes the parts of passes/lex.c take.
pub mod Strlike
pub mod Init
use enqcc.Base.{
  ℕ, suc, ◌+◌, ◌≤◌, ◌<◌, ◌≡◌, refl, ap, ◌∙◌, Bool, true, false, ◌&&◌, ◌||◌, ◌==◌, if◌then◌else◌,
  Option, none, some, List, [], ◌∷◌, ◌++◌, length, Bool-cases, Option-cases, inl, inr, Result, ok,
  err, ◌>>=◌, Ends, Ends-bind, Ends-guard, Ends-if, Ends-map, arith, not, ◌≢◌,
  lex_float_exponent_no_digits,
}
use mathlib.Core.List.{tail}
use native.Mathlib.Nat.{le_refl}
use enqcc.Lex.Chars.{isspace, isdigit, isdot, toupper, continues_identifier, byte_at}
use enqcc.Lex.Words.{identifier_span}
use enqcc.Lex.Numeric.{
  NumericState, no_sep, newly_found_sep, numeric_byte, numeric_span, second_suffix, suffix_span,
  found_sep, malformed, lex_one_constant_numeric_finalize, lex_one_constant_numeric,
}

-- The file, or what is left of it, ends in white space.
abbrev pub terminated : List ℕ → Bool
terminated [] = false
terminated (c ∷ []) = isspace c
terminated (c ∷ d ∷ rest) = terminated (d ∷ rest)

-- Either that, or reading on behind the last byte is allowed for.
abbrev pub Terminated : Bool → List ℕ → Type 0
Terminated o pos = (o || terminated pos) ≡ true

pub Terminated-tail :
    (o : Bool) (c : ℕ) (rest : List ℕ)
    → isspace c ≡ false
    → Terminated o (c ∷ rest)
    → Terminated o rest
Terminated-tail true c rest h t = refl
Terminated-tail false c [] h t = cc
Terminated-tail false c (d ∷ rest) h t = t

pub Terminated-nil : (o : Bool) → Terminated o [] → o ≡ true
Terminated-nil true t = refl
Terminated-nil false t = t

-- The same, unless nothing is left.
abbrev pub closed : List ℕ → Bool
closed [] = true
closed pos = terminated pos

abbrev pub Closed : Bool → List ℕ → Type 0
Closed o pos = (o || closed pos) ≡ true

pub Terminated-Closed : (o : Bool) (pos : List ℕ) → Terminated o pos → Closed o pos
Terminated-Closed true pos t = refl
Terminated-Closed false [] t = refl
Terminated-Closed false (c ∷ rest) t = t

pub Closed-tail : (o : Bool) (c : ℕ) (rest : List ℕ) → Closed o (c ∷ rest) → Closed o rest
Closed-tail true c rest t = refl
Closed-tail false c [] t = refl
Closed-tail false c (d ∷ rest) t = t

-- No more bytes are left than before; fewer are left than before.
abbrev pub NoMore {ℓ} : {A : Type ℓ} → Bool → List ℕ → A × List ℕ → Type 0
NoMore o pos r = (length r.1 ≤ length pos) × Terminated o r.1

abbrev pub Fewer {ℓ} : {A : Type ℓ} → Bool → List ℕ → A × List ℕ → Type 0
Fewer o pos r = (length r.1 < length pos) × Terminated o r.1

continues_identifier-isspace : (c : ℕ) → continues_identifier c ≡ true → isspace c ≡ false
continues_identifier-isspace c h = ground arith

pub identifier_span-NoMore :
    (o : Bool) (pos : List ℕ) → Terminated o pos → Ends o (NoMore o pos) (identifier_span pos)
unfolding identifier_span
identifier_span-NoMore o [] t = Terminated-nil o t
identifier_span-NoMore o (c ∷ rest) t =
    Ends-if o (NoMore o (c ∷ rest)) (continues_identifier c) _ _
      (λ e.
        Ends-bind o (NoMore o rest) (NoMore o (c ∷ rest)) (identifier_span rest) _
          (identifier_span-NoMore o rest
            (Terminated-tail o c rest (continues_identifier-isspace c e) t))
          λ r h. (omega (arith, h.0), h.1))
      λ e. (omega arith, t)

toupper-isspace : (c d : ℕ) → isspace d ≡ false → (toupper c == d) ≡ true → isspace c ≡ false
toupper-isspace c d h e = ground arith

-- A round of the loop, by what numeric_byte gives.
abbrev numeric_round :
    ℕ → List ℕ → NumericState → Option NumericState → List ℕ × List ℕ × NumericState
numeric_round c rest s none = ([], c ∷ rest, s)
numeric_round c rest s (some s') =
    (c ∷ (numeric_span rest s').0, (numeric_span rest s').1, (numeric_span rest s').2)

numeric_span_round :
    (c : ℕ) (rest : List ℕ) (s : NumericState)
    → numeric_span (c ∷ rest) s ≡ numeric_round c rest s (numeric_byte c s (newly_found_sep c s))
unfolding numeric_span
numeric_span_round c rest s = go (numeric_byte c s (newly_found_sep c s))
  where
    go :
        (r : Option NumericState)
        → (elim r as (λ o. List ℕ × List ℕ × NumericState) [
          | none ↦ ([], c ∷ rest, s)
          | some s' ↦ let (span, after, final) = numeric_span rest s' in (c ∷ span, after, final)
        ])
          ≡ numeric_round c rest s r
    go none = refl
    go (some s') = refl

pub numeric_span-none :
    (c : ℕ) (rest : List ℕ) (s : NumericState)
    → numeric_byte c s (newly_found_sep c s) ≡ none
    → numeric_span (c ∷ rest) s ≡ ([], c ∷ rest, s)
numeric_span-none c rest s e = numeric_span_round c rest s ∙ ap (numeric_round c rest s) e

pub numeric_span-some :
    (c : ℕ) (rest : List ℕ) (s s' : NumericState)
    → numeric_byte c s (newly_found_sep c s) ≡ some s'
    → numeric_span (c ∷ rest) s
      ≡ (c ∷ (numeric_span rest s').0, (numeric_span rest s').1, (numeric_span rest s').2)
numeric_span-some c rest s s' e = numeric_span_round c rest s ∙ ap (numeric_round c rest s) e

module _ (o : Bool) where
  second_suffix-NoMore :
      (other : ℕ) (pos : List ℕ)
      → isspace other ≡ false
      → Terminated o pos
      → Ends o (NoMore o pos) (second_suffix other pos)
  unfolding second_suffix
  second_suffix-NoMore other [] n t = Terminated-nil o t
  second_suffix-NoMore other (c ∷ rest) n t = elim (Bool-cases (toupper c == other)) [
    | inl e ↦ rw e (omega arith, Terminated-tail o c rest (toupper-isspace c other n e) t)
    | inr e ↦ rw e (omega arith, t)
  ]

  after_suffix-NoMore :
      (other c : ℕ) (rest : List ℕ)
      → isspace other ≡ false
      → isspace c ≡ false
      → Terminated o (c ∷ rest)
      → Ends o (NoMore o (c ∷ rest)) (second_suffix other rest >>= λ r. ok (c ∷ r.0, r.1))
  after_suffix-NoMore other c rest n s t =
      Ends-bind o (NoMore o rest) (NoMore o (c ∷ rest)) (second_suffix other rest) _
        (second_suffix-NoMore other rest n (Terminated-tail o c rest s t))
        λ r h. (omega (arith, h.0), h.1)

  suffix_span-NoMore : (pos : List ℕ) → Terminated o pos → Ends o (NoMore o pos) (suffix_span pos)
  unfolding suffix_span
  suffix_span-NoMore [] t = Terminated-nil o t
  suffix_span-NoMore (c ∷ rest) t =
      Ends-if o (NoMore o (c ∷ rest)) (toupper c == b'L') _ _
        (λ e. after_suffix-NoMore b'U' c rest refl (toupper-isspace c b'L' refl e) t)
        λ e.
          Ends-if o (NoMore o (c ∷ rest)) (toupper c == b'U') _ _
            (λ e'. after_suffix-NoMore b'L' c rest refl (toupper-isspace c b'U' refl e') t)
            λ e'. (omega arith, t)

  numeric_byte-isspace :
      (c : ℕ) (s s' : NumericState)
      → numeric_byte c s (newly_found_sep c s) ≡ some s'
      → isspace c ≡ false
  unfolding numeric_byte newly_found_sep
  numeric_byte-isspace c s s' h = ground arith

  numeric_span-NoMore :
      (pos : List ℕ) (s : NumericState)
      → Terminated o pos
      → (length (numeric_span pos s).1 ≤ length pos) × Terminated o (numeric_span pos s).1
  unfolding numeric_span
  numeric_span-NoMore [] s t = (omega arith, t)
  numeric_span-NoMore (c ∷ rest) s t =
      elim (Option-cases (numeric_byte c s (newly_found_sep c s))) [
        | inl e ↦ rw (numeric_span-none c rest s e) (omega arith, t)
        | inr (s', e) ↦
            let h =
              numeric_span-NoMore rest s'
                (Terminated-tail o c rest (numeric_byte-isspace c s s' e) t) in
            rw (numeric_span-some c rest s s' e) (omega (arith, h.0), h.1)
      ]

  -- A digit or a decimal point starts a constant.
  numeric_byte_first :
      (c : ℕ)
      → (isdigit c || isdot c) ≡ true
      → numeric_byte c no_sep (newly_found_sep c no_sep) ≢ none
  unfolding numeric_byte newly_found_sep
  numeric_byte_first c h e = ground arith

  numeric_span-Fewer :
      (c : ℕ) (rest : List ℕ)
      → (isdigit c || isdot c) ≡ true
      → Terminated o (c ∷ rest)
      → (length (numeric_span (c ∷ rest) no_sep).1 < length (c ∷ rest))
        × Terminated o (numeric_span (c ∷ rest) no_sep).1
  numeric_span-Fewer c rest d t =
      elim (Option-cases (numeric_byte c no_sep (newly_found_sep c no_sep))) [
        | inl e ↦ absurd (numeric_byte_first c d e)
        | inr (s', e) ↦
            let h =
              numeric_span-NoMore rest s'
                (Terminated-tail o c rest (numeric_byte-isspace c no_sep s' e) t) in
            rw (numeric_span-some c rest no_sep s' e) (omega (arith, h.0), h.1)
      ]

  finalize-NoMore :
      (span pos : List ℕ) (s : NumericState)
      → Terminated o pos
      → Ends o (NoMore o pos) (lex_one_constant_numeric_finalize span pos s)
  unfolding lex_one_constant_numeric_finalize
  finalize-NoMore span pos s t =
      Ends-if o (NoMore o pos) (found_sep s) _ _
        (λ e.
          Ends-guard o (NoMore o pos) (not (malformed s)) lex_float_exponent_no_digits
            (ok (span, pos)) refl (omega arith, t))
        λ e.
          Ends-bind o (NoMore o pos) (NoMore o pos) (suffix_span pos) _ (suffix_span-NoMore pos t)
            λ r h. h

  pub lex_one_constant_numeric-Fewer :
      (c : ℕ) (rest : List ℕ)
      → (isdigit c || isdot c) ≡ true
      → Terminated o (c ∷ rest)
      → Ends o (Fewer o (c ∷ rest)) (lex_one_constant_numeric (c ∷ rest))
  unfolding lex_one_constant_numeric
  lex_one_constant_numeric-Fewer c rest d t =
      let h = numeric_span-Fewer c rest d t in
      Ends-map o (NoMore o (numeric_span (c ∷ rest) no_sep).1) (Fewer o (c ∷ rest)) _
        (λ r n. (omega (arith, n.0, h.0), n.1))
        (finalize-NoMore (numeric_span (c ∷ rest) no_sep).0 (numeric_span (c ∷ rest) no_sep).1
          (numeric_span (c ∷ rest) no_sep).2 h.1)
