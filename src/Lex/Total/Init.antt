-- ===== src/Lex/Total/Init.antt =====
-- lex_one_token and lex_init of passes/lex.c: every call ends.
use enqcc.Base.{
  ℕ, zero, suc, ◌≤◌, ◌<◌, ◌≡◌, refl, Bool, true, false, not, ◌||◌, Option, none, some, List, [],
  ◌∷◌, length, ok, ◌>>◌, Ends, Ends-bind, Ends-guard, Ends-if, arith,
  lex_identifier_constant_keyword_peek_error,
}
use enqcc.Lex.Tokens.{TokenType, Token, constant_char, constant_str}
use enqcc.Lex.Chars.{isspace, isdigit, isdot, starts_identifier, is_quote_single, is_quote_double}
use enqcc.Lex.Operators.{lex_char_type}
use enqcc.Lex.Words.{identifier_span}
use enqcc.Lex.Numeric.{lex_one_constant_numeric}
use enqcc.Lex.Strlike.{lex_one_strlike}
use enqcc.Lex.{
  drop, peek_allowed, lex_peek_ok, lex_operator, lex_strlike, lex_numeric, lex_word, lex_other,
  lex_by_type, lex_one_token, lex_tokens, lex_init,
}
use enqcc.Lex.Total.{
  closed, Closed, Closed-tail, Terminated, Terminated-tail, Terminated-nil, Terminated-Closed,
  NoMore, Fewer, identifier_span-NoMore, lex_one_constant_numeric-Fewer,
}
use enqcc.Lex.Total.Strlike.{Behind, lex_one_strlike-Behind}

length-drop_le {ℓ} : {A : Type ℓ} (n : ℕ) (xs : List A) → length (drop n xs) ≤ length xs
length-drop_le zero xs = omega arith
length-drop_le (suc n) [] = omega arith
length-drop_le (suc n) (x ∷ xs) = omega (arith, length-drop_le n xs)

Closed-drop : (o : Bool) (n : ℕ) (pos : List ℕ) → Closed o pos → Closed o (drop n pos)
Closed-drop o zero pos k = k
Closed-drop o (suc n) [] k = k
Closed-drop o (suc n) (c ∷ rest) k = Closed-drop o n rest (Closed-tail o c rest k)

-- Behind a keyword, an identifier or a number there is a byte to peek at.
peek-Ends :
    (o : Bool) (P : Token × List ℕ → Type 0) (pos : List ℕ) (r : Token × List ℕ)
    → Terminated o pos
    → P r
    → Ends o P (lex_peek_ok pos >> ok r)
unfolding lex_peek_ok
peek-Ends o P [] r t h = Terminated-nil o t
peek-Ends o P (c ∷ pos) r t h =
    Ends-guard o P (peek_allowed c) lex_identifier_constant_keyword_peek_error (ok r) refl h

isdigit-isspace : (c : ℕ) → (isdigit c || isdot c) ≡ true → isspace c ≡ false
isdigit-isspace c h = ground arith

starts_identifier-isspace : (c : ℕ) → starts_identifier c ≡ true → isspace c ≡ false
starts_identifier-isspace c h = ground arith

module _ (o : Bool) where
  lex_strlike-Behind :
      (t : TokenType) (c : ℕ) (rest : List ℕ)
      → Closed o rest
      → Ends o (Behind o (c ∷ rest)) (lex_strlike t rest)
  unfolding lex_strlike
  lex_strlike-Behind t c rest k =
      Ends-bind o (Behind o rest) (Behind o (c ∷ rest)) (lex_one_strlike t rest) _
        (lex_one_strlike-Behind o t rest k) λ r h. (omega (arith, h.0), h.1)

  lex_numeric-Behind :
      (c : ℕ) (rest : List ℕ)
      → (isdigit c || isdot c) ≡ true
      → Terminated o (c ∷ rest)
      → Ends o (Behind o (c ∷ rest)) (lex_numeric (c ∷ rest))
  unfolding lex_numeric
  lex_numeric-Behind c rest d k =
      Ends-bind o (Fewer o (c ∷ rest)) (Behind o (c ∷ rest)) (lex_one_constant_numeric (c ∷ rest)) _
        (lex_one_constant_numeric-Fewer o c rest d k)
        λ r h. peek-Ends o (Behind o (c ∷ rest)) r.1 _ h.1 (h.0, Terminated-Closed o r.1 h.1)

  lex_word-Behind :
      (c : ℕ) (rest : List ℕ) → Terminated o rest → Ends o (Behind o (c ∷ rest)) (lex_word c rest)
  unfolding lex_word
  lex_word-Behind c rest k =
      Ends-bind o (NoMore o rest) (Behind o (c ∷ rest)) (identifier_span rest) _
        (identifier_span-NoMore o rest k)
        λ r h.
          peek-Ends o (Behind o (c ∷ rest)) r.1 _ h.1
            (omega (arith, h.0), Terminated-Closed o r.1 h.1)

  lex_other-Behind :
      (c : ℕ) (rest : List ℕ)
      → Closed o (c ∷ rest)
      → Ends o (Behind o (c ∷ rest)) (lex_other c rest)
  unfolding lex_other
  lex_other-Behind c rest k =
      let k' = Closed-tail o c rest k in
      Ends-if o (Behind o (c ∷ rest)) (is_quote_single c) _ _
        (λ e. lex_strlike-Behind constant_char c rest k')
        λ e.
          Ends-if o (Behind o (c ∷ rest)) (is_quote_double c) _ _
            (λ e'. lex_strlike-Behind constant_str c rest k')
            λ e'.
              Ends-if o (Behind o (c ∷ rest)) (isdigit c || isdot c) _ _
                (λ d. lex_numeric-Behind c rest d k)
                λ d.
                  Ends-if o (Behind o (c ∷ rest)) (starts_identifier c) _ _
                    (λ s.
                      lex_word-Behind c rest
                        (Terminated-tail o c rest (starts_identifier-isspace c s) k))
                    λ s. refl

  lex_by_type-Behind :
      (c : ℕ) (rest : List ℕ) (t : Option TokenType)
      → Closed o (c ∷ rest)
      → Ends o (Behind o (c ∷ rest)) (lex_by_type c rest t)
  unfolding lex_operator
  lex_by_type-Behind c rest (some t) k =
      (omega (arith, length-drop_le _ rest), Closed-drop o _ rest (Closed-tail o c rest k))
  lex_by_type-Behind c rest none k = lex_other-Behind c rest k

  lex_one_token-Behind :
      (c : ℕ) (rest : List ℕ)
      → Closed o (c ∷ rest)
      → Ends o (Behind o (c ∷ rest)) (lex_one_token (c ∷ rest))
  unfolding lex_one_token
  lex_one_token-Behind c rest k = lex_by_type-Behind c rest (lex_char_type c) k

  lex_tokens-Ends :
      (fuel : ℕ) (code : List ℕ)
      → length code < fuel
      → Closed o code
      → Ends o (λ toks. Unit) (lex_tokens fuel code)
  unfolding lex_tokens
  lex_tokens-Ends zero code h k = absurd (omega arith)
  lex_tokens-Ends (suc fuel) [] h k = tt
  lex_tokens-Ends (suc fuel) (c ∷ rest) h k =
      Ends-if o (λ toks. Unit) (isspace c) _ _
        (λ s. lex_tokens-Ends fuel rest (omega (arith, h)) (Closed-tail o c rest k))
        λ s.
          Ends-bind o (Behind o (c ∷ rest)) (λ toks. Unit) (lex_one_token (c ∷ rest)) _
            (lex_one_token-Behind c rest k)
            λ r l.
              Ends-bind o (λ toks. Unit) (λ toks. Unit) (lex_tokens fuel r.1) _
                (lex_tokens-Ends fuel r.1 (omega (arith, h, l.0)) l.1) λ toks u. tt

or_not_left : (b : Bool) → (not b || b) ≡ true
or_not_left true = refl
or_not_left false = refl

-- On every file, the lexer gives tokens or reports an error: no assertion fails, no NULL pointer is
-- used, and the rounds of each loop end. Only of a file whose last byte is not white space does it
-- read beyond the end.
pub lex_init-Ends : (code : List ℕ) → Ends (not (closed code)) (λ toks. Unit) (lex_init code)
unfolding lex_init
lex_init-Ends code =
    lex_tokens-Ends (not (closed code)) (suc (length code)) code (omega arith)
      (or_not_left (closed code))
