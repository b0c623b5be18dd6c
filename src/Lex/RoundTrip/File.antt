-- ===== src/Lex/RoundTrip/File.antt =====
-- lex_init of passes/lex.c reads the files that are written back.
use enqcc.Base.{
  ℕ, zero, suc, ◌<◌, ◌≡◌, refl, Bool, true, false, not, none, List, [], ◌∷◌, ◌++◌, length,
  length-append, arith, ok,
}
use mathlib.Core.List.{append_assoc}
use enqcc.Lang.Symbol.{name_eq}
use enqcc.Lang.Symbol.Scope.{name_eq-eq}
use enqcc.Lex.Tokens.{TokenType, Token, identifier, constant, constant_char, constant_str}
use enqcc.Lex.Chars.{isspace, isdigit, starts_identifier}
use enqcc.Lex.Operators.{early_match}
use enqcc.Lex.Strlike.{next_literal, lex_one_strlike_check_size}
use enqcc.Lex.{token, lex_strlike, lex_other, lex_one_token, lex_tokens, lex_init}
use enqcc.Lex.Spelling.{
  spelling, fixed_text, escaped, written_as, written, is_text, is_word, merges, merges_next,
  are_writable,
}
use enqcc.Lex.RoundTrip.{is_spelt, lex_spelt, lex_identifier, and_split}
use enqcc.Lex.RoundTrip.Integers.{lex_integer}
use enqcc.Lex.RoundTrip.Strlike.{delimiter, is_literal, lex_one_strlike-escaped}

-- A token's first byte is no white space.
abbrev starts_token : List ℕ → Bool
starts_token [] = false
starts_token (c ∷ rest) = not (isspace c)

starts_identifier-isspace : (c : ℕ) → starts_identifier c ≡ true → not (isspace c) ≡ true
starts_identifier-isspace c h = ground arith

isdigit-isspace : (c : ℕ) → isdigit c ≡ true → not (isspace c) ≡ true
isdigit-isspace c h = ground arith

written_as-starts_token :
    (t : TokenType) (val rest : List ℕ)
    → is_text t val ≡ true
    → starts_token (written_as t val ++ rest) ≡ true
written_as-starts_token identifier [] rest h = cc
written_as-starts_token identifier (c ∷ name) rest h =
    starts_identifier-isspace c
      (and_split (starts_identifier c) _ (and_split (is_word (c ∷ name)) _ h).0).0
written_as-starts_token constant [] rest h = cc
written_as-starts_token constant (c ∷ val) rest h = isdigit-isspace c (and_split (isdigit c) _ h).0
written_as-starts_token _ val rest h = refl

-- What is written for a token starts no literal that the literal before it would take in.
next_literal_identifier :
    (t : TokenType) (c : ℕ) (rest : List ℕ)
    → starts_identifier c ≡ true
    → next_literal t (c ∷ rest) ≡ none
unfolding next_literal
next_literal_identifier t c rest h = ground arith

next_literal_digit :
    (t : TokenType) (c : ℕ) (rest : List ℕ) → isdigit c ≡ true → next_literal t (c ∷ rest) ≡ none
unfolding next_literal
next_literal_digit t c rest h = ground arith

next_literal_char :
    (u : TokenType) (val rest : List ℕ)
    → merges constant_char u ≡ false
    → is_text u val ≡ true
    → next_literal constant_char (written_as u val ++ rest) ≡ none
unfolding next_literal
next_literal_char identifier [] rest m h = cc
next_literal_char identifier (c ∷ name) rest m h =
    next_literal_identifier constant_char c (name ++ rest)
      (and_split (starts_identifier c) _ (and_split (is_word (c ∷ name)) _ h).0).0
next_literal_char constant [] rest m h = cc
next_literal_char constant (c ∷ val) rest m h =
    next_literal_digit constant_char c (val ++ rest) (and_split (isdigit c) _ h).0
next_literal_char constant_char val rest m h = cc
next_literal_char _ val rest m h = refl

next_literal_str :
    (u : TokenType) (val rest : List ℕ)
    → merges constant_str u ≡ false
    → is_text u val ≡ true
    → next_literal constant_str (written_as u val ++ rest) ≡ none
unfolding next_literal
next_literal_str identifier [] rest m h = cc
next_literal_str identifier (c ∷ name) rest m h =
    next_literal_identifier constant_str c (name ++ rest)
      (and_split (starts_identifier c) _ (and_split (is_word (c ∷ name)) _ h).0).0
next_literal_str constant [] rest m h = cc
next_literal_str constant (c ∷ val) rest m h =
    next_literal_digit constant_str c (val ++ rest) (and_split (isdigit c) _ h).0
next_literal_str constant_str val rest m h = cc
next_literal_str _ val rest m h = refl

next_literal-written_as :
    (t u : TokenType) (val rest : List ℕ)
    → is_literal t ≡ true
    → merges t u ≡ false
    → is_text u val ≡ true
    → next_literal t (written_as u val ++ rest) ≡ none
next_literal-written_as constant_char u val rest l = next_literal_char u val rest
next_literal-written_as constant_str u val rest l = next_literal_str u val rest
next_literal-written_as _ u val rest l = cc

next_literal-written :
    (t : TokenType) (toks : List Token)
    → is_literal t ≡ true
    → merges_next t toks ≡ false
    → are_writable toks ≡ true
    → next_literal t (32 ∷ written toks) ≡ none
unfolding next_literal written are_writable
next_literal-written t [] l m w = refl
next_literal-written t (tok ∷ toks) l m w =
    rw
      (next_literal-written_as t tok.token_type tok.val (32 ∷ written toks) l m
        (and_split (is_text tok.token_type tok.val) _ w).0)
      refl

check_size-is_text :
    (t : TokenType) (val : List ℕ)
    → is_literal t ≡ true
    → is_text t val ≡ true
    → lex_one_strlike_check_size t val ≡ ok tt
check_size-is_text constant_char [] l h = cc
check_size-is_text constant_char (c ∷ []) l h = refl
check_size-is_text constant_char (c ∷ d ∷ val) l h = absurd (ground arith)
check_size-is_text constant_str val l h = refl
check_size-is_text _ val l h = cc

-- A literal in front of a space.
lex_literal :
    (t : TokenType) (val rest : List ℕ)
    → is_literal t ≡ true
    → is_text t val ≡ true
    → next_literal t (32 ∷ rest) ≡ none
    → lex_strlike t ((escaped val ++ delimiter t ∷ []) ++ 32 ∷ rest) ≡ ok (token t val, 32 ∷ rest)
unfolding lex_strlike
lex_literal t val rest l h n =
    rw
      (
        append_assoc (escaped val) (delimiter t ∷ []) (32 ∷ rest),
        lex_one_strlike-escaped t val (32 ∷ rest) l n,
        check_size-is_text t val l h,
      )
      refl

refuted : (b : Bool) → not b ≡ true → b ≡ false
refuted true h = cc
refuted false h = refl

lex_fixed :
    (t : TokenType) (val rest : List ℕ)
    → is_spelt t ≡ true
    → name_eq val (fixed_text t) ≡ true
    → lex_one_token (spelling t ++ 32 ∷ rest) ≡ ok (token t val, 32 ∷ rest)
lex_fixed t val rest s h = rw (name_eq-eq val (fixed_text t) h) (lex_spelt t rest s)

lex_one_token-written_as :
    (t : TokenType) (val rest : List ℕ)
    → is_text t val ≡ true
    → (is_literal t ≡ true → next_literal t (32 ∷ rest) ≡ none)
    → lex_one_token (written_as t val ++ 32 ∷ rest) ≡ ok (token t val, 32 ∷ rest)
lex_one_token-written_as identifier [] rest h n = cc
lex_one_token-written_as identifier (c ∷ name) rest h n =
    let (w, k) = and_split (is_word (c ∷ name)) _ h in lex_identifier c name rest w (refuted _ k)
lex_one_token-written_as constant [] rest h n = cc
lex_one_token-written_as constant (c ∷ val) rest h n =
    let (d, v) = and_split (isdigit c) _ h in lex_integer c val rest d v
lex_one_token-written_as constant_char val rest h n =
    unfold lex_one_token lex_other early_match in lex_literal constant_char val rest refl h (n refl)
lex_one_token-written_as constant_str val rest h n =
    unfold lex_one_token lex_other early_match in lex_literal constant_str val rest refl h (n refl)
lex_one_token-written_as t val rest h n = lex_fixed t val rest refl h

lex_tokens_round :
    (fuel : ℕ) (pos rest : List ℕ) (tok : Token) (toks : List Token)
    → starts_token pos ≡ true
    → lex_one_token pos ≡ ok (tok, 32 ∷ rest)
    → lex_tokens fuel rest ≡ ok toks
    → lex_tokens (suc (suc fuel)) pos ≡ ok (tok ∷ toks)
unfolding lex_tokens
lex_tokens_round fuel [] rest tok toks s e h = cc
lex_tokens_round fuel (c ∷ pos) rest tok toks s e h = rw (refuted (isspace c) s, e, h) refl

starts_token-length : (pos : List ℕ) → starts_token pos ≡ true → 0 < length pos
starts_token-length [] h = cc
starts_token-length (c ∷ pos) h = omega arith

-- A token takes a byte at least, and the space behind it another.
written_as-length :
    (t : TokenType) (val rest : List ℕ)
    → is_text t val ≡ true
    → suc (length rest) < length (written_as t val ++ 32 ∷ rest)
written_as-length t val rest h = omega (
  arith,
  starts_token-length (written_as t val ++ []) (written_as-starts_token t val [] h),
  length-append (written_as t val) [],
  length-append (written_as t val) (32 ∷ rest),
)

lex_tokens-written :
    (fuel : ℕ) (toks : List Token)
    → are_writable toks ≡ true
    → length (written toks) < fuel
    → lex_tokens fuel (written toks) ≡ ok toks
unfolding written are_writable lex_tokens
lex_tokens-written zero toks w h = absurd (omega (arith, h))
lex_tokens-written (suc fuel) [] w h = refl
lex_tokens-written (suc zero) (tok ∷ toks) w h = absurd (
    omega (
      arith,
      h,
      written_as-length tok.token_type tok.val (written toks)
          (and_split (is_text tok.token_type tok.val) _ w).0,
    ))
lex_tokens-written (suc (suc fuel)) (tok ∷ toks) w h =
    let (text, others) = and_split (is_text tok.token_type tok.val) _ w in
    let (apart, rest) = and_split (not (merges_next tok.token_type toks)) _ others in
    let starts = written_as-starts_token tok.token_type tok.val (32 ∷ written toks) text in
    lex_tokens_round fuel _ (written toks) tok toks starts
      (lex_one_token-written_as tok.token_type tok.val (written toks) text
        λ l. next_literal-written tok.token_type toks l (refuted _ apart) rest)
      (lex_tokens-written fuel toks rest
        (omega (arith, h, written_as-length tok.token_type tok.val (written toks) text)))

-- The tokens of a file that is written with a space behind each token are read back: punctuation
-- and keywords, identifiers that are no keyword, integer constants with their suffixes, character
-- constants and string literals of any bytes, escaped where need be. No literal may stand next to
-- another of its type, since the lexer makes one of these.
pub lex_init-written :
    (toks : List Token) → are_writable toks ≡ true → lex_init (written toks) ≡ ok toks
unfolding lex_init
lex_init-written toks w = lex_tokens-written (suc (length (written toks))) toks w (omega arith)
