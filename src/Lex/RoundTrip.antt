-- ===== src/Lex/RoundTrip.antt =====
-- The lexer of passes/lex.c reads the tokens that are written back.
pub mod Integers
pub mod Strlike
pub mod Neighbours
pub mod File
use enqcc.Base.{
  ℕ, zero, suc, ◌+◌, ◌≤◌, ◌<◌, ◌==◌, ◌≡◌, refl, sym, ap, ◌∙◌, Bool, true, false, not, ◌&&◌, ◌||◌,
  if◌then◌else◌, Bool-cases, inl, inr, Option, none, some, List, [], ◌∷◌, ◌++◌, map, length, arith,
  Result, ok, err, ◌>>=◌, ◌>>◌,
}
use enqcc.Lex.Tokens.{
  TokenType, Token, identifier, constant, constant_char, constant_str, paren_open,
}
use enqcc.Lex.Chars.{
  isspace, isdigit, isdot, toupper, starts_identifier, continues_identifier, is_quote_single,
  is_quote_double, byte_at,
}
use enqcc.Lex.Operators.{early_match, lex_char_type, lex_readahead_one_or_two_chars}
use enqcc.Lex.Words.{lex_keyword, find_keyword, lex_one_token_keyword_maybe, identifier_span}
use enqcc.Lex.{token, lex_operator, lex_word, lex_numeric, lex_other, lex_peek_ok, lex_one_token}
use enqcc.Lex.Spelling.{
  spelling, fixed_text, is_long, is_unsigned, is_suffix, is_digits_then_suffix, is_integer,
  punctuation, keywords, spelt, all_bytes, is_word, spells, is_text, merges, merges_next,
}
use enqcc.Lang.Symbol.{Name, name_eq}

-- Punctuation and keywords.
abbrev pub is_spelt : TokenType → Bool
is_spelt identifier = false
is_spelt constant = false
is_spelt constant_char = false
is_spelt constant_str = false
is_spelt t = true

pub lex_spelt :
    (t : TokenType) (rest : List ℕ)
    → is_spelt t ≡ true
    → lex_one_token (spelling t ++ 32 ∷ rest) ≡ ok (token t (fixed_text t), 32 ∷ rest)
unfolding lex_one_token lex_operator lex_readahead_one_or_two_chars lex_other lex_word early_match
    identifier_span lex_one_token_keyword_maybe find_keyword name_eq lex_peek_ok
lex_spelt identifier rest h = cc
lex_spelt constant rest h = cc
lex_spelt constant_char rest h = cc
lex_spelt constant_str rest h = cc
lex_spelt _ rest h = refl

pub and_split : (a b : Bool) → (a && b) ≡ true → (a ≡ true) × (b ≡ true)
and_split true b h = (refl, h)
and_split false b h = cc

identifier_span-all_bytes :
    (name rest : List ℕ)
    → all_bytes continues_identifier name ≡ true
    → identifier_span (name ++ 32 ∷ rest) ≡ ok (name, 32 ∷ rest)
unfolding identifier_span all_bytes
identifier_span-all_bytes [] rest h = refl
identifier_span-all_bytes (c ∷ name) rest h = elim (Bool-cases (continues_identifier c)) [
  | inl e ↦ rw (e, identifier_span-all_bytes name rest (rw e at h)) refl
  | inr e ↦ cc (rw e at h)
]

find_keyword-spells :
    (words : List TokenType) (name : Name)
    → spells words name ≡ false
    → find_keyword (map spelt words) name ≡ identifier
unfolding find_keyword spells
find_keyword-spells [] name h = refl
find_keyword-spells (t ∷ words) name h = elim (Bool-cases (name_eq (spelling t) name)) [
  | inl e ↦ cc (rw e at h)
  | inr e ↦ rw e (find_keyword-spells words name (rw e at h))
]

pub lex_word_byte :
    (c : ℕ) (rest : List ℕ)
    → starts_identifier c ≡ true
    → lex_one_token (c ∷ rest) ≡ lex_word c rest
unfolding lex_one_token lex_other early_match
lex_word_byte c rest h = ground arith

pub lex_identifier :
    (c : ℕ) (name rest : List ℕ)
    → is_word (c ∷ name) ≡ true
    → spells keywords (c ∷ name) ≡ false
    → lex_one_token (c ∷ name ++ 32 ∷ rest) ≡ ok (token identifier (c ∷ name), 32 ∷ rest)
unfolding lex_word lex_peek_ok lex_one_token_keyword_maybe
lex_identifier c name rest h k =
    let (first, others) = and_split (starts_identifier c) (all_bytes continues_identifier name) h in
    lex_word_byte c (name ++ 32 ∷ rest) first
    ∙ rw (identifier_span-all_bytes name rest others, find_keyword-spells keywords (c ∷ name) k)
        refl
