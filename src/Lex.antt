-- ===== src/Lex.antt =====
-- passes/lex.c: from the bytes of a source file to tokens.
pub mod Tokens
pub mod Chars
pub mod Operators
pub mod Words
pub mod Numeric
pub mod Strlike
pub mod Total
pub mod Spelling
pub mod Munch
pub mod EndOfFile
pub mod RoundTrip
use enqcc.Base.{
  ℕ, zero, suc, Bool, true, false, ◌&&◌, ◌||◌, if◌then◌else◌, Option, none, some, List, [], ◌∷◌,
  length, Result, ok, err, ◌>>=◌, ◌>>◌, guard, out_of_bounds_read, out_of_fuel, lex_no_match,
  lex_identifier_constant_keyword_peek_error,
}
use enqcc.Lex.Tokens.{TokenType, Token, constant, constant_char, constant_str}
use enqcc.Lex.Chars.{
  isspace, isdigit, isdot, starts_identifier, is_quote_single, is_quote_double, byte_at,
}
use enqcc.Lex.Operators.{lex_char_type, lex_readahead_one_or_two_chars}
use enqcc.Lex.Words.{identifier_span, lex_one_token_keyword_maybe}
use enqcc.Lex.Numeric.{lex_one_constant_numeric}
use enqcc.Lex.Strlike.{lex_one_strlike}

abbrev pub is_some {ℓ} : {A : Type ℓ} → Option A → Bool
is_some none = false
is_some (some a) = true

-- White space or punctuation may stand behind a constant, a keyword or an identifier.
abbrev pub peek_allowed : ℕ → Bool
peek_allowed c = isspace c || is_some (lex_char_type c)

unfoldable pub lex_peek_ok : List ℕ → Result (Unit {0})
lex_peek_ok pos = do
  c ← byte_at pos
  guard (peek_allowed c) lex_identifier_constant_keyword_peek_error

abbrev pub drop {ℓ} : {A : Type ℓ} → ℕ → List A → List A
drop zero xs = xs
drop (suc n) [] = []
drop (suc n) (x ∷ xs) = drop n xs

abbrev pub token : TokenType → List ℕ → Token
token t val = record { token_type = t; val = val }

-- The branches of lex_one_token. Each gives the token and the bytes behind it.
unfoldable pub lex_operator : ℕ → List ℕ → TokenType → Token × List ℕ
unfolding lex_readahead_one_or_two_chars
lex_operator c rest t =
    let (t', ahead) = lex_readahead_one_or_two_chars (c ∷ rest) t in (token t' [], drop ahead rest)

unfoldable pub lex_strlike : TokenType → List ℕ → Result (Token × List ℕ)
lex_strlike t rest = do (val, after) ← lex_one_strlike t rest; ok (token t val, after)

unfoldable pub lex_numeric : List ℕ → Result (Token × List ℕ)
unfolding lex_peek_ok
lex_numeric pos = do
  (val, after) ← lex_one_constant_numeric pos
  lex_peek_ok after
  ok (token constant val, after)

unfoldable pub lex_word : ℕ → List ℕ → Result (Token × List ℕ)
unfolding lex_peek_ok
lex_word c rest = do
  (name, after) ← identifier_span rest
  lex_peek_ok after
  ok (token (lex_one_token_keyword_maybe (c ∷ name)) (c ∷ name), after)

unfoldable pub lex_other : ℕ → List ℕ → Result (Token × List ℕ)
lex_other c rest =
    if is_quote_single c
    then lex_strlike constant_char rest
    else if is_quote_double c
    then lex_strlike constant_str rest
    else if isdigit c || isdot c
    then lex_numeric (c ∷ rest)
    else if starts_identifier c
    then lex_word c rest
    else err lex_no_match

-- The rest of lex_one_token, by what the first table gives for the first byte.
abbrev pub lex_by_type : ℕ → List ℕ → Option TokenType → Result (Token × List ℕ)
lex_by_type c rest (some t) = ok (lex_operator c rest t)
lex_by_type c rest none = lex_other c rest

unfoldable pub lex_one_token : List ℕ → Result (Token × List ℕ)
unfolding lex_operator lex_other
lex_one_token [] = err out_of_bounds_read
lex_one_token (c ∷ rest) = lex_by_type c rest (lex_char_type c)

-- The loop of lex_init. Each round takes a byte at least.
unfoldable pub lex_tokens : ℕ → List ℕ → Result (List Token)
lex_tokens zero code = err out_of_fuel
lex_tokens (suc fuel) [] = ok []
lex_tokens (suc fuel) (c ∷ rest) =
    if isspace c
    then lex_tokens fuel rest
    else (do (tok, after) ← lex_one_token (c ∷ rest); toks ← lex_tokens fuel after; ok (tok ∷ toks))

-- lex_init, given the bytes of the file
unfoldable pub lex_init : List ℕ → Result (List Token)
lex_init code = lex_tokens (suc (length code)) code
