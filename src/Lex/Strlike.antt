-- ===== src/Lex/Strlike.antt =====
-- passes/lex.c: string literals and character constants.
use enqcc.Base.{
  ℕ, zero, suc, Bool, true, false, not, ◌||◌, ◌==◌, if◌then◌else◌, Option, none, some, List, [],
  ◌∷◌, ◌++◌, length, Result, ok, err, ◌>>=◌, ◌>>◌, assert, out_of_bounds_read, out_of_fuel,
  lex_char_expect_more, lex_char_invalid_newline, lex_char_escape_invalid, lex_char_invalid_empty,
  lex_char_invalid_multichar,
}
use enqcc.Lex.Chars.{isspace, is_delimiter, is_newline, is_backslash}
use enqcc.Lex.Tokens.{TokenType, constant_char}

-- NUL for a byte that no escape sequence has.
abbrev pub map_escape_char : ℕ → ℕ
map_escape_char c =
    if c == 39
    then 39
    else if c == 34
    then 34
    else if c == b'?'
    then b'?'
    else if c == 92
    then 92
    else if c == b'a'
    then 7
    else if c == b'b'
    then 8
    else if c == b'f'
    then 12
    else if c == b'n'
    then 10
    else if c == b'r'
    then 13
    else if c == b't'
    then 9
    else if c == b'v'
    then 11
    else 0

abbrev pub is_valid_escape_char : ℕ → Bool
is_valid_escape_char c = not (map_escape_char c == 0)

-- The loop of map_span_to_strlike with its two flags, and the assertions behind it.
unfoldable pub map_span : TokenType → List ℕ → (escaped between_neighbors : Bool) → Result (List ℕ)
map_span t [] escaped between_neighbors = do
  assert (not escaped)
  assert (not between_neighbors)
  ok []
map_span t (c ∷ src) escaped true =
    if is_delimiter t c
    then map_span t src escaped false
    else (do assert (isspace c); map_span t src escaped true)
map_span t (c ∷ src) true false = do out ← map_span t src false false; ok (map_escape_char c ∷ out)
map_span t (c ∷ src) false false =
    if is_delimiter t c
    then map_span t src false true
    else if is_backslash c
    then map_span t src true false
    else (do out ← map_span t src false false; ok (c ∷ out))

unfoldable pub map_span_to_strlike : TokenType → List ℕ → Result (List ℕ)
map_span_to_strlike t src = map_span t src false false

-- The `for` loop behind a delimiter: whether another literal follows behind white space; then the
-- bytes up to its delimiter, and those behind it.
unfoldable pub next_literal : TokenType → List ℕ → Option (List ℕ × List ℕ)
next_literal t [] = none
next_literal t (peek ∷ rest) =
    let later = next_literal t rest in
    if isspace peek
    then elim later [ none ↦ none | some (span, after) ↦ some (peek ∷ span, after) ]
    else if is_delimiter t peek
    then some (peek ∷ [], rest)
    else none

-- What the loop of lex_one_strlike gives: the raw text, whether it is to be mapped, and the bytes
-- behind the last delimiter.
pub record Raw : Type 0 where
  pub text : List ℕ
  pub deepcopy : Bool
  pub after : List ℕ

abbrev pub prefixed : List ℕ → Bool → Raw → Raw
prefixed span copied raw = record {
  text = span ++ raw.text;
  deepcopy = copied || raw.deepcopy;
  after = raw.after;
}

-- The byte behind a backslash; the test of `pos->sz` stands in front of the step over the
-- backslash, so this byte is read also behind the end of the file.
unfoldable pub escape_char : List ℕ → Result (ℕ × List ℕ)
escape_char [] = err out_of_bounds_read
escape_char (c ∷ rest) =
    if is_valid_escape_char c then ok (c, rest) else err lex_char_escape_invalid

-- The loop of lex_one_strlike. Each round takes a byte at least, so that as much fuel as there are
-- bytes, and one more, is enough.
unfoldable pub strlike_span : ℕ → TokenType → List ℕ → Result Raw
unfolding escape_char
strlike_span zero t pos = err out_of_fuel
strlike_span (suc fuel) t [] = err lex_char_expect_more
strlike_span (suc fuel) t (c ∷ rest) =
    if is_delimiter t c
    then elim (next_literal t rest) [
      | none ↦ ok (record { text = []; deepcopy = false; after = rest })
      | some (span, after) ↦ do raw ← strlike_span fuel t after; ok (prefixed (c ∷ span) true raw)
    ]
    else if is_newline c
    then err lex_char_invalid_newline
    else if is_backslash c
    then (do
      (e, after) ← escape_char rest
      raw ← strlike_span fuel t after
      ok (prefixed (c ∷ e ∷ []) true raw))
    else (do raw ← strlike_span fuel t rest; ok (prefixed (c ∷ []) false raw))

abbrev pub lex_one_strlike_check_size : TokenType → List ℕ → Result (Unit {0})
lex_one_strlike_check_size constant_char [] = err lex_char_invalid_empty
lex_one_strlike_check_size constant_char (c ∷ d ∷ val) = err lex_char_invalid_multichar
lex_one_strlike_check_size _ val = ok tt

-- lex_one_strlike behind the opening delimiter, together with the step over the closing one.
unfoldable pub lex_one_strlike : TokenType → List ℕ → Result (List ℕ × List ℕ)
unfolding map_span_to_strlike
lex_one_strlike t pos = do
  raw ← strlike_span (suc (length pos)) t pos
  val ← (if raw.deepcopy then map_span_to_strlike t raw.text else ok raw.text)
  lex_one_strlike_check_size t val
  ok (val, raw.after)
