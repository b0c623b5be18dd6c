-- ===== src/Lex/Operators.antt =====
-- passes/lex.c: punctuation, from the tables of passes/lex.h.
use enqcc.Base.{ℕ, Bool, false, ◌==◌, if◌then◌else◌, Option, none, some, List, [], ◌∷◌}
use enqcc.Lex.Tokens.{
  TokenType, less_than_less_than_equal_sign, more_than_more_than_equal_sign, paren_open,
  paren_close, brace_open, brace_close, square_bracket_open, square_bracket_close, semicolon, tilde,
  hyphen, plus_sign, asterisk, forward_slash, percent_sign, exclamation, ampersand, vert_bar,
  equal_sign, less_than, more_than, question, colon, comma, caret, hyphen_hyphen,
  plus_sign_plus_sign, ampersand_ampersand, vert_bar_vert_bar, equal_sign_equal_sign,
  less_than_less_than, more_than_more_than, hyphen_equal_sign, plus_sign_equal_sign,
  asterisk_equal_sign, forward_slash_equal_sign, percent_sign_equal_sign, exclamation_equal_sign,
  ampersand_equal_sign, vert_bar_equal_sign, less_than_equal_sign, more_than_equal_sign,
  caret_equal_sign,
}

-- FOREACH_LEX_CHAR
abbrev pub lex_char : List (ℕ × TokenType)
lex_char =
    (b'(', paren_open)
    ∷ (b')', paren_close)
    ∷ (b'{', brace_open)
    ∷ (b'}', brace_close)
    ∷ (b'[', square_bracket_open)
    ∷ (b']', square_bracket_close)
    ∷ (b';', semicolon)
    ∷ (b'~', tilde)
    ∷ (b'-', hyphen)
    ∷ (b'+', plus_sign)
    ∷ (b'*', asterisk)
    ∷ (b'/', forward_slash)
    ∷ (b'%', percent_sign)
    ∷ (b'!', exclamation)
    ∷ (b'&', ampersand)
    ∷ (b'|', vert_bar)
    ∷ (b'=', equal_sign)
    ∷ (b'<', less_than)
    ∷ (b'>', more_than)
    ∷ (b'?', question)
    ∷ (b':', colon)
    ∷ (b',', comma)
    ∷ (b'^', caret)
    ∷ []

-- TRY_EARLY_MATCH along a table
unfoldable pub early_match : List (ℕ × TokenType) → ℕ → Option TokenType
early_match [] c = none
early_match ((candidate, t) ∷ table) c =
    let next = early_match table c in if c == candidate then some t else next

abbrev pub lex_char_type : ℕ → Option TokenType
lex_char_type c = early_match lex_char c

-- FOREACH_LEX_CHAR_REPEAT
abbrev pub lex_char_repeat : TokenType → Option TokenType
lex_char_repeat hyphen = some hyphen_hyphen
lex_char_repeat plus_sign = some plus_sign_plus_sign
lex_char_repeat ampersand = some ampersand_ampersand
lex_char_repeat vert_bar = some vert_bar_vert_bar
lex_char_repeat equal_sign = some equal_sign_equal_sign
lex_char_repeat less_than = some less_than_less_than
lex_char_repeat more_than = some more_than_more_than
lex_char_repeat _ = none

-- FOREACH_LEX_CHAR_EQUALS_SIGN
abbrev pub lex_char_equals_sign : TokenType → Option TokenType
lex_char_equals_sign hyphen = some hyphen_equal_sign
lex_char_equals_sign plus_sign = some plus_sign_equal_sign
lex_char_equals_sign asterisk = some asterisk_equal_sign
lex_char_equals_sign forward_slash = some forward_slash_equal_sign
lex_char_equals_sign percent_sign = some percent_sign_equal_sign
lex_char_equals_sign exclamation = some exclamation_equal_sign
lex_char_equals_sign ampersand = some ampersand_equal_sign
lex_char_equals_sign vert_bar = some vert_bar_equal_sign
lex_char_equals_sign less_than = some less_than_equal_sign
lex_char_equals_sign more_than = some more_than_equal_sign
lex_char_equals_sign caret = some caret_equal_sign
lex_char_equals_sign _ = none

-- The third byte of `<<=` and `>>=`.
abbrev pub shift_equals_sign : TokenType → Option TokenType
shift_equals_sign less_than_less_than = some less_than_less_than_equal_sign
shift_equals_sign more_than_more_than = some more_than_more_than_equal_sign
shift_equals_sign _ = none

abbrev pub is_equals_sign : List ℕ → Bool
is_equals_sign [] = false
is_equals_sign (c ∷ rest) = c == b'='

-- What the readahead makes of the token type, and how many bytes it takes.
abbrev pub read_shift : TokenType → Option TokenType → TokenType × ℕ
read_shift t (some u) = (u, 2)
read_shift t none = (t, 1)

abbrev pub read_repeat : TokenType → List ℕ → Option TokenType → TokenType × ℕ
read_repeat t rest none = (t, 0)
read_repeat t rest (some u) =
    if is_equals_sign rest then read_shift u (shift_equals_sign u) else (u, 1)

abbrev pub read_equals_sign : TokenType → Option TokenType → TokenType × ℕ
read_equals_sign t none = (t, 0)
read_equals_sign t (some u) = (u, 1)

-- The bytes at the cursor, and the type of the first of them.
unfoldable pub lex_readahead_one_or_two_chars : List ℕ → TokenType → TokenType × ℕ
lex_readahead_one_or_two_chars (a ∷ b ∷ rest) t =
    if a == b
    then read_repeat t rest (lex_char_repeat t)
    else if b == b'='
    then read_equals_sign t (lex_char_equals_sign t)
    else (t, 0)
lex_readahead_one_or_two_chars _ t = (t, 0)
