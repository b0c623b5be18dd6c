-- ===== src/Lex/Chars.antt =====
-- The classes of bytes that passes/lex.c tells apart: those of <ctype.h> in the C locale, and its
-- own.
use enqcc.Base.{
  ℕ, ◌-◌, Bool, false, ◌&&◌, ◌||◌, leb, ◌==◌, if◌then◌else◌, List, [], ◌∷◌, Result, ok, err,
  out_of_bounds_read,
}
use enqcc.Lex.Tokens.{TokenType, constant_char, constant_str}

abbrev pub isspace : ℕ → Bool
isspace c = c == 32 || leb 9 c && leb c 13

abbrev pub isdigit : ℕ → Bool
isdigit c = leb b'0' c && leb c b'9'

abbrev pub isupper : ℕ → Bool
isupper c = leb b'A' c && leb c b'Z'

abbrev pub islower : ℕ → Bool
islower c = leb b'a' c && leb c b'z'

abbrev pub isalpha : ℕ → Bool
isalpha c = isupper c || islower c

abbrev pub isalnum : ℕ → Bool
isalnum c = isalpha c || isdigit c

abbrev pub toupper : ℕ → ℕ
toupper c = if islower c then c - 32 else c

abbrev pub decimal_point : ℕ
decimal_point = b'.'

abbrev pub e_notation_char : ℕ
e_notation_char = b'E'

abbrev pub isdot : ℕ → Bool
isdot c = c == decimal_point

abbrev pub issign : ℕ → Bool
issign c = c == b'+' || c == b'-'

-- The conditions on the first and on the other bytes of an identifier in lex_one_token.
abbrev pub starts_identifier : ℕ → Bool
starts_identifier c = isalpha c || c == b'_'

abbrev pub continues_identifier : ℕ → Bool
continues_identifier c = isalnum c || c == b'_'

abbrev pub is_quote_single : ℕ → Bool
is_quote_single c = c == 39

abbrev pub is_quote_double : ℕ → Bool
is_quote_double c = c == 34

abbrev pub is_delimiter : TokenType → ℕ → Bool
is_delimiter constant_char c = is_quote_single c
is_delimiter constant_str c = is_quote_double c
is_delimiter _ c = false

abbrev pub is_newline : ℕ → Bool
is_newline c = c == 10

abbrev pub is_backslash : ℕ → Bool
is_backslash c = c == 92

-- *pos->data, which the source also reads when nothing is left of the file
abbrev pub byte_at : List ℕ → Result ℕ
byte_at [] = err out_of_bounds_read
byte_at (c ∷ rest) = ok c
