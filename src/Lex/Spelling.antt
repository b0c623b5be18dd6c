-- ===== src/Lex/Spelling.antt =====
-- The tokens of passes/lex.h as they are written: what passes/lex.c is meant to read.
use enqcc.Base.{
  ℕ, ◌==◌, Bool, true, false, not, ◌&&◌, ◌||◌, if◌then◌else◌, Option, none, some, List, [], ◌∷◌,
  ◌++◌, map, length,
}
use enqcc.Lang.Symbol.{Name, name_eq}
use enqcc.Lex.Tokens.{
  TokenType, Token, identifier, constant, constant_char, constant_str,
  less_than_less_than_equal_sign, more_than_more_than_equal_sign, hyphen_hyphen,
  plus_sign_plus_sign, ampersand_ampersand, vert_bar_vert_bar, equal_sign_equal_sign,
  less_than_less_than, more_than_more_than, hyphen_equal_sign, plus_sign_equal_sign,
  asterisk_equal_sign, forward_slash_equal_sign, percent_sign_equal_sign, exclamation_equal_sign,
  ampersand_equal_sign, vert_bar_equal_sign, less_than_equal_sign, more_than_equal_sign,
  caret_equal_sign, paren_open, paren_close, brace_open, brace_close, square_bracket_open,
  square_bracket_close, semicolon, tilde, hyphen, plus_sign, asterisk, forward_slash, percent_sign,
  exclamation, ampersand, vert_bar, equal_sign, less_than, more_than, question, colon, comma, caret,
  keyword_return, keyword_sizeof, keyword_void, keyword_char, keyword_int, keyword_long,
  keyword_signed, keyword_unsigned, keyword_double, keyword_if, keyword_else, keyword_do,
  keyword_while, keyword_for, keyword_break, keyword_continue, keyword_static, keyword_extern,
  keyword_goto, keyword_switch, keyword_case, keyword_default,
}
use enqcc.Lex.Chars.{isdigit, toupper, starts_identifier, continues_identifier}
use enqcc.Lex.{drop, token}

-- The spelling of punctuation and of keywords.
abbrev pub spelling : TokenType → List ℕ
spelling less_than_less_than_equal_sign = b'<' ∷ b'<' ∷ b'=' ∷ []
spelling more_than_more_than_equal_sign = b'>' ∷ b'>' ∷ b'=' ∷ []
spelling hyphen_hyphen = b'-' ∷ b'-' ∷ []
spelling plus_sign_plus_sign = b'+' ∷ b'+' ∷ []
spelling ampersand_ampersand = b'&' ∷ b'&' ∷ []
spelling vert_bar_vert_bar = b'|' ∷ b'|' ∷ []
spelling equal_sign_equal_sign = b'=' ∷ b'=' ∷ []
spelling less_than_less_than = b'<' ∷ b'<' ∷ []
spelling more_than_more_than = b'>' ∷ b'>' ∷ []
spelling hyphen_equal_sign = b'-' ∷ b'=' ∷ []
spelling plus_sign_equal_sign = b'+' ∷ b'=' ∷ []
spelling asterisk_equal_sign = b'*' ∷ b'=' ∷ []
spelling forward_slash_equal_sign = b'/' ∷ b'=' ∷ []
spelling percent_sign_equal_sign = b'%' ∷ b'=' ∷ []
spelling exclamation_equal_sign = b'!' ∷ b'=' ∷ []
spelling ampersand_equal_sign = b'&' ∷ b'=' ∷ []
spelling vert_bar_equal_sign = b'|' ∷ b'=' ∷ []
spelling less_than_equal_sign = b'<' ∷ b'=' ∷ []
spelling more_than_equal_sign = b'>' ∷ b'=' ∷ []
spelling caret_equal_sign = b'^' ∷ b'=' ∷ []
spelling paren_open = b'(' ∷ []
spelling paren_close = b')' ∷ []
spelling brace_open = b'{' ∷ []
spelling brace_close = b'}' ∷ []
spelling square_bracket_open = b'[' ∷ []
spelling square_bracket_close = b']' ∷ []
spelling semicolon = b';' ∷ []
spelling tilde = b'~' ∷ []
spelling hyphen = b'-' ∷ []
spelling plus_sign = b'+' ∷ []
spelling asterisk = b'*' ∷ []
spelling forward_slash = b'/' ∷ []
spelling percent_sign = b'%' ∷ []
spelling exclamation = b'!' ∷ []
spelling ampersand = b'&' ∷ []
spelling vert_bar = b'|' ∷ []
spelling equal_sign = b'=' ∷ []
spelling less_than = b'<' ∷ []
spelling more_than = b'>' ∷ []
spelling question = b'?' ∷ []
spelling colon = b':' ∷ []
spelling comma = b',' ∷ []
spelling caret = b'^' ∷ []
spelling keyword_return = b'r' ∷ b'e' ∷ b't' ∷ b'u' ∷ b'r' ∷ b'n' ∷ []
spelling keyword_sizeof = b's' ∷ b'i' ∷ b'z' ∷ b'e' ∷ b'o' ∷ b'f' ∷ []
spelling keyword_void = b'v' ∷ b'o' ∷ b'i' ∷ b'd' ∷ []
spelling keyword_char = b'c' ∷ b'h' ∷ b'a' ∷ b'r' ∷ []
spelling keyword_int = b'i' ∷ b'n' ∷ b't' ∷ []
spelling keyword_long = b'l' ∷ b'o' ∷ b'n' ∷ b'g' ∷ []
spelling keyword_signed = b's' ∷ b'i' ∷ b'g' ∷ b'n' ∷ b'e' ∷ b'd' ∷ []
spelling keyword_unsigned = b'u' ∷ b'n' ∷ b's' ∷ b'i' ∷ b'g' ∷ b'n' ∷ b'e' ∷ b'd' ∷ []
spelling keyword_double = b'd' ∷ b'o' ∷ b'u' ∷ b'b' ∷ b'l' ∷ b'e' ∷ []
spelling keyword_if = b'i' ∷ b'f' ∷ []
spelling keyword_else = b'e' ∷ b'l' ∷ b's' ∷ b'e' ∷ []
spelling keyword_do = b'd' ∷ b'o' ∷ []
spelling keyword_while = b'w' ∷ b'h' ∷ b'i' ∷ b'l' ∷ b'e' ∷ []
spelling keyword_for = b'f' ∷ b'o' ∷ b'r' ∷ []
spelling keyword_break = b'b' ∷ b'r' ∷ b'e' ∷ b'a' ∷ b'k' ∷ []
spelling keyword_continue = b'c' ∷ b'o' ∷ b'n' ∷ b't' ∷ b'i' ∷ b'n' ∷ b'u' ∷ b'e' ∷ []
spelling keyword_static = b's' ∷ b't' ∷ b'a' ∷ b't' ∷ b'i' ∷ b'c' ∷ []
spelling keyword_extern = b'e' ∷ b'x' ∷ b't' ∷ b'e' ∷ b'r' ∷ b'n' ∷ []
spelling keyword_goto = b'g' ∷ b'o' ∷ b't' ∷ b'o' ∷ []
spelling keyword_switch = b's' ∷ b'w' ∷ b'i' ∷ b't' ∷ b'c' ∷ b'h' ∷ []
spelling keyword_case = b'c' ∷ b'a' ∷ b's' ∷ b'e' ∷ []
spelling keyword_default = b'd' ∷ b'e' ∷ b'f' ∷ b'a' ∷ b'u' ∷ b'l' ∷ b't' ∷ []
spelling _ = []

-- Punctuation, the longest spellings first.
abbrev pub punctuation : List TokenType
punctuation =
    less_than_less_than_equal_sign ∷ more_than_more_than_equal_sign ∷ hyphen_hyphen
    ∷ plus_sign_plus_sign ∷ ampersand_ampersand ∷ vert_bar_vert_bar ∷ equal_sign_equal_sign
    ∷ less_than_less_than ∷ more_than_more_than ∷ hyphen_equal_sign ∷ plus_sign_equal_sign
    ∷ asterisk_equal_sign ∷ forward_slash_equal_sign ∷ percent_sign_equal_sign
    ∷ exclamation_equal_sign ∷ ampersand_equal_sign ∷ vert_bar_equal_sign ∷ less_than_equal_sign
    ∷ more_than_equal_sign ∷ caret_equal_sign ∷ paren_open ∷ paren_close ∷ brace_open ∷ brace_close
    ∷ square_bracket_open ∷ square_bracket_close ∷ semicolon ∷ tilde ∷ hyphen ∷ plus_sign ∷ asterisk
    ∷ forward_slash ∷ percent_sign ∷ exclamation ∷ ampersand ∷ vert_bar ∷ equal_sign ∷ less_than
    ∷ more_than ∷ question ∷ colon ∷ comma ∷ caret ∷ []

abbrev pub keywords : List TokenType
keywords =
    keyword_return ∷ keyword_sizeof ∷ keyword_void ∷ keyword_char ∷ keyword_int ∷ keyword_long
    ∷ keyword_signed ∷ keyword_unsigned ∷ keyword_double ∷ keyword_if ∷ keyword_else ∷ keyword_do
    ∷ keyword_while ∷ keyword_for ∷ keyword_break ∷ keyword_continue ∷ keyword_static
    ∷ keyword_extern ∷ keyword_goto ∷ keyword_switch ∷ keyword_case ∷ keyword_default ∷ []

abbrev pub spelt : TokenType → List ℕ × TokenType
spelt t = (spelling t, t)

abbrev pub spellings : List (List ℕ × TokenType)
spellings = map spelt punctuation

abbrev pub starts_with : List ℕ → List ℕ → Bool
starts_with [] pos = true
starts_with (b ∷ text) [] = false
starts_with (b ∷ text) (c ∷ rest) = c == b && starts_with text rest

-- The first entry that the bytes start with, and what is behind it.
unfoldable pub longest_match : List (List ℕ × TokenType) → List ℕ → Option (Token × List ℕ)
longest_match [] pos = none
longest_match ((text, t) ∷ table) pos =
    let shorter = longest_match table pos in
    if starts_with text pos then some (token t [], drop (length text) pos) else shorter

-- Bytes that form an identifier, keywords included.
unfoldable pub all_bytes : (ℕ → Bool) → List ℕ → Bool
all_bytes test [] = true
all_bytes test (c ∷ rest) = test c && all_bytes test rest

abbrev pub is_word : List ℕ → Bool
is_word [] = false
is_word (c ∷ name) = starts_identifier c && all_bytes continues_identifier name

unfoldable pub spells : List TokenType → Name → Bool
spells [] name = false
spells (t ∷ words) name = name_eq (spelling t) name || spells words name

-- Bytes that form an integer constant: digits, and a suffix of L and U in any order.
abbrev pub is_long : ℕ → Bool
is_long c = toupper c == b'L'

abbrev pub is_unsigned : ℕ → Bool
is_unsigned c = toupper c == b'U'

abbrev pub is_suffix : List ℕ → Bool
is_suffix [] = true
is_suffix (c ∷ []) = is_long c || is_unsigned c
is_suffix (c ∷ d ∷ []) = is_long c && is_unsigned d || is_unsigned c && is_long d
is_suffix _ = false

unfoldable pub is_digits_then_suffix : List ℕ → Bool
is_digits_then_suffix [] = true
is_digits_then_suffix (c ∷ rest) =
    let digits = is_digits_then_suffix rest in if isdigit c then digits else is_suffix (c ∷ rest)

abbrev pub is_integer : List ℕ → Bool
is_integer [] = false
is_integer (c ∷ rest) = isdigit c && is_digits_then_suffix rest

-- The letter of an escape sequence; zero for a byte that stands for itself.
abbrev pub escape_letter : ℕ → ℕ
escape_letter c =
    if c == 39
    then 39
    else if c == 34
    then 34
    else if c == 63
    then 63
    else if c == 92
    then 92
    else if c == 7
    then b'a'
    else if c == 8
    then b'b'
    else if c == 12
    then b'f'
    else if c == 10
    then b'n'
    else if c == 13
    then b'r'
    else if c == 9
    then b't'
    else if c == 11
    then b'v'
    else 0

abbrev pub escaped_byte : ℕ → List ℕ
escaped_byte c = if escape_letter c == 0 then c ∷ [] else 92 ∷ escape_letter c ∷ []

unfoldable pub escaped : List ℕ → List ℕ
escaped [] = []
escaped (c ∷ text) = escaped_byte c ++ escaped text

-- How a token is written. The tokens of a file are written with a space behind each.
abbrev pub written_as : TokenType → List ℕ → List ℕ
written_as identifier val = val
written_as constant val = val
written_as constant_char val = 39 ∷ escaped val ++ 39 ∷ []
written_as constant_str val = 34 ∷ escaped val ++ 34 ∷ []
written_as t val = spelling t

unfoldable pub written : List Token → List ℕ
written [] = []
written (tok ∷ toks) = written_as tok.token_type tok.val ++ 32 ∷ written toks

-- The text of a keyword; punctuation has none.
abbrev pub fixed_text : TokenType → List ℕ
fixed_text keyword_return = spelling keyword_return
fixed_text keyword_sizeof = spelling keyword_sizeof
fixed_text keyword_void = spelling keyword_void
fixed_text keyword_char = spelling keyword_char
fixed_text keyword_int = spelling keyword_int
fixed_text keyword_long = spelling keyword_long
fixed_text keyword_signed = spelling keyword_signed
fixed_text keyword_unsigned = spelling keyword_unsigned
fixed_text keyword_double = spelling keyword_double
fixed_text keyword_if = spelling keyword_if
fixed_text keyword_else = spelling keyword_else
fixed_text keyword_do = spelling keyword_do
fixed_text keyword_while = spelling keyword_while
fixed_text keyword_for = spelling keyword_for
fixed_text keyword_break = spelling keyword_break
fixed_text keyword_continue = spelling keyword_continue
fixed_text keyword_static = spelling keyword_static
fixed_text keyword_extern = spelling keyword_extern
fixed_text keyword_goto = spelling keyword_goto
fixed_text keyword_switch = spelling keyword_switch
fixed_text keyword_case = spelling keyword_case
fixed_text keyword_default = spelling keyword_default
fixed_text t = []

-- The texts that a token of each type may have. Integer constants stand for all constants.
abbrev pub is_text : TokenType → List ℕ → Bool
is_text identifier val = is_word val && not (spells keywords val)
is_text constant val = is_integer val
is_text constant_char val = length val == 1
is_text constant_str val = true
is_text t val = name_eq val (fixed_text t)

-- Neighbouring literals of the same type are one literal.
abbrev pub merges : TokenType → TokenType → Bool
merges constant_char constant_char = true
merges constant_str constant_str = true
merges _ _ = false

abbrev pub merges_next : TokenType → List Token → Bool
merges_next t [] = false
merges_next t (tok ∷ toks) = merges t tok.token_type

unfoldable pub are_writable : List Token → Bool
are_writable [] = true
are_writable (tok ∷ toks) =
    is_text tok.token_type tok.val && (not (merges_next tok.token_type toks) && are_writable toks)
