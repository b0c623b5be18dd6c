-- ===== src/Lex/Words.antt =====
-- passes/lex.c: keywords and identifiers.
use enqcc.Base.{ℕ, if◌then◌else◌, List, [], ◌∷◌, Result, ok, err, ◌>>=◌, out_of_bounds_read}
use enqcc.Lang.Symbol.{Name, name_eq}
use enqcc.Lex.Chars.{continues_identifier}
use enqcc.Lex.Tokens.{
  TokenType, identifier, keyword_return, keyword_sizeof, keyword_void, keyword_char, keyword_int,
  keyword_long, keyword_signed, keyword_unsigned, keyword_double, keyword_if, keyword_else,
  keyword_do, keyword_while, keyword_for, keyword_break, keyword_continue, keyword_static,
  keyword_extern, keyword_goto, keyword_switch, keyword_case, keyword_default,
}

-- FOREACH_LEX_KEYWORD
abbrev pub lex_keyword : List (Name × TokenType)
lex_keyword =
    (b'r' ∷ b'e' ∷ b't' ∷ b'u' ∷ b'r' ∷ b'n' ∷ [], keyword_return)
    ∷ (b's' ∷ b'i' ∷ b'z' ∷ b'e' ∷ b'o' ∷ b'f' ∷ [], keyword_sizeof)
    ∷ (b'v' ∷ b'o' ∷ b'i' ∷ b'd' ∷ [], keyword_void)
    ∷ (b'c' ∷ b'h' ∷ b'a' ∷ b'r' ∷ [], keyword_char)
    ∷ (b'i' ∷ b'n' ∷ b't' ∷ [], keyword_int)
    ∷ (b'l' ∷ b'o' ∷ b'n' ∷ b'g' ∷ [], keyword_long)
    ∷ (b's' ∷ b'i' ∷ b'g' ∷ b'n' ∷ b'e' ∷ b'd' ∷ [], keyword_signed)
    ∷ (b'u' ∷ b'n' ∷ b's' ∷ b'i' ∷ b'g' ∷ b'n' ∷ b'e' ∷ b'd' ∷ [], keyword_unsigned)
    ∷ (b'd' ∷ b'o' ∷ b'u' ∷ b'b' ∷ b'l' ∷ b'e' ∷ [], keyword_double)
    ∷ (b'i' ∷ b'f' ∷ [], keyword_if)
    ∷ (b'e' ∷ b'l' ∷ b's' ∷ b'e' ∷ [], keyword_else)
    ∷ (b'd' ∷ b'o' ∷ [], keyword_do)
    ∷ (b'w' ∷ b'h' ∷ b'i' ∷ b'l' ∷ b'e' ∷ [], keyword_while)
    ∷ (b'f' ∷ b'o' ∷ b'r' ∷ [], keyword_for)
    ∷ (b'b' ∷ b'r' ∷ b'e' ∷ b'a' ∷ b'k' ∷ [], keyword_break)
    ∷ (b'c' ∷ b'o' ∷ b'n' ∷ b't' ∷ b'i' ∷ b'n' ∷ b'u' ∷ b'e' ∷ [], keyword_continue)
    ∷ (b's' ∷ b't' ∷ b'a' ∷ b't' ∷ b'i' ∷ b'c' ∷ [], keyword_static)
    ∷ (b'e' ∷ b'x' ∷ b't' ∷ b'e' ∷ b'r' ∷ b'n' ∷ [], keyword_extern)
    ∷ (b'g' ∷ b'o' ∷ b't' ∷ b'o' ∷ [], keyword_goto)
    ∷ (b's' ∷ b'w' ∷ b'i' ∷ b't' ∷ b'c' ∷ b'h' ∷ [], keyword_switch)
    ∷ (b'c' ∷ b'a' ∷ b's' ∷ b'e' ∷ [], keyword_case)
    ∷ (b'd' ∷ b'e' ∷ b'f' ∷ b'a' ∷ b'u' ∷ b'l' ∷ b't' ∷ [], keyword_default)
    ∷ []

-- The loop of lex_one_token_keyword_maybe along the table.
unfoldable pub find_keyword : List (Name × TokenType) → Name → TokenType
find_keyword [] name = identifier
find_keyword ((keyword, value) ∷ candidates) name =
    let next = find_keyword candidates name in if name_eq keyword name then value else next

unfoldable pub lex_one_token_keyword_maybe : Name → TokenType
unfolding find_keyword
lex_one_token_keyword_maybe name = find_keyword lex_keyword name

-- The `do ... while` loop of lex_one_token behind the first byte: the bytes that belong to the
-- identifier and the bytes behind it. The loop reads on until a byte stops it, past the end of the
-- file if need be.
unfoldable pub identifier_span : List ℕ → Result (Name × List ℕ)
identifier_span [] = err out_of_bounds_read
identifier_span (c ∷ rest) =
    let next = identifier_span rest in
    if continues_identifier c
    then (do (name, after) ← next; ok (c ∷ name, after))
    else ok ([], c ∷ rest)
