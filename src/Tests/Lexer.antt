-- ===== src/Tests/Lexer.antt =====
-- Runs of the lexer of passes/lex.c, and the theorems at them.
use enqcc.Base.{◌≡◌, refl, some, not, List, [], ◌∷◌, ◌++◌, ok, err, Ends, out_of_bounds_read}
use enqcc.Lex.Tokens.{
  Token, keyword_int, identifier, constant, constant_char, constant_str, equal_sign,
  more_than_more_than_equal_sign, semicolon,
}
use enqcc.Lex.Operators.{early_match, lex_readahead_one_or_two_chars}
use enqcc.Lex.Words.{identifier_span, lex_one_token_keyword_maybe, find_keyword}
use enqcc.Lex.Numeric.{lex_one_constant_numeric}
use enqcc.Lex.Strlike.{lex_one_strlike, strlike_span, next_literal, map_span}
use enqcc.Lex.{
  token, lex_other, lex_strlike, lex_numeric, lex_word, lex_peek_ok, lex_one_token, lex_tokens,
  lex_init,
}
use enqcc.Lex.Spelling.{
  spellings, longest_match, written, escaped, are_writable, all_bytes, spells,
  is_digits_then_suffix,
}
use enqcc.Lex.Munch.{or_else, lex_one_token-longest_match}
use enqcc.Lex.Total.{closed}
use enqcc.Lex.Total.Init.{lex_init-Ends}
use enqcc.Lex.RoundTrip.File.{lex_init-written}
use enqcc.Lex.RoundTrip.Neighbours.{lex_one_strlike-neighbours}
use enqcc.Lex.EndOfFile.{lex_init-is_word}
use enqcc.Lang.Symbol.{name_eq}

-- `int x1 = 07Ul; x1 >>= '\n'; "a\"" ` as tokens
abbrev tokens : List Token
tokens =
    token keyword_int (b'i' ∷ b'n' ∷ b't' ∷ [])
    ∷ token identifier (b'x' ∷ b'1' ∷ [])
    ∷ token equal_sign []
    ∷ token constant (b'0' ∷ b'7' ∷ b'U' ∷ b'l' ∷ [])
    ∷ token semicolon []
    ∷ token more_than_more_than_equal_sign []
    ∷ token constant_char (10 ∷ [])
    ∷ token constant_str (b'a' ∷ 34 ∷ [])
    ∷ []

tokens_lexed : lex_init (written tokens) ≡ ok tokens
unfolding lex_init lex_tokens lex_one_token lex_strlike lex_numeric lex_word lex_peek_ok written
    escaped early_match lex_readahead_one_or_two_chars identifier_span lex_one_token_keyword_maybe
    find_keyword name_eq lex_one_constant_numeric lex_one_strlike strlike_span next_literal map_span
tokens_lexed = refl

-- `>>=1`
munched :
    longest_match spellings (b'>' ∷ b'>' ∷ b'=' ∷ b'1' ∷ [])
    ≡ some (token more_than_more_than_equal_sign [], b'1' ∷ [])
unfolding longest_match
munched = refl

-- Two string literals with a line break between them are one.
neighbours :
    lex_init (34 ∷ b'a' ∷ 34 ∷ 10 ∷ 34 ∷ b'b' ∷ 34 ∷ [])
    ≡ ok (token constant_str (b'a' ∷ b'b' ∷ []) ∷ [])
unfolding lex_init lex_tokens lex_one_token lex_strlike early_match lex_one_strlike strlike_span
    next_literal map_span
neighbours = refl

lex_init-written_example : lex_init (written tokens) ≡ ok tokens
lex_init-written_example =
    lex_init-written tokens
      (unfold are_writable all_bytes spells is_digits_then_suffix name_eq in refl)

lex_one_token-longest_match_example :
    lex_one_token (b'>' ∷ b'>' ∷ b'=' ∷ b'1' ∷ [])
    ≡ or_else
        (longest_match spellings (b'>' ∷ b'>' ∷ b'=' ∷ b'1' ∷ []))
        (lex_other b'>' (b'>' ∷ b'=' ∷ b'1' ∷ []))
lex_one_token-longest_match_example = lex_one_token-longest_match b'>' (b'>' ∷ b'=' ∷ b'1' ∷ [])

lex_init-Ends_example :
    Ends
      (not (closed (b'x' ∷ 32 ∷ b'+' ∷ 32 ∷ b'1' ∷ [])))
      (λ toks. Unit)
      (lex_init (b'x' ∷ 32 ∷ b'+' ∷ 32 ∷ b'1' ∷ []))
lex_init-Ends_example = lex_init-Ends (b'x' ∷ 32 ∷ b'+' ∷ 32 ∷ b'1' ∷ [])

lex_init-is_word_example : lex_init (b'i' ∷ b'n' ∷ b't' ∷ []) ≡ err out_of_bounds_read
lex_init-is_word_example = lex_init-is_word (b'i' ∷ b'n' ∷ b't' ∷ []) (unfold all_bytes in refl)

-- "a" and "\"" with a line break between them, in front of a semicolon
lex_one_strlike-neighbours_example :
    lex_one_strlike constant_str
      (escaped (b'a' ∷ []) ++ (34 ∷ ((10 ∷ []) ++ (34 ∷ (escaped (34 ∷ []) ++ (34 ∷ b';' ∷ []))))))
    ≡ ok (b'a' ∷ 34 ∷ [], b';' ∷ [])
lex_one_strlike-neighbours_example =
    lex_one_strlike-neighbours constant_str (b'a' ∷ []) (34 ∷ []) (10 ∷ []) (b';' ∷ []) refl
      (unfold all_bytes in refl) (unfold next_literal in refl)
