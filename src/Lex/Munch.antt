-- ===== src/Lex/Munch.antt =====
-- The punctuation of passes/lex.c against its spellings.
use enqcc.Base.{
  ℕ, ◌≡◌, sym, ap, ◌∙◌, subst, Option, none, some, List, ◌∷◌, arith, Option-cases, inl, inr, Result,
  ok,
}
use enqcc.Lex.Tokens.{
  TokenType, Token, paren_open, paren_close, brace_open, brace_close, square_bracket_open,
  square_bracket_close, semicolon, tilde, hyphen, plus_sign, asterisk, forward_slash, percent_sign,
  exclamation, ampersand, vert_bar, equal_sign, less_than, more_than, question, colon, comma, caret,
}
use enqcc.Lex.Operators.{lex_char_type, early_match}
use enqcc.Lex.{lex_operator, lex_other, lex_by_type, lex_one_token}
use enqcc.Lex.Spelling.{spellings, longest_match}

-- The byte that punctuation of one byte has.
abbrev char_of : TokenType → ℕ
char_of paren_open = b'('
char_of paren_close = b')'
char_of brace_open = b'{'
char_of brace_close = b'}'
char_of square_bracket_open = b'['
char_of square_bracket_close = b']'
char_of semicolon = b';'
char_of tilde = b'~'
char_of hyphen = b'-'
char_of plus_sign = b'+'
char_of asterisk = b'*'
char_of forward_slash = b'/'
char_of percent_sign = b'%'
char_of exclamation = b'!'
char_of ampersand = b'&'
char_of vert_bar = b'|'
char_of equal_sign = b'='
char_of less_than = b'<'
char_of more_than = b'>'
char_of question = b'?'
char_of colon = b':'
char_of comma = b','
char_of caret = b'^'
char_of _ = 0

lex_char_type-char_of : (c : ℕ) (t : TokenType) → lex_char_type c ≡ some t → c ≡ char_of t
unfolding early_match
lex_char_type-char_of c t h = ground arith

lex_operator_munch :
    (t : TokenType) (rest : List ℕ)
    → lex_char_type (char_of t) ≡ some t
    → some (lex_operator (char_of t) rest t) ≡ longest_match spellings (char_of t ∷ rest)
unfolding lex_operator longest_match early_match
lex_operator_munch paren_open rest h = ground arith
lex_operator_munch paren_close rest h = ground arith
lex_operator_munch brace_open rest h = ground arith
lex_operator_munch brace_close rest h = ground arith
lex_operator_munch square_bracket_open rest h = ground arith
lex_operator_munch square_bracket_close rest h = ground arith
lex_operator_munch semicolon rest h = ground arith
lex_operator_munch tilde rest h = ground arith
lex_operator_munch hyphen rest h = ground arith
lex_operator_munch plus_sign rest h = ground arith
lex_operator_munch asterisk rest h = ground arith
lex_operator_munch forward_slash rest h = ground arith
lex_operator_munch percent_sign rest h = ground arith
lex_operator_munch exclamation rest h = ground arith
lex_operator_munch ampersand rest h = ground arith
lex_operator_munch vert_bar rest h = ground arith
lex_operator_munch equal_sign rest h = ground arith
lex_operator_munch less_than rest h = ground arith
lex_operator_munch more_than rest h = ground arith
lex_operator_munch question rest h = ground arith
lex_operator_munch colon rest h = ground arith
lex_operator_munch comma rest h = ground arith
lex_operator_munch caret rest h = ground arith
lex_operator_munch _ rest h = ground arith

longest_match-none :
    (c : ℕ) (rest : List ℕ) → lex_char_type c ≡ none → longest_match spellings (c ∷ rest) ≡ none
unfolding longest_match early_match
longest_match-none c rest h = ground arith

-- What one entry gives, or what the rest of lex_one_token does.
abbrev pub or_else : Option (Token × List ℕ) → Result (Token × List ℕ) → Result (Token × List ℕ)
or_else (some r) other = ok r
or_else none other = other

-- Punctuation is lexed by maximal munch: where the bytes start with a spelling of punctuation,
-- lex_one_token gives the longest such spelling and goes on behind it; elsewhere it goes on to
-- literals, constants, keywords and identifiers.
pub lex_one_token-longest_match :
    (c : ℕ) (rest : List ℕ)
    → lex_one_token (c ∷ rest) ≡ or_else (longest_match spellings (c ∷ rest)) (lex_other c rest)
unfolding lex_one_token
lex_one_token-longest_match c rest = elim (Option-cases (lex_char_type c)) [
  | inl e ↦
      ap (lex_by_type c rest) e
      ∙ ap (λ o. or_else o (lex_other c rest)) (sym (longest_match-none c rest e))
  | inr (t, e) ↦
      let q = lex_char_type-char_of c t e in
      let m = lex_operator_munch t rest (subst (λ d. lex_char_type d ≡ some t) q e) in
      ap (lex_by_type c rest) e
      ∙ ap (λ o. or_else o (lex_other c rest))
          (subst (λ d. some (lex_operator d rest t) ≡ longest_match spellings (d ∷ rest)) (sym q) m)
]
