-- ===== src/Lex/EndOfFile.antt =====
-- passes/lex.c at the end of a file.
use enqcc.Base.{ℕ, ◌≡◌, refl, true, false, List, [], ◌∷◌, arith, err, out_of_bounds_read}
use enqcc.Lex.Chars.{isspace, starts_identifier, continues_identifier}
use enqcc.Lex.Words.{identifier_span}
use enqcc.Lex.{lex_word, lex_tokens, lex_init}
use enqcc.Lex.Spelling.{all_bytes, is_word}
use enqcc.Lex.RoundTrip.{lex_word_byte, and_split}

identifier_span_end :
    (name : List ℕ)
    → all_bytes continues_identifier name ≡ true
    → identifier_span name ≡ err out_of_bounds_read
unfolding identifier_span all_bytes
identifier_span_end [] h = refl
identifier_span_end (c ∷ name) h =
    let (e, others) = and_split (continues_identifier c) _ h in
    rw (e, identifier_span_end name others) refl

starts_identifier-isspace : (c : ℕ) → starts_identifier c ≡ true → isspace c ≡ false
starts_identifier-isspace c h = ground arith

-- A file that is an identifier or a keyword, with nothing behind it, is read past its end.
pub lex_init-is_word :
    (text : List ℕ) → is_word text ≡ true → lex_init text ≡ err out_of_bounds_read
unfolding lex_init lex_tokens lex_word
lex_init-is_word [] h = cc
lex_init-is_word (c ∷ name) h =
    let (first, others) = and_split (starts_identifier c) _ h in
    rw
      (
        starts_identifier-isspace c first,
        lex_word_byte c name first,
        identifier_span_end name others,
      )
      refl
