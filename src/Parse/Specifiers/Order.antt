-- ===== src/Parse/Specifiers/Order.antt =====
-- parse_specifiers of passes/parse/declaration.c on type specifiers in any order.
use enqcc.Base.{
  ℕ, ◌+◌, ◌≡◌, refl, ap, sym, ◌∙◌, Bool, true, false, not, List, [], ◌∷◌, ◌++◌, if◌then◌else◌, All,
  ok, arith,
}
use enqcc.Lang.Types.{TypeTag}
use enqcc.Lex.Tokens.{
  TokenType, Token, keyword_void, keyword_char, keyword_int, keyword_long, keyword_signed,
  keyword_unsigned, keyword_double,
}
use enqcc.Parse.Specifiers.{
  AstSpecifier, BasicTypeState, is_token_variable_type, is_token_maybe_function_prefix,
  parse_basic_type_accumulate, Scan, scan_token, scan_specifiers, conclude, zero_state, start_of,
  parse_specifiers,
}
use enqcc.Parse.Specifiers.Table.{Spells, Spells-parse_basic_type_finalize}

-- The seven keywords by number, and no other token.
abbrev is_keyword : TokenType → TokenType → Bool
is_keyword keyword_void keyword_void = true
is_keyword keyword_char keyword_char = true
is_keyword keyword_int keyword_int = true
is_keyword keyword_long keyword_long = true
is_keyword keyword_signed keyword_signed = true
is_keyword keyword_unsigned keyword_unsigned = true
is_keyword keyword_double keyword_double = true
is_keyword _ _ = false

unfoldable pub occurrences : TokenType → List Token → ℕ
occurrences k [] = 0
occurrences k (tok ∷ toks) =
    let rest = occurrences k toks in if is_keyword k tok.token_type then rest + 1 else rest

-- How often each keyword stands among the tokens.
abbrev pub counts : List Token → BasicTypeState
counts toks = record {
  n_void = occurrences keyword_void toks;
  n_char = occurrences keyword_char toks;
  n_int = occurrences keyword_int toks;
  n_long = occurrences keyword_long toks;
  n_signed = occurrences keyword_signed toks;
  n_unsigned = occurrences keyword_unsigned toks;
  n_double = occurrences keyword_double toks;
}

abbrev plus : BasicTypeState → BasicTypeState → BasicTypeState
plus a b = record {
  n_void = a.n_void + b.n_void;
  n_char = a.n_char + b.n_char;
  n_int = a.n_int + b.n_int;
  n_long = a.n_long + b.n_long;
  n_signed = a.n_signed + b.n_signed;
  n_unsigned = a.n_unsigned + b.n_unsigned;
  n_double = a.n_double + b.n_double;
}

abbrev pub IsTypeToken : Token → Type 0
IsTypeToken tok = is_token_variable_type tok.token_type ≡ true

-- The tokens do not go on with a specifier.
abbrev pub is_end : List Token → Bool
is_end [] = true
is_end (tok ∷ toks) = not (is_token_maybe_function_prefix tok.token_type)

accumulate-plus :
    (t : TokenType) (tok : Token) (toks : List Token) (s : BasicTypeState)
    → tok.token_type ≡ t
    → is_token_variable_type t ≡ true
    → plus (parse_basic_type_accumulate t s) (counts toks) ≡ plus s (counts (tok ∷ toks))
unfolding parse_basic_type_accumulate occurrences
accumulate-plus t tok toks s e h = ground arith

plus_none : (s : BasicTypeState) → plus s (counts []) ≡ s
unfolding occurrences
plus_none s = ground arith

plus_zero : (s : BasicTypeState) → plus zero_state s ≡ s
plus_zero s = ground arith

scan_type :
    (t : TokenType) (s : Scan)
    → is_token_variable_type t ≡ true
    → scan_token t s ≡ record s { basic = parse_basic_type_accumulate t s.basic }
unfolding scan_token parse_basic_type_accumulate
scan_type t s h = ground arith

type_prefix :
    (t : TokenType) → is_token_variable_type t ≡ true → is_token_maybe_function_prefix t ≡ true
type_prefix t h = ground arith

scan_end : (rest : List Token) (s : Scan) → is_end rest ≡ true → scan_specifiers rest s ≡ (rest, s)
unfolding scan_specifiers
scan_end [] s h = refl
scan_end (tok ∷ rest) s h = rw (stops (is_token_maybe_function_prefix tok.token_type) h) refl
  where
    stops : (b : Bool) → not b ≡ true → b ≡ false
    stops b h = ground arith

scan_specifiers-counts :
    (toks rest : List Token) (s : Scan)
    → All IsTypeToken toks
    → is_end rest ≡ true
    → scan_specifiers (toks ++ rest) s ≡ (rest, record s { basic = plus s.basic (counts toks) })
unfolding scan_specifiers
scan_specifiers-counts [] rest s h e =
    scan_end rest s e
    ∙ ap (λ (b : BasicTypeState). (rest, record s { basic = b })) (sym (plus_none s.basic))
scan_specifiers-counts (tok ∷ toks) rest s h e =
    rw (type_prefix tok.token_type h.0, scan_type tok.token_type s h.0)
      (scan_specifiers-counts toks rest
          (record s { basic = parse_basic_type_accumulate tok.token_type s.basic }) h.1 e
        ∙ ap (λ (b : BasicTypeState). (rest, record s { basic = b }))
            (accumulate-plus tok.token_type tok toks s.basic refl h.0))

-- For tokens of types that are, in whatever order, the specifiers of a type, and a token behind
-- them that is no specifier, parse_specifiers gives the type, leaves the storage class as it was,
-- and stops in front of that token.
pub parse_specifiers-Spells :
    (toks rest : List Token) (dst : AstSpecifier) (t : TypeTag)
    → All IsTypeToken toks
    → is_end rest ≡ true
    → Spells t (counts toks)
    → parse_specifiers (toks ++ rest) dst ≡ ok (dst, t, rest)
unfolding parse_specifiers conclude
parse_specifiers-Spells toks rest dst t h e spelt =
    rw
      (
        scan_specifiers-counts toks rest (start_of dst) h e,
        plus_zero (counts toks),
        Spells-parse_basic_type_finalize t (counts toks) spelt,
      )
      refl
