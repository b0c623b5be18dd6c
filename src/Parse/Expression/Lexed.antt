-- ===== src/Parse/Expression/Lexed.antt =====
-- passes/lex.c and passes/parse/expression.c: the tokens that the lexer gives are as the parser of
-- expressions relies on.
use enqcc.Base.{
  ℕ, zero, suc, ◌≡◌, refl, sym, subst, Bool, true, false, not, ◌&&◌, ◌||◌, Bool-cases, inl, inr,
  Option, List, [], ◌∷◌, length, Result, ok, ◌>>◌, Whenever, Whenever-bind, Whenever-guard,
  Whenever-ok, Whenever-if, Whenever-trivial, Ends, lex_identifier_constant_keyword_peek_error,
}
use enqcc.Lang.Types.{Ctype}
use enqcc.Lang.Symbol.{Name, name_eq}
use enqcc.Lex.Tokens.{TokenType, Token, constant_char, constant_str}
use enqcc.Lex.Chars.{isspace, isdigit, isdot, starts_identifier, is_quote_single, is_quote_double}
use enqcc.Lex.Words.{lex_keyword, find_keyword, lex_one_token_keyword_maybe, identifier_span}
use enqcc.Lex.Numeric.{lex_one_constant_numeric}
use enqcc.Lex.Strlike.{strlike_span, lex_one_strlike_check_size, lex_one_strlike}
use enqcc.Lex.{
  peek_allowed, lex_peek_ok, lex_strlike, lex_numeric, lex_word, lex_other, lex_one_token,
  lex_tokens, lex_init,
}
use enqcc.Lex.Spelling.{spellings, starts_with, longest_match}
use enqcc.Lex.Munch.{or_else, lex_one_token-longest_match}
use enqcc.Parse.Expression.{parse_expression}
use enqcc.Parse.Expression.Total.{is_lexed_token, are_lexed, Left}
use enqcc.Parse.Expression.Calls.{IsTotalType}
use enqcc.Parse.Expression.Induction.{parse_expression-Ends}

abbrev is_char : TokenType → Bool
is_char constant_char = true
is_char _ = false

is_lexed_token-is_char :
    (t : TokenType) (val : List ℕ) → is_char t ≡ false → is_lexed_token t val ≡ true
is_lexed_token-is_char constant_char val h = cc
is_lexed_token-is_char _ val h = refl

-- A table without character constants.
abbrev no_chars {ℓ} : {A : Type ℓ} → List (A × TokenType) → Bool
no_chars [] = true
no_chars ((a, t) ∷ table) = not (is_char t) && no_chars table

no_chars-split : (a b : Bool) → (not a && b) ≡ true → (a ≡ false) × (b ≡ true)
no_chars-split true b h = cc
no_chars-split false b h = (refl, h)

abbrev IsLexed : Token × List ℕ → Type 0
IsLexed r = is_lexed_token r.0.token_type r.0.val ≡ true

find_keyword-is_char :
    (table : List (Name × TokenType)) (name : Name)
    → no_chars table ≡ true
    → is_char (find_keyword table name) ≡ false
unfolding find_keyword
find_keyword-is_char [] name h = refl
find_keyword-is_char ((k, t) ∷ table) name h =
    let (p, q) = no_chars-split (is_char t) (no_chars table) h in
    elim (Bool-cases (name_eq k name)) [
      | inl e ↦ rw e p
      | inr e ↦ rw e (find_keyword-is_char table name q)
    ]

longest_match-IsLexed :
    (table : List (List ℕ × TokenType)) (pos : List ℕ) (other : Result (Token × List ℕ))
    → no_chars table ≡ true
    → Whenever IsLexed other
    → Whenever IsLexed (or_else (longest_match table pos) other)
unfolding longest_match
longest_match-IsLexed [] pos other h k = k
longest_match-IsLexed ((text, t) ∷ table) pos other h k =
    let (p, q) = no_chars-split (is_char t) (no_chars table) h in
    elim (Bool-cases (starts_with text pos)) [
      | inl e ↦ rw e (is_lexed_token-is_char t [] p)
      | inr e ↦ rw e (longest_match-IsLexed table pos other q k)
    ]

abbrev Any {ℓ} : {A : Type ℓ} → A → Type 0
Any a = Unit

peek-IsLexed :
    (pos : List ℕ) (r : Token × List ℕ) → IsLexed r → Whenever IsLexed (lex_peek_ok pos >> ok r)
unfolding lex_peek_ok
peek-IsLexed [] r h = tt
peek-IsLexed (c ∷ pos) r h =
    Whenever-guard IsLexed (peek_allowed c) lex_identifier_constant_keyword_peek_error (ok r)
      (λ e. h)

-- The text of a literal passes the check of its size.
abbrev IsSized : TokenType → List ℕ × List ℕ → Type 0
IsSized t r = is_lexed_token t r.0 ≡ true

check_size-IsSized :
    (t : TokenType) (val after : List ℕ)
    → Whenever (IsSized t) (lex_one_strlike_check_size t val >> ok (val, after))
check_size-IsSized constant_char [] after = tt
check_size-IsSized constant_char (c ∷ []) after = refl
check_size-IsSized constant_char (c ∷ d ∷ val) after = tt
check_size-IsSized _ val after = refl

lex_strlike-IsLexed : (t : TokenType) (rest : List ℕ) → Whenever IsLexed (lex_strlike t rest)
unfolding lex_strlike lex_one_strlike
lex_strlike-IsLexed t rest =
    Whenever-bind (IsSized t) IsLexed (lex_one_strlike t rest) _
      (Whenever-bind Any (IsSized t) (strlike_span (suc (length rest)) t rest) _
        (Whenever-trivial _)
        λ raw u.
          Whenever-bind Any (IsSized t) _ _ (Whenever-trivial _)
            λ val u'. check_size-IsSized t val raw.after)
      λ r h. h

lex_numeric-IsLexed : (pos : List ℕ) → Whenever IsLexed (lex_numeric pos)
unfolding lex_numeric
lex_numeric-IsLexed pos =
    Whenever-bind Any IsLexed (lex_one_constant_numeric pos) _ (Whenever-trivial _)
      λ r u. peek-IsLexed r.1 _ refl

lex_word-IsLexed : (c : ℕ) (rest : List ℕ) → Whenever IsLexed (lex_word c rest)
unfolding lex_word lex_one_token_keyword_maybe
lex_word-IsLexed c rest =
    Whenever-bind Any IsLexed (identifier_span rest) _ (Whenever-trivial _) λ r u.
      peek-IsLexed r.1 _
        (is_lexed_token-is_char _ (c ∷ r.0) (find_keyword-is_char lex_keyword (c ∷ r.0) refl))

lex_other-IsLexed : (c : ℕ) (rest : List ℕ) → Whenever IsLexed (lex_other c rest)
unfolding lex_other
lex_other-IsLexed c rest =
    Whenever-if IsLexed (is_quote_single c) _ _ (lex_strlike-IsLexed constant_char rest) (
      Whenever-if IsLexed (is_quote_double c) _ _ (lex_strlike-IsLexed constant_str rest) (
        Whenever-if IsLexed (isdigit c || isdot c) _ _ (lex_numeric-IsLexed (c ∷ rest))
          (Whenever-if IsLexed (starts_identifier c) _ _ (lex_word-IsLexed c rest) tt)))

lex_one_token-IsLexed : (c : ℕ) (rest : List ℕ) → Whenever IsLexed (lex_one_token (c ∷ rest))
lex_one_token-IsLexed c rest =
    subst (Whenever IsLexed) (sym (lex_one_token-longest_match c rest))
      (longest_match-IsLexed spellings (c ∷ rest) _ refl (lex_other-IsLexed c rest))

abbrev AreLexed : List Token → Type 0
AreLexed toks = are_lexed toks ≡ true

lex_tokens-AreLexed : (fuel : ℕ) (code : List ℕ) → Whenever AreLexed (lex_tokens fuel code)
unfolding lex_tokens are_lexed
lex_tokens-AreLexed zero code = tt
lex_tokens-AreLexed (suc fuel) [] = refl
lex_tokens-AreLexed (suc fuel) (c ∷ rest) =
    Whenever-if AreLexed (isspace c) _ _ (lex_tokens-AreLexed fuel rest) (
      Whenever-bind IsLexed AreLexed (lex_one_token (c ∷ rest)) _ (lex_one_token-IsLexed c rest)
        λ r h.
          Whenever-bind AreLexed AreLexed (lex_tokens fuel r.1) _ (lex_tokens-AreLexed fuel r.1)
            λ toks k. rw (h, k) refl)

-- On the tokens of every file that the lexer accepts, the parser of expressions ends with a tree or a
-- reported error: no assertion fails, no NULL pointer is used and nothing is read out of bounds. Of
-- the parser of types, it is relied on that it does the same and adds no tokens.
pub lex_init-parse_expression :
    (parse_type : List Token → Result (Ctype × List Token)) (strtoull strtod : List ℕ → Option ℕ)
    (code : List ℕ) (toks : List Token) (m : ℕ)
    → IsTotalType parse_type
    → lex_init code ≡ ok toks
    → Ends false (Left (length toks)) (parse_expression parse_type strtoull strtod m toks)
unfolding lex_init
lex_init-parse_expression parse_type strtoull strtod code toks m total e =
    parse_expression-Ends parse_type strtoull strtod total m toks (
      Whenever-ok AreLexed (lex_tokens (suc (length code)) code) toks e
        (lex_tokens-AreLexed (suc (length code)) code))
