-- ===== src/Parse/Expression/Total.antt =====
-- passes/parse/expression.c: every call ends.
use enqcc.Base.{
  ℕ, suc, ◌≤◌, ◌==◌, ◌≡◌, refl, Bool, true, false, ◌&&◌, ◌||◌, not, List, [], ◌∷◌, length, Option,
  none, some, Result, Error, ok, leb, ltb, is_reported, Ends, Ends-bind, Ends-guard, Ends-if,
  Ends-map, arith, parse_constant_too_large,
}
use mathlib.Core.List.{tail}
use enqcc.Lang.Types.{TypeTag}
use enqcc.Lex.Tokens.{TokenType, Token, constant, constant_char}
use enqcc.Parse.Constant.{
  can_parse_constant, int_max, uint_max, ConstantNode, is_constant_maybe_double, has_suffix,
  integer_type, parse_char, double_constant, integer_constant, node_of_constant, parse_constant,
}
use enqcc.Parse.Tree.{Expr}
use enqcc.Parse.Expression.{is_token_type, parse_postfix, postfix_by, expect}

-- The lexer gives one byte to each character constant.
abbrev pub is_lexed_token : TokenType → List ℕ → Bool
is_lexed_token constant_char val = length val == 1
is_lexed_token _ val = true

unfoldable pub are_lexed : List Token → Bool
are_lexed [] = true
are_lexed (tok ∷ toks) = is_lexed_token tok.token_type tok.val && are_lexed toks

-- The tokens that are left: at most `n` of them.
abbrev pub AreLeft : ℕ → List Token → Type 0
AreLeft n toks = (length toks ≤ n) × (are_lexed toks ≡ true)

abbrev pub Left {ℓ} : {A : Type ℓ} → ℕ → A × List Token → Type 0
Left n r = AreLeft n r.1

and_split : (a b : Bool) → (a && b) ≡ true → (a ≡ true) × (b ≡ true)
and_split true b h = (refl, h)
and_split false b h = cc

are_lexed-tail : (toks : List Token) → are_lexed toks ≡ true → are_lexed (tail toks) ≡ true
unfolding are_lexed
are_lexed-tail [] h = refl
are_lexed-tail (tok ∷ toks) h =
    (and_split (is_lexed_token tok.token_type tok.val) (are_lexed toks) h).1

pub tail-AreLeft : (n : ℕ) (toks : List Token) → AreLeft n toks → AreLeft n (tail toks)
tail-AreLeft n [] h = h
tail-AreLeft n (tok ∷ toks) h = (omega (arith, h.0), are_lexed-tail (tok ∷ toks) h.1)

pub front-AreLeft :
    (n : ℕ) (tok : Token) (toks : List Token) → AreLeft (suc n) (tok ∷ toks) → AreLeft n toks
front-AreLeft n tok toks h = (omega (arith, h.0), are_lexed-tail (tok ∷ toks) h.1)

pub Left-suc {ℓ} :
    {A : Type ℓ} (n : ℕ) (r : Result (A × List Token))
    → Ends false (Left n) r
    → Ends false (Left (suc n)) r
Left-suc n r h = Ends-map false (Left n) (Left (suc n)) r (λ q k. (omega (arith, k.0), k.1)) h

-- A token that is expected makes the rest shorter.
pub expect-Left :
    (expected : TokenType → Bool) (failure : Error) (n : ℕ) (r : Expr × List Token)
    → is_reported false failure ≡ true
    → Left n r
    → Ends false (Left n) (expect expected failure r)
expect-Left expected failure n r e h =
    Ends-guard false (Left n) (is_token_type r.1 expected) failure _ e (tail-AreLeft n r.1 h)

pub parse_postfix-Left :
    (n : ℕ) (dst : Expr) (pos : List Token) → AreLeft n pos → Left n (parse_postfix dst pos)
parse_postfix-Left n dst [] h = h
parse_postfix-Left n dst (tok ∷ toks) h = go tok.token_type
  where
    go : (t : TokenType) → Left n (postfix_by t dst (tok ∷ toks) toks)
    go enqcc.Lex.Tokens.plus_sign_plus_sign = tail-AreLeft n (tok ∷ toks) h
    go enqcc.Lex.Tokens.hyphen_hyphen = tail-AreLeft n (tok ∷ toks) h
    go _ = h

fits_unsigned :
    (u l : Bool) (n : ℕ) → (u && (ltb uint_max n || l)) ≡ false → u ≡ true → leb n uint_max ≡ true
fits_unsigned u l n e h = ground arith

fits_int : (l : Bool) (n : ℕ) → (ltb int_max n || l) ≡ false → leb n int_max ≡ true
fits_int l n e = ground arith

abbrev AnyType : TypeTag × Bool → Type 0
AnyType r = Unit

integer_type-Ends : (u l : Bool) (n : ℕ) → Ends false AnyType (integer_type u l n)
unfolding integer_type
integer_type-Ends u l n =
    Ends-if false AnyType (u && (ltb uint_max n || l)) _ _ (λ e. tt)
      λ e.
        Ends-if false AnyType u _ _ (λ e'. rw (fits_unsigned u l n e e') tt)
          λ e'. Ends-if false AnyType (ltb int_max n || l) _ _ (λ f. tt) λ f. rw (fits_int l n f) tt

abbrev AnyConstant : ConstantNode → Type 0
AnyConstant a = Unit

integer_constant-Ends :
    (u l : Bool) (o : Option ℕ) → Ends false AnyConstant (integer_constant u l o)
unfolding integer_constant
integer_constant-Ends u l none = refl
integer_constant-Ends u l (some n) =
    Ends-bind false AnyType AnyConstant (integer_type u l n) _ (integer_type-Ends u l n)
      λ r h. Ends-guard false AnyConstant (not r.1) parse_constant_too_large _ refl tt

double_constant-Ends : (o : Option ℕ) → Ends false AnyConstant (double_constant o)
unfolding double_constant
double_constant-Ends none = refl
double_constant-Ends (some n) = tt

parse_char-Ends :
    (val : List ℕ) → (length val == 1) ≡ true → Ends false AnyConstant (parse_char val)
unfolding parse_char
parse_char-Ends [] h = cc
parse_char-Ends (b ∷ []) h = tt
parse_char-Ends (b ∷ c ∷ val) h = absurd (ground arith)

node_of_constant-Ends :
    (strtoull strtod : List ℕ → Option ℕ) (t : TokenType) (val : List ℕ)
    → can_parse_constant t ≡ true
    → is_lexed_token t val ≡ true
    → Ends false AnyConstant
        (node_of_constant strtoull strtod (record { token_type = t; val = val }))
unfolding node_of_constant
node_of_constant-Ends strtoull strtod constant_char val c h = parse_char-Ends val h
node_of_constant-Ends strtoull strtod constant val c h =
    Ends-if false AnyConstant (is_constant_maybe_double val) _ _
      (λ e. double_constant-Ends (strtod val))
      λ e. integer_constant-Ends (has_suffix b'U' val) (has_suffix b'L' val) (strtoull val)
node_of_constant-Ends strtoull strtod _ val c h = cc

pub parse_constant-Left :
    (strtoull strtod : List ℕ → Option ℕ) (n : ℕ) (t : TokenType) (val : List ℕ) (toks : List Token)
    → can_parse_constant t ≡ true
    → AreLeft (suc n) (record { token_type = t; val = val } ∷ toks)
    → Ends false
        (Left n)
        (parse_constant strtoull strtod (record { token_type = t; val = val } ∷ toks))
unfolding parse_constant are_lexed
parse_constant-Left strtoull strtod n t val toks c h =
    let lexed = and_split (is_lexed_token t val) (are_lexed toks) h.1 in
    Ends-bind false AnyConstant (Left {A = ConstantNode} n)
      (node_of_constant strtoull strtod (record { token_type = t; val = val })) (λ a. ok (a, toks))
      (node_of_constant-Ends strtoull strtod t val c lexed.0) λ a u. (omega (arith, h.0), lexed.1)
