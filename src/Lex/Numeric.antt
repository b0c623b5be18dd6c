-- ===== src/Lex/Numeric.antt =====
-- passes/lex.c: numeric constants. `pos` is the list of the bytes that are left.
use enqcc.Base.{
  ℕ, ◌-◌, Bool, true, false, not, ◌&&◌, ◌||◌, ltb, ◌==◌, if◌then◌else◌, Option, none, some, List,
  [], ◌∷◌, ◌++◌, Result, ok, ◌>>=◌, ◌>>◌, guard, lex_float_exponent_no_digits,
}
use mathlib.Core.List.{tail}
use enqcc.Lex.Chars.{isdigit, issign, toupper, decimal_point, e_notation_char, byte_at}

pub record LexSepState : Type 0 where
  pub found : Bool
  pub allow_sign_span : ℕ
  pub needs_digit : Bool

-- Which of the two separators `sep_latest` points at.
pub data Sep : Type 0 where
  point exponent : Sep

-- The array `sep_chars` and `sep_latest`.
pub record NumericState : Type 0 where
  pub at_point : LexSepState
  pub at_exponent : LexSepState
  pub sep_latest : Option Sep

abbrev pub no_sep : NumericState
no_sep = record {
  at_point = record { found = false; allow_sign_span = 0; needs_digit = false };
  at_exponent = record { found = false; allow_sign_span = 2; needs_digit = true };
  sep_latest = none;
}

-- The separator that the byte is, unless it was found before; and the state with it found.
unfoldable pub newly_found_sep : ℕ → NumericState → Option NumericState
newly_found_sep c s =
    if decimal_point == toupper c
    then (if s.at_point.found
        then none
        else some
            (record s { at_point = record s.at_point { found = true }; sep_latest = some point }))
    else if e_notation_char == toupper c
    then (if s.at_exponent.found
        then none
        else some (record s {
          at_exponent = record s.at_exponent { found = true };
          sep_latest = some exponent;
        }))
    else none

abbrev pub latest : NumericState → Option LexSepState
latest s = elim s.sep_latest [
  | none ↦ none
  | some point ↦ some s.at_point
  | some exponent ↦ some s.at_exponent
]

abbrev pub sign_allowed : Option LexSepState → Bool
sign_allowed none = false
sign_allowed (some sep) = ltb 0 sep.allow_sign_span

-- What a byte that belongs to the constant does to the separator.
abbrev pub after_byte : ℕ → LexSepState → LexSepState
after_byte c sep = record {
  found = sep.found;
  allow_sign_span = sep.allow_sign_span - 1;
  needs_digit = if isdigit c then false else sep.needs_digit;
}

abbrev pub update_latest : ℕ → NumericState → NumericState
update_latest c s = elim s.sep_latest [
  | none ↦ s
  | some point ↦ record s { at_point = after_byte c s.at_point }
  | some exponent ↦ record s { at_exponent = after_byte c s.at_exponent }
]

-- The state after a byte that belongs to the constant, or none.
unfoldable pub numeric_byte : ℕ → NumericState → Option NumericState → Option NumericState
numeric_byte c s (some s') = some (update_latest c s')
numeric_byte c s none =
    if isdigit c || issign c && sign_allowed (latest s) then some (update_latest c s) else none

-- The loop of lex_one_constant_numeric: the bytes of the constant, those behind it, the state.
unfoldable pub numeric_span : List ℕ → NumericState → List ℕ × List ℕ × NumericState
numeric_span [] s = ([], [], s)
numeric_span (c ∷ rest) s = elim (numeric_byte c s (newly_found_sep c s)) [
  | none ↦ ([], c ∷ rest, s)
  | some s' ↦ let (span, after, final) = numeric_span rest s' in (c ∷ span, after, final)
]

-- The suffix behind an integer constant: its bytes, and those behind it. Both `if`s read a byte.
unfoldable pub second_suffix : ℕ → List ℕ → Result (List ℕ × List ℕ)
second_suffix other pos = do
  c ← byte_at pos
  ok (if toupper c == other then (c ∷ [], tail pos) else ([], pos))

unfoldable pub suffix_span : List ℕ → Result (List ℕ × List ℕ)
unfolding second_suffix
suffix_span pos = do
  c ← byte_at pos
  if toupper c == b'L'
      then (do (span, after) ← second_suffix b'U' (tail pos); ok (c ∷ span, after))
      else if toupper c == b'U'
      then (do (span, after) ← second_suffix b'L' (tail pos); ok (c ∷ span, after))
      else ok ([], pos)

abbrev pub found_sep : NumericState → Bool
found_sep s = s.at_point.found || s.at_exponent.found

abbrev pub malformed : NumericState → Bool
malformed s =
    s.at_point.found && s.at_point.needs_digit || s.at_exponent.found && s.at_exponent.needs_digit

-- lex_one_constant_numeric_finalize, and the whole of lex_one_constant_numeric: the text of the
-- constant and the bytes behind it.
unfoldable pub lex_one_constant_numeric_finalize :
    List ℕ → List ℕ → NumericState → Result (List ℕ × List ℕ)
unfolding suffix_span
lex_one_constant_numeric_finalize span pos s =
    if found_sep s
    then (do guard (not (malformed s)) lex_float_exponent_no_digits; ok (span, pos))
    else (do (suffix, after) ← suffix_span pos; ok (span ++ suffix, after))

unfoldable pub lex_one_constant_numeric : List ℕ → Result (List ℕ × List ℕ)
unfolding numeric_span numeric_byte newly_found_sep lex_one_constant_numeric_finalize
lex_one_constant_numeric pos =
    let (span, after, s) = numeric_span pos no_sep in lex_one_constant_numeric_finalize span after s
