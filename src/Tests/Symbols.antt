-- ===== src/Tests/Symbols.antt =====
-- The symbol table of lang/symbol.c on small sequences of declarations.
use enqcc.Base.{ℕ, suc, zero, ◌≡◌, refl, ap, sym, ◌∙◌, true, false, List, [], ◌∷◌, ◌++◌, length}
use enqcc.Lang.Types.{Ctype, plain, int}
use enqcc.Lang.Symbol.{
  variable, linkage_none, Name, Symbol, symbols_prepend, symbols_get_impl, symbols_get_limited,
  symbols_get_anywhere, symbols_reset_scope,
}
use enqcc.Lang.Symbol.Unique.{Action, declare, leave, run, Descending, run-Descending}
use enqcc.Lang.Symbol.Scope.{
  found_unique, innermost, symbols_get_limited-innermost, symbols_reset_scope-get,
}
use enqcc.Lang.Symbol.Mangle.{is_mangled, has_delimiter, mangle_name-injective}

abbrev c_int : Ctype
c_int = plain int false 0

-- Two symbols of an outer scope, one of an inner scope, and one after it.
abbrev actions : List Action
actions =
    declare (b'x' ∷ []) variable c_int
    ∷ declare (b'y' ∷ []) variable c_int
    ∷ declare (b'x' ∷ []) variable c_int
    ∷ leave 2
    ∷ declare (b'z' ∷ []) variable c_int
    ∷ []

run_example : (run actions [] []).1 ≡ 3 ∷ 2 ∷ 1 ∷ 0 ∷ []
unfolding run symbols_prepend symbols_reset_scope
run_example = refl

run-Descending_example : Descending (run actions [] []).1
run-Descending_example = run-Descending actions (refl, (refl, (refl, (refl, (refl, tt)))))

abbrev entry : Name → ℕ → ℕ → Symbol
entry name unique cookie = record {
  name = name;
  stype = variable;
  c89type = c_int;
  unique = unique;
  cookie = cookie;
  level_delimiter = false;
  linkage = linkage_none;
}

abbrev entry_y : Symbol
entry_y = entry (b'y' ∷ []) 1 2

abbrev entry_x : Symbol
entry_x = entry (b'x' ∷ []) 0 0

-- An inner `x`, with a delimiter behind it, hides the outer one until its scope is left.
abbrev inner_scope : List Symbol
inner_scope = entry (b'x' ∷ []) 2 2 ∷ record (entry [] 1 1) { level_delimiter = true } ∷ []

symbols_reset_scope-get_example :
    found_unique
      (symbols_get_impl (symbols_reset_scope (inner_scope ++ entry_x ∷ []) 1) (b'x' ∷ []) false)
    ≡ found_unique (symbols_get_impl (entry_x ∷ []) (b'x' ∷ []) false)
symbols_reset_scope-get_example =
    symbols_reset_scope-get inner_scope (entry_x ∷ []) (b'x' ∷ []) false

symbols_get_limited-innermost_example :
    symbols_get_limited (inner_scope ++ entry_y ∷ []) (b'y' ∷ [])
    ≡ symbols_get_anywhere (innermost (inner_scope ++ entry_y ∷ [])) (b'y' ∷ [])
symbols_get_limited-innermost_example =
    symbols_get_limited-innermost (inner_scope ++ entry_y ∷ []) (b'y' ∷ [])

-- Numbers in tallies of the digit 1.
abbrev tally : ℕ → Name
tally zero = []
tally (suc n) = b'1' ∷ tally n

length-tally : (n : ℕ) → length (tally n) ≡ n
length-tally zero = refl
length-tally (suc n) = ap suc (length-tally n)

tally-injective : (n m : ℕ) → tally n ≡ tally m → n ≡ m
tally-injective n m e = sym (length-tally n) ∙ ap length e ∙ length-tally m

no_delimiter : is_mangled entry_y ≡ false
unfolding is_mangled has_delimiter
no_delimiter = refl

mangle_name-injective_example : (entry_y.name ≡ entry_y.name) × (entry_y.unique ≡ entry_y.unique)
mangle_name-injective_example =
    mangle_name-injective tally tally-injective entry_y entry_y no_delimiter no_delimiter refl
