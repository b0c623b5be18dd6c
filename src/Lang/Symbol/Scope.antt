-- ===== src/Lang/Symbol/Scope.antt =====
-- Look-ups by name in the symbol table of lang/symbol.c.
use enqcc.Base.{
  ℕ, suc, ◌≤◌, ◌≡◌, refl, Bool, true, false, Bool-cases, inl, inr, Option, none, some, List, [],
  ◌∷◌, ◌++◌, leb, if◌then◌else◌, length, length-append, arith,
}
use enqcc.Lang.Types.{Ctype}
use enqcc.Lang.Symbol.{
  SymbolType, Name, Symbol, symbols_prepend, name_eq, symbols_get_impl, symbols_get_limited,
  symbols_get_anywhere, suffix, set_cookie, head_cookie, symbols_reset_scope, next_unique,
}

pub name_eq_refl : (name : Name) → name_eq name name ≡ true
unfolding name_eq
name_eq_refl [] = refl
name_eq_refl (a ∷ name) = ground (arith, name_eq_refl name)

pub name_eq-eq : (a b : Name) → name_eq a b ≡ true → a ≡ b
unfolding name_eq
name_eq-eq [] [] h = refl
name_eq-eq [] (b ∷ bs) h = cc
name_eq-eq (a ∷ as') [] h = cc
name_eq-eq (a ∷ as') (b ∷ bs) h = ground (arith, name_eq-eq as' bs)

-- The symbols in front of the first delimiter: those of the innermost scope.
unfoldable pub innermost : List Symbol → List Symbol
innermost [] = []
innermost (s ∷ rest) = let inner = innermost rest in if s.level_delimiter then [] else s ∷ inner

-- A limited look-up finds in a table what an unlimited look-up finds in the symbols of the innermost
-- scope, those in front of the first delimiter.
pub symbols_get_limited-innermost :
    (symbols : List Symbol) (name : Name)
    → symbols_get_limited symbols name ≡ symbols_get_anywhere (innermost symbols) name
unfolding symbols_get_limited symbols_get_anywhere symbols_get_impl innermost
symbols_get_limited-innermost [] name = refl
symbols_get_limited-innermost (s ∷ rest) name = elim (Bool-cases s.level_delimiter) [
  | inl e ↦ rw e
  | inr e ↦ rw e (rw (symbols_get_limited-innermost rest name))
]

unfoldable pub found_unique : Option Symbol → Option ℕ
found_unique none = none
found_unique (some s) = some s.unique

set_cookie-get :
    (c : ℕ) (symbols : List Symbol) (name : Name) (stop : Bool)
    → found_unique (symbols_get_impl (set_cookie c symbols) name stop)
      ≡ found_unique (symbols_get_impl symbols name stop)
unfolding symbols_get_impl found_unique
set_cookie-get c [] name stop = refl
set_cookie-get c (s ∷ rest) name stop = ground arith

suffix_self : (table : List Symbol) → suffix (length table) table ≡ table
suffix_self [] = refl
suffix_self (s ∷ rest) = rw (test_refl (length (s ∷ rest)))
  where
    test_refl : (n : ℕ) → leb n n ≡ true
    test_refl n = ground arith

pub suffix-append :
    (declared table : List Symbol) → suffix (length table) (declared ++ table) ≡ table
suffix-append [] table = suffix_self table
suffix-append (s ∷ declared) table =
    rw
      (longer (length (declared ++ table)) (length table)
        (omega (arith, length-append declared table)))
      (suffix-append declared table)
  where
    longer : (n m : ℕ) → m ≤ n → leb (suc n) m ≡ false
    longer n m h = ground arith

-- Leaving a scope undoes its declarations: every look-up, limited or not, finds the symbol that it
-- would have found before them, told by its identifier.
pub symbols_reset_scope-get :
    (declared table : List Symbol) (name : Name) (stop : Bool)
    → found_unique
        (symbols_get_impl (symbols_reset_scope (declared ++ table) (length table)) name stop)
      ≡ found_unique (symbols_get_impl table name stop)
unfolding symbols_reset_scope
symbols_reset_scope-get declared table name stop =
    rw (suffix-append declared table)
      (set_cookie-get (head_cookie (declared ++ table)) table name stop)

-- A look-up for a name just declared finds the new symbol, whatever the table held; one for another
-- name gives what it gave before.
pub symbols_prepend-get :
    (name other : Name) (stype : SymbolType) (c89type : Ctype) (table : List Symbol) (stop : Bool)
    → found_unique (symbols_get_impl (symbols_prepend name stype c89type table) other stop) ≡ (
        if name_eq name other
        then some (next_unique table)
        else found_unique (symbols_get_impl table other stop))
unfolding symbols_prepend symbols_get_impl found_unique
symbols_prepend-get name other stype c89type table stop = ground arith
