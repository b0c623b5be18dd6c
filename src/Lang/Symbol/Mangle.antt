-- ===== src/Lang/Symbol/Mangle.antt =====
-- lang/symbol.c: is_mangled and mangle_name. The decimal digits of `%lld` are asprintf's, and so a
-- parameter.
use enqcc.Base.{
  ℕ, ◌≡◌, refl, ap, sym, ◌∙◌, Bool, true, false, ◌||◌, [], ◌∷◌, ◌++◌, ◌==◌, if◌then◌else◌, arith,
}
use enqcc.Lang.Symbol.{Name, Symbol}

abbrev pub mangle_delimiter : ℕ
mangle_delimiter = b'.'

-- memchr(name, '.', size) != NULL
unfoldable pub has_delimiter : Name → Bool
has_delimiter [] = false
has_delimiter (c ∷ name) = c == mangle_delimiter || has_delimiter name

unfoldable pub is_mangled : Symbol → Bool
unfolding has_delimiter
is_mangled s = has_delimiter s.name

has_delimiter-append :
    (name digits : Name) → has_delimiter (name ++ mangle_delimiter ∷ digits) ≡ true
unfolding has_delimiter
has_delimiter-append [] digits = refl
has_delimiter-append (c ∷ name) digits = ground (arith, has_delimiter-append name digits)

-- The text in front of the first delimiter, and that behind it.
before_delimiter : Name → Name
before_delimiter [] = []
before_delimiter (c ∷ name) =
    let rest = before_delimiter name in if c == mangle_delimiter then [] else c ∷ rest

after_delimiter : Name → Name
after_delimiter [] = []
after_delimiter (c ∷ name) =
    let rest = after_delimiter name in if c == mangle_delimiter then name else rest

split_mangled :
    (name digits : Name)
    → has_delimiter name ≡ false
    → (before_delimiter (name ++ mangle_delimiter ∷ digits) ≡ name)
      × (after_delimiter (name ++ mangle_delimiter ∷ digits) ≡ digits)
unfolding has_delimiter before_delimiter after_delimiter
split_mangled [] digits h = (refl, refl)
split_mangled (c ∷ name) digits h = ground (arith, split_mangled name digits)

module _ (decimal : ℕ → Name) where
  unfoldable pub mangle_name : Symbol → Symbol
  mangle_name s = record s { name = s.name ++ mangle_delimiter ∷ decimal s.unique }

  -- A mangled symbol is recognised as one.
  pub mangle_name-is_mangled : (s : Symbol) → is_mangled (mangle_name s) ≡ true
  unfolding mangle_name is_mangled
  mangle_name-is_mangled s = has_delimiter-append s.name (decimal s.unique)

  -- Where different numbers have different digits, two symbols whose names held no delimiter get
  -- the same mangled name only if both their names and their identifiers are the same.
  pub mangle_name-injective :
      ((n m : ℕ) → decimal n ≡ decimal m → n ≡ m)
      → (s t : Symbol) → is_mangled s ≡ false
      → is_mangled t ≡ false
      → (mangle_name s).name ≡ (mangle_name t).name
      → (s.name ≡ t.name) × (s.unique ≡ t.unique)
  unfolding mangle_name is_mangled
  mangle_name-injective distinct s t hs ht e =
      let left = split_mangled s.name (decimal s.unique) hs in
      let right = split_mangled t.name (decimal t.unique) ht in
      (
        sym left.0 ∙ ap before_delimiter e ∙ right.0,
        distinct s.unique t.unique (sym left.1 ∙ ap after_delimiter e ∙ right.1),
      )
