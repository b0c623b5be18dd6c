-- ===== src/Parse/Specifiers/Table.antt =====
-- parse_basic_type_finalize of passes/parse/declaration.c: the spellings of each type.
use enqcc.Base.{ℕ, ◌+◌, ◌≤◌, ◌≡◌, ◌≢◌, ok, err, assertion_failed, arith}
use enqcc.Lang.Types.{
  TypeTag, void, char, signed_char, unsigned_char, int, unsigned_int, long, unsigned_long, double,
}
use enqcc.Parse.Specifiers.{
  BasicTypeState, finalize_integer, finalize_char, finalize_groups, parse_basic_type_finalize,
}

-- `void`, `char` and `double` as often as given, and no other of the three.
abbrev Marks : ℕ → ℕ → ℕ → BasicTypeState → Type 0
Marks v c d s = (s.n_void ≡ v) × (s.n_char ≡ c) × (s.n_double ≡ d)

-- `long`, `unsigned` and `signed` as often as given, the last at most, and `int` at most that often.
abbrev Sized : ℕ → ℕ → ℕ → ℕ → BasicTypeState → Type 0
Sized l u g i s = (s.n_long ≡ l) × (s.n_unsigned ≡ u) × (s.n_signed ≤ g) × (s.n_int ≤ i)

-- The spellings of each type in C: `signed` may be left off from `int` and `long`, `int` wherever
-- another specifier of an integer type stands.
abbrev pub Spells : TypeTag → BasicTypeState → Type 0
Spells void s = Marks 1 0 0 s × Sized 0 0 0 0 s
Spells double s = Marks 0 0 1 s × Sized 0 0 0 0 s
Spells char s = Marks 0 1 0 s × Sized 0 0 0 0 s
Spells signed_char s = Marks 0 1 0 s × Sized 0 0 1 0 s × (s.n_signed ≡ 1)
Spells unsigned_char s = Marks 0 1 0 s × Sized 0 1 0 0 s
Spells int s = Marks 0 0 0 s × Sized 0 0 1 1 s × (1 ≤ s.n_int + s.n_signed)
Spells unsigned_int s = Marks 0 0 0 s × Sized 0 1 0 1 s
Spells long s = Marks 0 0 0 s × Sized 1 0 1 1 s
Spells unsigned_long s = Marks 0 0 0 s × Sized 1 1 0 1 s
Spells _ s = ⊥

-- The specifiers of each spelling give its type.
pub Spells-parse_basic_type_finalize :
    (t : TypeTag) (s : BasicTypeState) → Spells t s → parse_basic_type_finalize s ≡ ok t
unfolding parse_basic_type_finalize finalize_groups finalize_char finalize_integer
Spells-parse_basic_type_finalize void s h = ground arith
Spells-parse_basic_type_finalize _ s h = ground arith

-- Whatever the specifiers, neither the assertion on `int` and `signed` nor the one behind the
-- `switch` on `long` fails.
pub parse_basic_type_finalize-ne-assertion :
    (s : BasicTypeState) → parse_basic_type_finalize s ≢ err assertion_failed
unfolding parse_basic_type_finalize finalize_groups finalize_char finalize_integer
parse_basic_type_finalize-ne-assertion s h = ground arith
