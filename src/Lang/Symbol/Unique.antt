-- ===== src/Lang/Symbol/Unique.antt =====
-- The identifiers that the symbol table of lang/symbol.c gives out.
use enqcc.Base.{
  ℕ, ◌≤◌, ◌<◌, ◌≡◌, ◌≢◌, refl, Bool, true, Bool-cases, inl, inr, List, [], ◌∷◌, leb, length, All,
  All-map, arith, map, ltb, ltb→lt,
}
use enqcc.Lang.Types.{Ctype}
use enqcc.Lang.Symbol.{
  SymbolType, Name, Symbol, symbols_prepend, suffix, set_cookie, head_cookie, symbols_reset_scope,
}

-- What the compiler does with a table: declare a symbol, or leave a scope down to a symbol that is
-- still in the table, given by the number of symbols from it to the end.
pub data Action : Type 0 where
  declare : Name → SymbolType → Ctype → Action
  leave : ℕ → Action

-- The reset point is not NULL: the table keeps a symbol.
abbrev pub is_inner : Action → Bool
is_inner (declare name stype c89type) = true
is_inner (leave k) = ltb 0 k

abbrev pub head_unique : List Symbol → ℕ
head_unique [] = 0
head_unique (head ∷ rest) = head.unique

-- The table after the actions, and the identifiers given out on the way, the last one first.
unfoldable pub run : List Action → List Symbol → List ℕ → List Symbol × List ℕ
run [] symbols issued = (symbols, issued)
run (declare name stype c89type ∷ actions) symbols issued =
    let symbols' = symbols_prepend name stype c89type symbols in
    run actions symbols' (head_unique symbols' ∷ issued)
run (leave k ∷ actions) symbols issued = run actions (symbols_reset_scope symbols k) issued

abbrev pub Descending : List ℕ → Type 0
Descending [] = Unit
Descending (x ∷ xs) = All (λ y. y < x) xs × Descending xs

abbrev uniques : List Symbol → List ℕ
uniques = map (λ s. s.unique)

record IsTable (symbols : List Symbol) (issued : List ℕ) : Type 0 where
  descending : Descending issued
  bounded : All (λ u. u ≤ head_cookie symbols) issued
  own : All (λ u. u ≤ head_cookie symbols) (uniques symbols)
  ordered : Descending (uniques symbols)
  used : issued ≢ [] → symbols ≢ []

below : (c d : ℕ) (us : List ℕ) → c < d → All (λ u. u ≤ c) us → All (λ u. u < d) us
below c d us h a = All-map (λ u. u ≤ c) (λ u. u < d) us (λ u p. omega arith) a

raised : (c d : ℕ) (us : List ℕ) → c ≤ d → All (λ u. u ≤ c) us → All (λ u. u ≤ d) us
raised c d us h a = All-map (λ u. u ≤ c) (λ u. u ≤ d) us (λ u p. omega arith) a

prepend-IsTable :
    (name : Name) (stype : SymbolType) (c89type : Ctype) (symbols : List Symbol) (issued : List ℕ)
    → IsTable symbols issued
    → IsTable
        (symbols_prepend name stype c89type symbols)
        (head_unique (symbols_prepend name stype c89type symbols) ∷ issued)
unfolding symbols_prepend
prepend-IsTable name stype c89type [] [] h = record {
  descending = (tt, tt);
  bounded = (omega arith, tt);
  own = (omega arith, tt);
  ordered = (tt, tt);
  used = λ n e. cc;
}
prepend-IsTable name stype c89type [] (u ∷ us) h = absurd (h.used (λ e. cc) refl)
prepend-IsTable name stype c89type (s ∷ rest) issued h = record {
  descending = (below s.cookie _ issued (omega arith) h.bounded, h.descending);
  bounded = (omega arith, raised s.cookie _ issued (omega arith) h.bounded);
  own = (omega arith, raised s.cookie _ (uniques (s ∷ rest)) (omega arith) h.own);
  ordered = (below s.cookie _ (uniques (s ∷ rest)) (omega arith) h.own, h.ordered);
  used = λ n e. cc;
}

-- A suffix keeps what holds of all, and the order.
All-suffix :
    (P : ℕ → Type 0) (k : ℕ) (symbols : List Symbol)
    → All P (uniques symbols)
    → All P (uniques (suffix k symbols))
All-suffix P k [] h = tt
All-suffix P k (s ∷ rest) h = elim (Bool-cases (leb (length (s ∷ rest)) k)) [
  | inl e ↦ rw e h
  | inr e ↦ rw e (All-suffix P k rest h.1)
]

Descending-suffix :
    (k : ℕ) (symbols : List Symbol)
    → Descending (uniques symbols)
    → Descending (uniques (suffix k symbols))
Descending-suffix k [] h = tt
Descending-suffix k (s ∷ rest) h = elim (Bool-cases (leb (length (s ∷ rest)) k)) [
  | inl e ↦ rw e h
  | inr e ↦ rw e (Descending-suffix k rest h.1)
]

uniques-set_cookie :
    (c : ℕ) (symbols : List Symbol) → uniques (set_cookie c symbols) ≡ uniques symbols
uniques-set_cookie c [] = refl
uniques-set_cookie c (s ∷ rest) = refl

-- With a symbol to keep, a suffix is not empty.
suffix-ne-nil : (k : ℕ) (symbols : List Symbol) → 0 < k → symbols ≢ [] → suffix k symbols ≢ []
suffix-ne-nil k [] p n = n
suffix-ne-nil k (s ∷ []) p n = ground arith
suffix-ne-nil k (s ∷ t ∷ rest) p n = elim (Bool-cases (leb (length (s ∷ t ∷ rest)) k)) [
  | inl e ↦ rw e (λ x. cc)
  | inr e ↦ rw e (suffix-ne-nil k (t ∷ rest) p (λ x. cc))
]

head_cookie-set_cookie :
    (c : ℕ) (symbols : List Symbol) → symbols ≢ [] → head_cookie (set_cookie c symbols) ≡ c
head_cookie-set_cookie c [] n = absurd (n refl)
head_cookie-set_cookie c (s ∷ rest) n = refl

set_cookie-ne-nil : (c : ℕ) (symbols : List Symbol) → symbols ≢ [] → set_cookie c symbols ≢ []
set_cookie-ne-nil c [] n = n
set_cookie-ne-nil c (s ∷ rest) n = λ e. cc

reset-IsTable :
    (k : ℕ) (symbols : List Symbol) (issued : List ℕ)
    → 0 < k
    → IsTable symbols issued
    → IsTable (symbols_reset_scope symbols k) issued
unfolding symbols_reset_scope
reset-IsTable k [] issued p h = h
reset-IsTable k (s ∷ rest) issued p h =
    let kept = suffix-ne-nil k (s ∷ rest) p (λ e. cc) in
    record {
      descending = h.descending;
      bounded = rw (head_cookie-set_cookie s.cookie (suffix k (s ∷ rest)) kept) h.bounded;
      own =
          rw
            (
              head_cookie-set_cookie s.cookie (suffix k (s ∷ rest)) kept,
              uniques-set_cookie s.cookie (suffix k (s ∷ rest)),
            )
            (All-suffix (λ u. u ≤ s.cookie) k (s ∷ rest) h.own);
      ordered =
          rw (uniques-set_cookie s.cookie (suffix k (s ∷ rest)))
            (Descending-suffix k (s ∷ rest) h.ordered);
      used = λ n. set_cookie-ne-nil s.cookie (suffix k (s ∷ rest)) kept;
    }

run-IsTable :
    (actions : List Action) (symbols : List Symbol) (issued : List ℕ)
    → All (λ a. is_inner a ≡ true) actions
    → IsTable symbols issued
    → IsTable (run actions symbols issued).0 (run actions symbols issued).1
unfolding run
run-IsTable [] symbols issued a h = h
run-IsTable (declare name stype c89type ∷ actions) symbols issued a h =
    run-IsTable actions (symbols_prepend name stype c89type symbols)
      (head_unique (symbols_prepend name stype c89type symbols) ∷ issued) a.1
      (prepend-IsTable name stype c89type symbols issued h)
run-IsTable (leave k ∷ actions) symbols issued a h =
    run-IsTable actions (symbols_reset_scope symbols k) issued a.1
      (reset-IsTable k symbols issued (ltb→lt 0 k a.0) h)

empty-IsTable : IsTable [] []
empty-IsTable = record {
  descending = tt;
  bounded = tt;
  own = tt;
  ordered = tt;
  used = λ n. absurd (n refl);
}

-- Whatever symbols are declared and scopes left, as long as the table keeps a symbol, each
-- identifier is larger than all that were given out before it, also those of scopes that are left.
pub run-Descending :
    (actions : List Action)
    → All (λ a. is_inner a ≡ true) actions
    → Descending (run actions [] []).1
run-Descending actions a = (run-IsTable actions [] [] a empty-IsTable).descending
