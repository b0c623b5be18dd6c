-- ===== src/Sema/Gotos/Names.antt =====
-- The names in the table of labels while the nodes of a function are entered.
use enqcc.Base.{
  ℕ, ◌+◌, ◌<◌, ◌≡◌, ◌≢◌, inl, inr, refl, sym, ◌∙◌, subst, Bool, true, false, Bool-cases, Option,
  none, some, Option-cases, List, [], ◌∷◌, ◌++◌, length, ltb, All, Any, All-append, All-map,
  All-member, All-replace, Any-left, Any-right, Any-replace, Pairwise, if◌then◌else◌, Returns,
  arith,
}
use enqcc.Lang.Symbol.{Name, name_eq}
use enqcc.Lang.Symbol.Scope.{name_eq_refl}
use enqcc.Sema.Gotos.{
  Node, goto_, label, function_declaration, other, Label, GotosState, labels_get, new_label,
  find_or_add, labels_prepend, as_goto_target, as_label,
}
use enqcc.Sema.Gotos.State.{IsFound, get-IsFound, new-IsFound}
use enqcc.Sema.Gotos.Marks.{Any-middle}

-- The node is a label, or a goto, of this name.
abbrev pub Labels : Name → Node → Type 0
Labels name (label n id) = n ≡ name
Labels name _ = ⊥

abbrev pub Targets : Name → Node → Type 0
Targets name (goto_ n id) = n ≡ name
Targets name _ = ⊥

pub record IsMarked (name : Name) (l : Label) : Type 0 where
  pub named : l.name ≡ name
  pub flagged : l.used_as_label ≡ true

-- The entry of a label that was entered is marked.
abbrev pub Marked : List Label → Node → Type 0
Marked labels (label n id) = Any (IsMarked n) labels
Marked labels _ = Unit

-- The table after the nodes `done`.
pub record IsNamed (done : List Node) (labels : List Label) : Type 0 where
  pub used_backed : All (λ l. l.used_as_label ≡ true → Any (Labels l.name) done) labels
  pub target_backed : All (λ l. l.used_as_goto_target ≡ true → Any (Targets l.name) done) labels
  pub marked : All (Marked labels) done
  pub distinct : Pairwise (λ l m. l.name ≢ m.name) labels

get-none :
    (name : Name) (labels : List Label)
    → labels_get labels name ≡ none
    → All (λ m. name ≢ m.name) labels
unfolding labels_get
get-none name [] e = tt
get-none name (i ∷ rest) e = elim (Bool-cases (name_eq name i.name)) [
  | inl q ↦ absurd (found _ q e)
  | inr q ↦ (
    (λ same. both q (subst (λ n. name_eq name n ≡ true) same (name_eq_refl name))),
    get-none name rest (next q e),
  )
]
  where
    found : {b : Bool} (y : Option Label) → b ≡ true → (if b then some i else y) ≡ none → ⊥
    found y q e = ground arith

    next : {b : Bool} {y : Option Label} → b ≡ false → (if b then some i else y) ≡ none → y ≡ none
    next q e = ground arith

    both : {b : Bool} → b ≡ false → b ≡ true → ⊥
    both p q = ground arith

Marked-new :
    (n : Label) (labels : List Label) (node : Node) → Marked labels node → Marked (n ∷ labels) node
Marked-new n labels (label m id) h = inr h
Marked-new n labels (goto_ m id) h = h
Marked-new n labels function_declaration h = h
Marked-new n labels other h = h

-- What labels_prepend leaves.
unfoldable pub Named : List Node → Name → Label × GotosState → Type 0
Named done name r = IsNamed done r.1.labels × IsFound name r.0 r.1.labels

pub labels_prepend-Named :
    (done : List Node) (state : GotosState) (name : Name)
    → 0 < length name
    → IsNamed done state.labels
    → Returns (Named done name) (labels_prepend state name)
unfolding labels_prepend find_or_add Named
labels_prepend-Named done state name p h = elim (Option-cases (labels_get state.labels name)) [
  | inl e ↦
      rw (nonempty (length name) p, e)
        (
          record {
            used_backed = ((λ u. cc), h.used_backed);
            target_backed = ((λ u. cc), h.target_backed);
            marked =
                All-map _ _ done (Marked-new (new_label name (state.generator + 1)) state.labels)
                  h.marked;
            distinct = (get-none name state.labels e, h.distinct);
          },
          new-IsFound name (state.generator + 1) state.labels,
        )
  | inr (l, e) ↦ rw (nonempty (length name) p, e) (h, get-IsFound name state.labels l e)
]
  where
    nonempty : (n : ℕ) → 0 < n → ltb 0 n ≡ true
    nonempty n p = ground arith

-- Marking an entry keeps the names.
distinct-flag :
    (l l' : Label) (before after : List Label)
    → l'.name ≡ l.name
    → Pairwise (λ x y. x.name ≢ y.name) (before ++ l ∷ after)
    → Pairwise (λ x y. x.name ≢ y.name) (before ++ l' ∷ after)
distinct-flag l l' [] after e h =
    (All-map (λ y. l.name ≢ y.name) (λ y. l'.name ≢ y.name) after (λ y p q. p (sym e ∙ q)) h.0, h.1)
distinct-flag l l' (b ∷ before) after e h = (
  All-replace (λ y. b.name ≢ y.name) before after l l'
      (λ q. All-member (λ y. b.name ≢ y.name) before after l h.0 (q ∙ e)) h.0,
  distinct-flag l l' before after e h.1,
)

Marked-flag :
    (l l' : Label) (before after : List Label) (node : Node)
    → ((n : Name) → IsMarked n l → IsMarked n l')
    → Marked (before ++ l ∷ after) node
    → Marked (before ++ l' ∷ after) node
Marked-flag l l' before after (label n id) f h = Any-replace (IsMarked n) before after l l' (f n) h
Marked-flag l l' before after (goto_ n id) f h = h
Marked-flag l l' before after function_declaration f h = h
Marked-flag l l' before after other f h = h

-- Another node backs the entries that were backed.
module _ (done : List Node) (node : Node) where
  pub used-more :
      (labels : List Label)
      → All (λ l. l.used_as_label ≡ true → Any (Labels l.name) done) labels
      → All (λ l. l.used_as_label ≡ true → Any (Labels l.name) (done ++ node ∷ [])) labels
  used-more labels h =
      All-map _ _ labels (λ l b u. Any-left (Labels l.name) done (node ∷ []) (b u)) h

  pub target-more :
      (labels : List Label)
      → All (λ l. l.used_as_goto_target ≡ true → Any (Targets l.name) done) labels
      → All (λ l. l.used_as_goto_target ≡ true → Any (Targets l.name) (done ++ node ∷ [])) labels
  target-more labels h =
      All-map _ _ labels (λ l b u. Any-left (Targets l.name) done (node ∷ []) (b u)) h

module _ (done : List Node) (before after : List Label) (l : Label) (name : Name) (id : ℕ)
    (h : IsNamed done (before ++ l ∷ after)) (named : l.name ≡ name) where
  pub goto-IsNamed : IsNamed (done ++ goto_ name id ∷ []) (before ++ as_goto_target l ∷ after)
  goto-IsNamed = record {
    used_backed =
        All-replace _ before after l (as_goto_target l)
          (All-member _ before after l (used-more done (goto_ name id) _ h.used_backed))
          (used-more done (goto_ name id) _ h.used_backed);
    target_backed =
        All-replace _ before after l (as_goto_target l)
          (λ t. Any-right (Targets l.name) done (goto_ name id ∷ []) (inl (sym named)))
          (target-more done (goto_ name id) _ h.target_backed);
    marked =
        All-append _ done _
          (All-map _ _ done
            (λ node m.
              Marked-flag l (as_goto_target l) before after node
                (λ n u. record { named = u.named; flagged = u.flagged }) m)
            h.marked)
          (tt, tt);
    distinct = distinct-flag l (as_goto_target l) before after refl h.distinct;
  }

  pub label-IsNamed : IsNamed (done ++ label name id ∷ []) (before ++ as_label l ∷ after)
  label-IsNamed = record {
    used_backed =
        All-replace _ before after l (as_label l)
          (λ u. Any-right (Labels l.name) done (label name id ∷ []) (inl (sym named)))
          (used-more done (label name id) _ h.used_backed);
    target_backed =
        All-replace _ before after l (as_label l)
          (All-member _ before after l (target-more done (label name id) _ h.target_backed))
          (target-more done (label name id) _ h.target_backed);
    marked =
        All-append _ done _
          (All-map _ _ done
            (λ node m.
              Marked-flag l (as_label l) before after node
                (λ n u. record { named = u.named; flagged = refl }) m)
            h.marked)
          (
            Any-middle (IsMarked name) before after (as_label l)
                (record { named = named; flagged = refl }),
            tt,
          );
    distinct = distinct-flag l (as_label l) before after refl h.distinct;
  }

  -- A label of a name that is new among the nodes is not marked yet.
  pub label-unused : (Any (Labels name) done → ⊥) → l.used_as_label ≡ false
  label-unused fresh = elim (Bool-cases l.used_as_label) [
    | inl u ↦ absurd (
        fresh (
          subst (λ n. Any (Labels n) done) named
            (All-member (λ m. m.used_as_label ≡ true → Any (Labels m.name) done) before after l
              h.used_backed u)))
    | inr u ↦ u
  ]
