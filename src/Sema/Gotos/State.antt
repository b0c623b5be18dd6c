-- ===== src/Sema/Gotos/State.antt =====
-- The table of labels while the nodes of a function are entered.
use enqcc.Base.{
  ℕ, ltb, length, assertion_failed, ◌+◌, ◌≤◌, ◌<◌, ◌≡◌, ◌≢◌, inl, inr, refl, Bool, true, false,
  Option, some, List, [], ◌∷◌, ◌++◌, All, Any, All-map, Pairwise, Whenever, Whenever-guard, ap, sym,
  subst, Bool-cases, Option-cases, ok, arith, if◌then◌else◌,
}
use enqcc.Lang.Symbol.{Name, name_eq}
use enqcc.Lang.Symbol.Scope.{name_eq_refl, name_eq-eq}
use enqcc.Sema.Gotos.{
  Node, goto_, label, function_declaration, other, Label, GotosState, labels_get, new_label,
  find_or_add, labels_prepend, set_flags,
}

-- The node is the label of this name and identifier.
abbrev pub IsLabel : Name → ℕ → Node → Type 0
IsLabel name id (label n unique) = (n ≡ name) × (unique ≡ id)
IsLabel name id _ = ⊥

-- The node is neither a goto nor a label.
abbrev pub IsQuiet : Node → Type 0
IsQuiet (goto_ n id) = ⊥
IsQuiet (label n id) = ⊥
IsQuiet _ = Unit

-- The entry of the table has this name and identifier, and is a target, or a label.
pub record IsTarget (name : Name) (id : ℕ) (l : Label) : Type 0 where
  pub named : l.name ≡ name
  pub same : l.id ≡ id
  pub flagged : l.used_as_goto_target ≡ true

pub record IsUsed (name : Name) (id : ℕ) (l : Label) : Type 0 where
  pub named : l.name ≡ name
  pub same : l.id ≡ id
  pub flagged : l.used_as_label ≡ true

-- What a node that has been entered left in the table.
abbrev pub Entered : List Label → Node → Type 0
Entered labels (goto_ n id) = Any (IsTarget n id) labels
Entered labels (label n id) = Any (IsUsed n id) labels
Entered labels _ = Unit

-- An entry that is marked as a label stands for a label among the nodes.
abbrev pub Backed : List Node → Label → Type 0
Backed done l = l.used_as_label ≡ true → Any (IsLabel l.name l.id) done

-- Two nodes are not labels of the same identifier.
abbrev pub OtherLabel : Node → Node → Type 0
OtherLabel (label n id) (label m id') = id ≢ id'
OtherLabel _ _ = Unit

-- The state after the nodes `done` of a function, which started at the generator `start`.
pub record IsState (start : ℕ) (done : List Node) (state : GotosState) : Type 0 where
  pub entered : All (Entered state.labels) done
  pub backed : All (Backed done) state.labels
  pub apart : Pairwise (λ l m. m.id < l.id) state.labels
  pub bounds : All (λ l. (start < l.id) × (l.id ≤ state.generator)) state.labels
  pub unique : Pairwise OtherLabel done
  pub grows : start ≤ state.generator

-- The entry stands in the table, where set_flags finds it.
pub record IsFound (name : Name) (l : Label) (labels : List Label) : Type 0 where
  pub before : List Label
  pub after : List Label
  pub named : l.name ≡ name
  pub split : labels ≡ before ++ l ∷ after
  pub flag : (f : Label → Label) → set_flags f name labels ≡ before ++ f l ∷ after

chosen :
    {b : Bool} {x l : Label} (y : Option Label)
    → b ≡ true
    → (if b then some x else y) ≡ some l
    → x ≡ l
chosen y q e = ground arith

passed :
    {b : Bool} (x : Label) {l : Label} {y : Option Label}
    → b ≡ false
    → (if b then some x else y) ≡ some l
    → y ≡ some l
passed x q e = ground arith

pub get-IsFound :
    (name : Name) (labels : List Label) (l : Label)
    → labels_get labels name ≡ some l
    → IsFound name l labels
unfolding labels_get set_flags
get-IsFound name [] l e = cc
get-IsFound name (i ∷ rest) l e = elim (Bool-cases (name_eq name i.name)) [
  | inl q ↦
      let same = chosen _ q e in
      record {
        before = [];
        after = rest;
        named = sym (subst (λ x. name ≡ x.name) same (name_eq-eq name i.name q));
        split = ap (λ x. x ∷ rest) same;
        flag = λ f. rw q (ap (λ x. f x ∷ rest) same);
      }
  | inr q ↦
      let found = get-IsFound name rest l (passed i q e) in
      record {
        before = i ∷ found.before;
        after = found.after;
        named = found.named;
        split = ap (λ r. i ∷ r) found.split;
        flag = λ f. rw q (ap (λ r. i ∷ r) (found.flag f));
      }
]

pub new-IsFound :
    (name : Name) (id : ℕ) (labels : List Label)
    → IsFound name (new_label name id) (new_label name id ∷ labels)
unfolding set_flags
new-IsFound name id labels = record {
  before = [];
  after = labels;
  named = refl;
  split = refl;
  flag = λ f. rw (name_eq_refl name) refl;
}

-- A new entry keeps what the nodes so far left in the table.
Entered-new :
    (n : Label) (labels : List Label) (node : Node)
    → Entered labels node
    → Entered (n ∷ labels) node
Entered-new n labels (goto_ m id) h = inr h
Entered-new n labels (label m id) h = inr h
Entered-new n labels function_declaration h = h
Entered-new n labels other h = h

new-IsState :
    (start : ℕ) (done : List Node) (state : GotosState) (name : Name)
    → IsState start done state
    → IsState start done (record {
      generator = state.generator + 1;
      labels = new_label name (state.generator + 1) ∷ state.labels;
    })
new-IsState start done state name h = record {
  entered =
      All-map _ _ done (Entered-new (new_label name (state.generator + 1)) state.labels) h.entered;
  backed = (λ e. cc, h.backed);
  apart = (All-map _ _ state.labels (λ l b. omega (arith, b.1)) h.bounds, h.apart);
  bounds = (
    (omega (arith, h.grows), omega arith),
    All-map _ _ state.labels (λ l b. (b.0, omega (arith, b.1))) h.bounds,
  );
  unique = h.unique;
  grows = omega (arith, h.grows);
}

-- What labels_prepend leaves.
unfoldable pub Prepended : ℕ → List Node → Name → Label × GotosState → Type 0
Prepended start done name r = IsState start done r.1 × IsFound name r.0 r.1.labels

pub labels_prepend-Prepended :
    (start : ℕ) (done : List Node) (state : GotosState) (name : Name)
    → IsState start done state
    → Whenever (Prepended start done name) (labels_prepend state name)
unfolding labels_prepend find_or_add Prepended
labels_prepend-Prepended start done state name h =
    Whenever-guard (Prepended start done name) (ltb 0 (length name)) assertion_failed
      (ok (find_or_add state name (labels_get state.labels name)))
      λ q. elim (Option-cases (labels_get state.labels name)) [
        | inl e ↦ rw e (
          new-IsState start done state name h,
          new-IsFound name (state.generator + 1) state.labels,
        )
        | inr (l, e) ↦ rw e (h, get-IsFound name state.labels l e)
      ]
