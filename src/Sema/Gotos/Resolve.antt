-- ===== src/Sema/Gotos/Resolve.antt =====
-- sema_label_gotos of passes/sema.c: the gotos of one function and their labels.
use enqcc.Base.{
  ℕ, sema_label_duplicate, ◌≤◌, ◌<◌, ◌≡◌, inl, inr, refl, Bool, true, false, not, ◌&&◌, List, [],
  ◌∷◌, ◌++◌, All, Any, All-append, All-map, Any-left, Pairwise, Pairwise-snoc, Whenever,
  Whenever-bind, Whenever-guard, sym, subst, Bool-cases, ok, ◌>>=◌, arith,
}
use enqcc.Lang.Symbol.{Name}
use enqcc.Sema.Gotos.{
  Node, goto_, label, function_declaration, other, Label, GotosState, labels_prepend,
  as_goto_target, as_label, sema_enter_goto_id, walk_node, enter_nodes, all_exist,
  sema_exit_goto_id, label_function,
}
use enqcc.Sema.Gotos.State.{
  IsLabel, IsQuiet, IsTarget, IsUsed, Entered, Backed, OtherLabel, IsState, Prepended,
  labels_prepend-Prepended,
}
use mathlib.Core.List.{append_assoc, append-nil}
use native.Mathlib.Nat.{le_refl}
use enqcc.Sema.Gotos.Marks.{table, goto-IsState, label-IsState}

-- What a node left, the nodes before it being `done`.
abbrev Next : ℕ → List Node → Node × GotosState → Type 0
Next start done r = IsState start (done ++ r.0 ∷ []) r.1

fresh_label : {b : Bool} → not b ≡ true → b ≡ false
fresh_label q = ground arith

-- A node that has no identifier leaves the state as it is.
quiet-IsState :
    (start : ℕ) (done : List Node) (node : Node) (state : GotosState)
    → IsQuiet node
    → IsState start done state
    → IsState start (done ++ node ∷ []) state
quiet-IsState start done node state q h = record {
  entered = All-append _ done _ h.entered (entered node q, tt);
  backed =
      All-map _ _ state.labels (λ l b u. Any-left (IsLabel l.name l.id) done (node ∷ []) (b u))
        h.backed;
  apart = h.apart;
  bounds = h.bounds;
  unique = Pairwise-snoc OtherLabel done node h.unique (trivial node q done);
  grows = h.grows;
}
  where
    entered : (node : Node) → IsQuiet node → Entered state.labels node
    entered function_declaration q = tt
    entered other q = tt
    entered (goto_ n id) q = absurd q
    entered (label n id) q = absurd q

    apart : (x node : Node) → IsQuiet node → OtherLabel x node
    apart (label n id) (label m id') q = absurd q
    apart (label n id) (goto_ m id') q = tt
    apart (label n id) function_declaration q = tt
    apart (label n id) other q = tt
    apart (goto_ n id) node q = tt
    apart function_declaration node q = tt
    apart other node q = tt

    trivial :
        (node : Node) → IsQuiet node → (nodes : List Node) → All (λ x. OtherLabel x node) nodes
    trivial node q [] = tt
    trivial node q (x ∷ nodes) = (apart x node q, trivial node q nodes)

-- A declaration of a function asks for an empty table, and leaves it empty.
declaration-Next :
    (start : ℕ) (done : List Node) (generator : ℕ) (labels : List Label)
    → IsState start done (table generator labels)
    → Whenever (Next start done) (walk_node function_declaration (table generator labels))
unfolding walk_node sema_enter_goto_id sema_exit_goto_id all_exist
declaration-Next start done generator [] h =
    quiet-IsState start done function_declaration (table generator []) tt h
declaration-Next start done generator (l ∷ labels) h = tt

walk_node-Next :
    (start : ℕ) (done : List Node) (node : Node) (state : GotosState)
    → IsState start done state
    → Whenever (Next start done) (walk_node node state)
unfolding walk_node sema_enter_goto_id Prepended
walk_node-Next start done (goto_ name t) state h =
    Whenever-bind (Prepended start done name) (Next start done) (labels_prepend state name) _
      (labels_prepend-Prepended start done state name h)
      λ (l, state') (h', found). rw (found.flag as_goto_target) (
        goto-IsState start state'.generator done found.before found.after l name
          (subst (λ ls. IsState start done (table state'.generator ls)) found.split h') found.named)
walk_node-Next start done (label name u) state h =
    Whenever-bind (Prepended start done name) (Next start done) (labels_prepend state name) _
      (labels_prepend-Prepended start done state name h)
      λ (l, state') (h', found).
        Whenever-guard (Next start done) (not l.used_as_label) sema_label_duplicate _ λ q.
          rw (found.flag as_label) (
            label-IsState start state'.generator done found.before found.after l name
              (subst (λ ls. IsState start done (table state'.generator ls)) found.split h')
              found.named (fresh_label q))
walk_node-Next start done function_declaration state h =
    declaration-Next start done state.generator state.labels h
walk_node-Next start done other state h = quiet-IsState start done other state tt h

-- What a walk left.
abbrev Walked : ℕ → List Node → List Node × GotosState → Type 0
Walked start done r = IsState start (done ++ r.0) r.1

enter_nodes-Walked :
    (start : ℕ) (done nodes : List Node) (state : GotosState)
    → IsState start done state
    → Whenever (Walked start done) (enter_nodes nodes state)
unfolding enter_nodes
enter_nodes-Walked start done [] state h =
    subst (λ d. IsState start d state) (sym (append-nil done)) h
enter_nodes-Walked start done (node ∷ nodes) state h =
    Whenever-bind (Next start done) (Walked start done) (walk_node node state) _
      (walk_node-Next start done node state h)
      λ (node', state') h'.
        Whenever-bind (Walked start (done ++ node' ∷ [])) (Walked start done)
          (enter_nodes nodes state') _
          (enter_nodes-Walked start (done ++ node' ∷ []) nodes state' h')
          λ (nodes', state'') h''.
            subst (λ d. IsState start d state'') (append_assoc done (node' ∷ []) nodes') h''

-- A goto has the identifier of a label of its name among the nodes.
abbrev pub GoesToLabel : List Node → Node → Type 0
GoesToLabel nodes (goto_ name id) = Any (IsLabel name id) nodes
GoesToLabel nodes _ = Unit

-- The identifier of a label lies within the bounds.
abbrev pub InBounds : ℕ → ℕ → Node → Type 0
InBounds start stop (label name id) = (start < id) × (id ≤ stop)
InBounds start stop _ = Unit

target_exists :
    (name : Name) (id : ℕ) (nodes : List Node) (labels : List Label)
    → all_exist labels ≡ true
    → All (Backed nodes) labels
    → Any (IsTarget name id) labels
    → Any (IsLabel name id) nodes
unfolding all_exist
target_exists name id nodes (l ∷ ls) e b (inl t) =
    subst (λ i. Any (IsLabel name i) nodes) t.same
      (subst (λ n. Any (IsLabel n l.id) nodes) t.named
        (b.0 (used l.used_as_goto_target l.used_as_label (all_exist ls) e t.flagged)))
  where
    used : (g u r : Bool) → (not (g && not u) && r) ≡ true → g ≡ true → u ≡ true
    used g u r e f = ground arith
target_exists name id nodes (l ∷ ls) e b (inr t) =
    target_exists name id nodes ls
      (later (l.used_as_goto_target && not l.used_as_label) (all_exist ls) e) b.1 t
  where
    later : (g r : Bool) → (not g && r) ≡ true → r ≡ true
    later g r e = ground arith
target_exists name id nodes [] e b t = absurd t

-- What the pass gives for a function, `start` and `stop` being the generator before and after it.
pub record IsResolved (start stop : ℕ) (nodes : List Node) : Type 0 where
  pub targets : All (GoesToLabel nodes) nodes
  pub unique : Pairwise OtherLabel nodes
  pub bounds : All (InBounds start stop) nodes

used_bounds :
    (name : Name) (id start stop : ℕ) (labels : List Label)
    → All (λ l. (start < l.id) × (l.id ≤ stop)) labels
    → Any (IsUsed name id) labels
    → (start < id) × (id ≤ stop)
used_bounds name id start stop [] b a = absurd a
used_bounds name id start stop (l ∷ ls) b (inl u) =
    (omega (arith, b.0, u.same), omega (arith, b.0, u.same))
used_bounds name id start stop (l ∷ ls) b (inr u) = used_bounds name id start stop ls b.1 u

state-IsResolved :
    (start : ℕ) (nodes : List Node) (state : GotosState)
    → all_exist state.labels ≡ true
    → IsState start nodes state
    → IsResolved start state.generator nodes
state-IsResolved start nodes state e h = record {
  targets = All-map (Entered state.labels) (GoesToLabel nodes) nodes goes h.entered;
  unique = h.unique;
  bounds = All-map (Entered state.labels) (InBounds start state.generator) nodes inside h.entered;
}
  where
    goes : (node : Node) → Entered state.labels node → GoesToLabel nodes node
    goes (goto_ name id) t = target_exists name id nodes state.labels e h.backed t
    goes (label name id) t = tt
    goes function_declaration t = tt
    goes other t = tt

    inside : (node : Node) → Entered state.labels node → InBounds start state.generator node
    inside (label name id) u = used_bounds name id start state.generator state.labels h.bounds u
    inside (goto_ name id) u = tt
    inside function_declaration u = tt
    inside other u = tt

-- A function is resolved, and the table is empty behind it.
abbrev pub Done : ℕ → List Node × GotosState → Type 0
Done start r = IsResolved start r.1.generator r.0 × (start ≤ r.1.generator) × (r.1.labels ≡ [])

pub label_function-Done :
    (nodes : List Node) (generator : ℕ)
    → Whenever (Done generator) (label_function nodes (table generator []))
unfolding label_function sema_exit_goto_id
label_function-Done nodes generator =
    Whenever-bind (Walked generator []) (Done generator) (enter_nodes nodes (table generator [])) _
      (enter_nodes-Walked generator [] nodes (table generator []) start)
      λ (nodes', state') h. exit nodes' state' h
  where
    start : IsState generator [] (table generator [])
    start = record {
      entered = tt;
      backed = tt;
      apart = tt;
      bounds = tt;
      unique = tt;
      grows = le_refl generator;
    }

    exit :
        (nodes' : List Node) (state' : GotosState)
        → IsState generator nodes' state'
        → Whenever (Done generator) (sema_exit_goto_id state' >>= λ s. ok (nodes', s))
    exit nodes' state' h = elim (Bool-cases (all_exist state'.labels)) [
      | inl e ↦ rw e (state-IsResolved generator nodes' state' e h, h.grows, refl)
      | inr e ↦ rw e tt
    ]
