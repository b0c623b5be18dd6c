-- ===== src/Sema/Gotos/Accept.antt =====
-- sema_label_gotos of passes/sema.c: the walk over functions whose labels are in order.
use enqcc.Base.{
  ℕ, ◌<◌, ◌≡◌, ◌≢◌, inl, inr, sym, subst, List, [], ◌∷◌, ◌++◌, length, All, Any, All-member,
  All-append, Pairwise, Returns, Returns-bind,
}
use mathlib.Core.List.{append-nil, append_assoc}
use enqcc.Lang.Symbol.{Name}
use enqcc.Sema.Gotos.{
  Node, goto_, label, function_declaration, other, Label, GotosState, labels_prepend,
  as_goto_target, as_label, sema_enter_goto_id, sema_exit_goto_id, all_exist, walk_node,
  enter_nodes,
}
use enqcc.Sema.Gotos.State.{IsQuiet}
use enqcc.Sema.Gotos.Marks.{table}
use enqcc.Sema.Gotos.Names.{
  Labels, Marked, IsNamed, Named, labels_prepend-Named, goto-IsNamed, label-IsNamed, label-unused,
  used-more, target-more,
}

-- A goto and a label have names, as the parser gives them.
abbrev pub HasName : Node → Type 0
HasName (goto_ n id) = 0 < length n
HasName (label n id) = 0 < length n
HasName _ = Unit

-- Two nodes are not labels of the same name.
abbrev pub OtherName : Node → Node → Type 0
OtherName (label n id) (label m id') = n ≢ m
OtherName _ _ = Unit

-- The target of a goto is a label among the nodes.
abbrev pub IsPlaced : List Node → Node → Type 0
IsPlaced nodes (goto_ n id) = Any (Labels n) nodes
IsPlaced nodes _ = Unit

-- Not a goto or a label and behind it a declaration of a function.
abbrev pub Precedes : Node → Node → Type 0
Precedes node function_declaration = IsQuiet node
Precedes node _ = Unit

-- What C asks of the labels of a function; and what the compiler asks beyond that, declarations of
-- functions only in front of all gotos and labels.
pub record IsWellLabelled (nodes : List Node) : Type 0 where
  pub names : All HasName nodes
  pub distinct : Pairwise OtherName nodes
  pub placed : All (IsPlaced nodes) nodes
  pub declared_first : Pairwise Precedes nodes

-- What holds of all holds of a part.
All-before {ℓ} :
    {A : Type ℓ} (P : A → Type 0) (before after : List A) → All P (before ++ after) → All P before
All-before P [] after h = tt
All-before P (b ∷ before) after h = (h.0, All-before P before after h.1)

-- What comes before a member is related to it.
Pairwise-before {ℓ} :
    {A : Type ℓ} (R : A → A → Type 0) (before after : List A) (x : A)
    → Pairwise R (before ++ x ∷ after)
    → All (λ b. R b x) before
Pairwise-before R [] after x h = tt
Pairwise-before R (b ∷ before) after x h =
    (All-member (R b) before after x h.0, Pairwise-before R before after x h.1)

fresh_name :
    (name : Name) (id : ℕ) (done : List Node)
    → All (λ d. OtherName d (label name id)) done
    → Any (Labels name) done
    → ⊥
fresh_name name id (label n i ∷ done) h (inl e) = h.0 e
fresh_name name id (goto_ n i ∷ done) h (inl e) = e
fresh_name name id (function_declaration ∷ done) h (inl e) = e
fresh_name name id (other ∷ done) h (inl e) = e
fresh_name name id (d ∷ done) h (inr a) = fresh_name name id done h.1 a
fresh_name name id [] h a = a

-- The table after the nodes `done`, empty where none of them has an identifier.
abbrev pub Follows : List Node → List Label → Type 0
Follows done labels = IsNamed done labels × (All IsQuiet done → labels ≡ [])

abbrev After : List Node → Node × GotosState → Type 0
After done r = Follows done r.1.labels

quiet-Follows :
    (done : List Node) (node : Node) (labels : List Label)
    → IsQuiet node
    → Follows done labels
    → Follows (done ++ node ∷ []) labels
quiet-Follows done node labels q (h, e) = (
  record {
    used_backed = used-more done node labels h.used_backed;
    target_backed = target-more done node labels h.target_backed;
    marked = All-append _ done _ h.marked (unmarked node q, tt);
    distinct = h.distinct;
  },
  λ a. e (All-before IsQuiet done (node ∷ []) a),
)
  where
    unmarked : (node : Node) → IsQuiet node → Marked labels node
    unmarked (goto_ n id) q = absurd q
    unmarked (label n id) q = absurd q
    unmarked function_declaration q = tt
    unmarked other q = tt

-- A declaration of a function finds the table empty where no goto or label stands in front of it.
declaration-After :
    (done : List Node) (generator : ℕ) (labels : List Label)
    → labels ≡ []
    → Follows done labels
    → Returns
        (After (done ++ function_declaration ∷ []))
        (walk_node function_declaration (table generator labels))
unfolding walk_node sema_enter_goto_id sema_exit_goto_id all_exist
declaration-After done generator [] e h = quiet-Follows done function_declaration [] tt h
declaration-After done generator (l ∷ labels) e h = cc

walk_node-After :
    (done rest : List Node) (node : Node) (state : GotosState)
    → HasName node
    → Pairwise OtherName (done ++ node ∷ rest)
    → Pairwise Precedes (done ++ node ∷ rest)
    → Follows done state.labels
    → Returns (After (done ++ node ∷ [])) (walk_node node state)
unfolding walk_node sema_enter_goto_id Named
walk_node-After done rest (goto_ name t) state p d c (h, e) =
    Returns-bind (Named done name) (After (done ++ goto_ name t ∷ [])) (labels_prepend state name) _
      (labels_prepend-Named done state name p h)
      λ (l, state') (h', found). rw (found.flag as_goto_target) (
        goto-IsNamed done found.before found.after l name t (subst (IsNamed done) found.split h')
            found.named,
        λ a. absurd (All-member IsQuiet done [] (goto_ name t) a),
      )
walk_node-After done rest (label name u) state p d c (h, e) =
    Returns-bind (Named done name) (After (done ++ label name u ∷ [])) (labels_prepend state name) _
      (labels_prepend-Named done state name p h)
      λ (l, state') (h', found).
        let split = subst (IsNamed done) found.split h' in
        rw
          (
            label-unused done found.before found.after l name u split found.named
                (fresh_name name u done (Pairwise-before OtherName done rest (label name u) d)),
            found.flag as_label,
          )
          (
            label-IsNamed done found.before found.after l name u split found.named,
            λ a. absurd (All-member IsQuiet done [] (label name u) a),
          )
walk_node-After done rest function_declaration state p d c h =
    declaration-After done state.generator state.labels
      (h.1 (Pairwise-before Precedes done rest function_declaration c)) h
walk_node-After done rest other state p d c h = quiet-Follows done other state.labels tt h

abbrev pub AfterAll : List Node → List Node × GotosState → Type 0
AfterAll done r = Follows done r.1.labels

pub enter_nodes-AfterAll :
    (done rest : List Node) (state : GotosState)
    → All HasName rest
    → Pairwise OtherName (done ++ rest)
    → Pairwise Precedes (done ++ rest)
    → Follows done state.labels
    → Returns (AfterAll (done ++ rest)) (enter_nodes rest state)
unfolding enter_nodes
enter_nodes-AfterAll done [] state p d c h =
    subst (λ n. Follows n state.labels) (sym (append-nil done)) h
enter_nodes-AfterAll done (node ∷ rest) state p d c h =
    Returns-bind (After (done ++ node ∷ [])) (AfterAll (done ++ node ∷ rest)) (walk_node node state)
      _ (walk_node-After done rest node state p.0 d c h)
      λ r h'.
        Returns-bind (AfterAll (done ++ node ∷ rest)) (AfterAll (done ++ node ∷ rest))
          (enter_nodes rest r.1) _
          (subst (λ n. Returns (AfterAll n) (enter_nodes rest r.1))
            (append_assoc done (node ∷ []) rest)
            (enter_nodes-AfterAll (done ++ node ∷ []) rest r.1 p.1
              (subst (Pairwise OtherName) (sym (append_assoc done (node ∷ []) rest)) d)
              (subst (Pairwise Precedes) (sym (append_assoc done (node ∷ []) rest)) c) h'))
          λ s h''. h''
