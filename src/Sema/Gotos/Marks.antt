-- ===== src/Sema/Gotos/Marks.antt =====
-- A label of the table is marked as the target of a goto or as a label.
use enqcc.Base.{
  ℕ, ◌<◌, ◌≡◌, inl, inr, refl, Bool, true, false, List, [], ◌∷◌, ◌++◌, All, Any, All-append,
  All-map, Any-left, Any-right, All-replace, All-member, Any-replace, Pairwise, Pairwise-snoc, sym,
  subst, arith,
}
use enqcc.Lang.Symbol.{Name}
use enqcc.Sema.Gotos.{
  Node, goto_, label, function_declaration, other, Label, GotosState, as_goto_target, as_label,
}
use enqcc.Sema.Gotos.State.{IsLabel, IsTarget, IsUsed, Entered, Backed, OtherLabel, IsState}

-- Marking an entry keeps what the nodes so far left in the table.
module _ (f : Label → Label) (l : Label) (before after : List Label) where
  Entered-flag :
      (node : Node)
      → ((n : Name) (id : ℕ) → IsTarget n id l → IsTarget n id (f l))
      → ((n : Name) (id : ℕ) → IsUsed n id l → IsUsed n id (f l))
      → Entered (before ++ l ∷ after) node
      → Entered (before ++ f l ∷ after) node
  Entered-flag (goto_ n id) t u h = Any-replace (IsTarget n id) before after l (f l) (t n id) h
  Entered-flag (label n id) t u h = Any-replace (IsUsed n id) before after l (f l) (u n id) h
  Entered-flag function_declaration t u h = h
  Entered-flag other t u h = h

Apart-flag :
    (l l' : Label) (before after : List Label)
    → l'.id ≡ l.id
    → Pairwise (λ x y. y.id < x.id) (before ++ l ∷ after)
    → Pairwise (λ x y. y.id < x.id) (before ++ l' ∷ after)
Apart-flag l l' [] after e h =
    (All-map (λ y. y.id < l.id) (λ y. y.id < l'.id) after (λ y p. omega arith) h.0, h.1)
Apart-flag l l' (b ∷ before) after e h = (
  All-replace (λ y. y.id < b.id) before after l l'
      (omega (arith, All-member (λ y. y.id < b.id) before after l h.0)) h.0,
  Apart-flag l l' before after e h.1,
)

not_both : {b : Bool} → b ≡ false → b ≡ true → ⊥
not_both p q = ground arith

-- A member of the table there in the middle.
pub Any-middle :
    (P : Label → Type 0) (before after : List Label) (l : Label) → P l → Any P (before ++ l ∷ after)
Any-middle P [] after l p = inl p
Any-middle P (b ∷ before) after l p = inr (Any-middle P before after l p)

-- The label of a node that was entered is the entry of its identifier.
used-flagged :
    (name : Name) (l : Label) (before after : List Label)
    → Pairwise (λ x y. y.id < x.id) (before ++ l ∷ after)
    → Any (IsUsed name l.id) (before ++ l ∷ after)
    → l.used_as_label ≡ true
used-flagged name l [] after a (inl u) = u.flagged
used-flagged name l [] after a (inr u) = absurd (lower after a.0 u)
  where
    lower : (ls : List Label) → All (λ y. y.id < l.id) ls → Any (IsUsed name l.id) ls → ⊥
    lower [] h v = v
    lower (x ∷ ls) h (inl v) = absurd (omega (arith, h.0, v.same))
    lower (x ∷ ls) h (inr v) = lower ls h.1 v
used-flagged name l (b ∷ before) after a (inl u) =
    absurd (omega (arith, u.same, All-member (λ y. y.id < b.id) before after l a.0))
used-flagged name l (b ∷ before) after a (inr u) = used-flagged name l before after a.1 u

-- More nodes back the entries that were backed.
Backed-more :
    (done : List Node) (node : Node) (l : Label) → Backed done l → Backed (done ++ node ∷ []) l
Backed-more done node l h u = Any-left (IsLabel l.name l.id) done (node ∷ []) (h u)

abbrev pub table : ℕ → List Label → GotosState
table generator labels = record { generator = generator; labels = labels }

module _ (start generator : ℕ) (done : List Node) (before after : List Label) (l : Label)
    (name : Name) (h : IsState start done (table generator (before ++ l ∷ after)))
    (named : l.name ≡ name) where
  pub goto-IsState :
      IsState start
        (done ++ goto_ name l.id ∷ [])
        (table generator (before ++ as_goto_target l ∷ after))
  goto-IsState = record {
    entered =
        All-append _ done _
          (All-map _ _ done
            (λ node e.
              Entered-flag as_goto_target l before after node
                (λ n id t. record { named = t.named; same = t.same; flagged = refl })
                (λ n id u. record { named = u.named; same = u.same; flagged = u.flagged }) e)
            h.entered)
          (
            Any-middle (IsTarget name l.id) before after (as_goto_target l)
                (record { named = named; same = refl; flagged = refl }),
            tt,
          );
    backed =
        All-replace _ before after l (as_goto_target l) (All-member _ before after l more) more;
    apart = Apart-flag l (as_goto_target l) before after refl h.apart;
    bounds =
        All-replace _ before after l (as_goto_target l) (All-member _ before after l h.bounds)
          h.bounds;
    unique = Pairwise-snoc OtherLabel done (goto_ name l.id) h.unique (trivial done);
    grows = h.grows;
  }
    where
      more : All (Backed (done ++ goto_ name l.id ∷ [])) (before ++ l ∷ after)
      more = All-map _ _ (before ++ l ∷ after) (Backed-more done (goto_ name l.id)) h.backed

      trivial : (nodes : List Node) → All (λ x. OtherLabel x (goto_ name l.id)) nodes
      trivial [] = tt
      trivial (goto_ n id ∷ nodes) = (tt, trivial nodes)
      trivial (label n id ∷ nodes) = (tt, trivial nodes)
      trivial (function_declaration ∷ nodes) = (tt, trivial nodes)
      trivial (other ∷ nodes) = (tt, trivial nodes)

  pub label-IsState :
      l.used_as_label ≡ false
      → IsState start
          (done ++ label name l.id ∷ [])
          (table generator (before ++ as_label l ∷ after))
  label-IsState fresh = record {
    entered =
        All-append _ done _
          (All-map _ _ done
            (λ node e.
              Entered-flag as_label l before after node
                (λ n id t. record { named = t.named; same = t.same; flagged = t.flagged })
                (λ n id u. record { named = u.named; same = u.same; flagged = refl }) e)
            h.entered)
          (
            Any-middle (IsUsed name l.id) before after (as_label l)
                (record { named = named; same = refl; flagged = refl }),
            tt,
          );
    backed =
        All-replace _ before after l (as_label l)
          (λ u. Any-right (IsLabel l.name l.id) done (label name l.id ∷ []) (inl (sym named, refl)))
          more;
    apart = Apart-flag l (as_label l) before after refl h.apart;
    bounds =
        All-replace _ before after l (as_label l) (All-member _ before after l h.bounds) h.bounds;
    unique = Pairwise-snoc OtherLabel done (label name l.id) h.unique (others done h.entered);
    grows = h.grows;
  }
    where
      more : All (Backed (done ++ label name l.id ∷ [])) (before ++ l ∷ after)
      more = All-map _ _ (before ++ l ∷ after) (Backed-more done (label name l.id)) h.backed

      others :
          (nodes : List Node)
          → All (Entered (before ++ l ∷ after)) nodes
          → All (λ x. OtherLabel x (label name l.id)) nodes
      others [] e = tt
      others (goto_ n id ∷ nodes) e = (tt, others nodes e.1)
      others (label n id ∷ nodes) e = (
        (λ same. absurd (
            not_both fresh (
              used-flagged n l before after h.apart
                (subst (λ i. Any (IsUsed n i) (before ++ l ∷ after)) same e.0)))),
        others nodes e.1,
      )
      others (function_declaration ∷ nodes) e = (tt, others nodes e.1)
      others (other ∷ nodes) e = (tt, others nodes e.1)
