-- ===== src/Codegen/Pseudo/Frame.antt =====
-- The frame of a whole function after codegen_replace_pseudo.
use enqcc.Base.{
  ℕ, zero, suc, ◌+◌, ◌-◌, ◌≤◌, ◌<◌, ◌≡◌, ◌∙◌, refl, sym, subst, true, none, some, List, [], ◌∷◌,
  map, ◌==◌, All, Returns, Returns-bind, arith,
}
use enqcc.Codegen.Asm.{
  WordType, Operand, OperandType, pseudo_register, pseudo_memory, Op, AsmFunction,
}
use native.Mathlib.Nat.{le_refl}
use enqcc.Codegen.Round.{llong_max}
use enqcc.Codegen.Pseudo.Slots.{
  Slots, no_slots, replace_operand, replace_ops, replace_in_range, replace_pseudo_one, preflight,
  Range, preflight_operand, largest_offset,
}
use enqcc.Codegen.Pseudo.Layout.{
  word_bytes, operand_bytes, slot_bytes_from, IsLayout, IsSlots, Keeps, placed, Fits,
  word_bytes_positive, need,
}
use enqcc.Codegen.Pseudo.Correct.{
  Placed, test_le, test_lt, replace_operand-Placed, slot_bytes_kept, operand_bytes_kept,
}

-- The bytes that each slot of a function has.
abbrev pub slot_bytes : ℕ → List Op → ℕ → ℕ
slot_bytes lo ops = slot_bytes_from lo (λ _. 0) ops

abbrev pub FitsOp : ℕ → ℕ → (ℕ → ℕ) → Op → Type 0
FitsOp lo hi bytes op = Fits lo hi bytes op.arg0 × Fits lo hi bytes op.arg1

abbrev pub placed_op : ℕ → (ℕ → ℕ) → Op → Op
placed_op lo offsets op = record op {
  arg0 = placed lo offsets op.arg0;
  arg1 = placed lo offsets op.arg1;
}

-- What is fit for the slots in the end is fit for those that there are behind the operand.
Fits-before :
    (lo hi : ℕ) (bytes final : ℕ → ℕ) (t : OperandType) (w : WordType)
    → let arg : Operand = record { operand_type = t; word_type = w } in
      ((i : ℕ) → 0 < operand_bytes lo bytes arg i → final i ≡ operand_bytes lo bytes arg i)
      → Fits lo hi final arg
      → Fits lo hi (operand_bytes lo bytes arg) arg
unfolding operand_bytes
Fits-before lo hi bytes final (pseudo_register n) w e f =
    (f.0, f.1, ground (arith, e (n - lo), word_bytes_positive w))
Fits-before lo hi bytes final (pseudo_memory n offset total) w e f =
    (f.0, f.1, f.2, ground (arith, e (n - lo)))
Fits-before lo hi bytes final _ w e f = f

-- What the loop is to give for a list of operations.
abbrev Framed : ℕ → ℕ → (ℕ → ℕ) → Slots → List Op → List Op × Slots → Type 0
Framed lo hi bytes s ops r =
    IsSlots (suc hi - lo) (slot_bytes_from lo bytes ops) r.1
    × Keeps s r.1
    × ((t : Slots) → Keeps r.1 t → r.0 ≡ map (placed_op lo t.offsets) ops)

Keeps-trans : (s t u : Slots) → Keeps s t → Keeps t u → Keeps s u
Keeps-trans s t u h k i p = k i (rw (h i p) p) ∙ h i p

replace_ops-Framed :
    (lo hi : ℕ) (bytes : ℕ → ℕ) (ops : List Op) (s : Slots)
    → IsSlots (suc hi - lo) bytes s
    → All (FitsOp lo hi (slot_bytes_from lo bytes ops)) ops
    → s.cursor + need ops ≤ llong_max
    → Returns (Framed lo hi bytes s ops) (replace_ops lo hi ops s)
unfolding replace_ops slot_bytes_from need
replace_ops-Framed lo hi bytes [] s h f room = (h, (λ i p. refl), λ t k. refl)
replace_ops-Framed lo hi bytes (op ∷ ops) s h f room =
    Returns-bind (Placed lo hi bytes s op.arg0) (Framed lo hi bytes s (op ∷ ops))
      (replace_operand lo hi op.arg0 s) _
      (replace_operand-Placed lo hi bytes s op.arg0.operand_type op.arg0.word_type h
        (Fits-before lo hi bytes final op.arg0.operand_type op.arg0.word_type
          (λ i p. final_first i p) f.0.0)
        (omega (arith, room)))
      λ r₁ h₁.
        Returns-bind (Placed lo hi bytes₁ r₁.1 op.arg1) (Framed lo hi bytes s (op ∷ ops))
          (replace_operand lo hi op.arg1 r₁.1) _
          (replace_operand-Placed lo hi bytes₁ r₁.1 op.arg1.operand_type op.arg1.word_type h₁.0
            (Fits-before lo hi bytes₁ final op.arg1.operand_type op.arg1.word_type
              (λ i p. slot_bytes_kept lo bytes₂ ops i p) f.0.1)
            (omega (arith, room, h₁.2)))
          λ r₂ h₂.
            Returns-bind (Framed lo hi bytes₂ r₂.1 ops) (Framed lo hi bytes s (op ∷ ops))
              (replace_ops lo hi ops r₂.1) _
              (replace_ops-Framed lo hi bytes₂ ops r₂.1 h₂.0 f.1 (omega (arith, room, h₁.2, h₂.2)))
              λ r₃ h₃. (
                h₃.0,
                Keeps-trans s r₁.1 r₃.1 h₁.1 (Keeps-trans r₁.1 r₂.1 r₃.1 h₂.1 h₃.1),
                λ t k. cc (
                  h₃.2 t k,
                  h₂.3 t (Keeps-trans r₂.1 r₃.1 t h₃.1 k),
                  h₁.3 t (Keeps-trans r₁.1 r₂.1 t h₂.1 (Keeps-trans r₂.1 r₃.1 t h₃.1 k)),
                ),
              )
  where
    bytes₁ : ℕ → ℕ
    bytes₁ = operand_bytes lo bytes op.arg0

    bytes₂ : ℕ → ℕ
    bytes₂ = operand_bytes lo bytes₁ op.arg1

    final : ℕ → ℕ
    final = slot_bytes_from lo bytes₂ ops

    kept₂ : (i : ℕ) → 0 < bytes₁ i → bytes₂ i ≡ bytes₁ i
    kept₂ i p = operand_bytes_kept lo bytes₁ op.arg1.operand_type op.arg1.word_type i p

    final_first : (i : ℕ) → 0 < bytes₁ i → final i ≡ bytes₁ i
    final_first i p = slot_bytes_kept lo bytes₂ ops i (rw (kept₂ i p) p) ∙ kept₂ i p

-- The identifiers that an operand names lie in the range.
abbrev InRange : ℕ → ℕ → Operand → Type 0
InRange lo hi arg = elim arg.operand_type [
  | pseudo_register n ↦ (lo ≤ n) × (n ≤ hi)
  | pseudo_memory n offset total ↦ (lo ≤ n) × (n ≤ hi)
  | _ ↦ Unit
]

-- An access fits the slot of its identifier: a pseudo-register is no wider than the slot, an array
-- is not empty, and an element starts within the slot.
abbrev pub Accesses : ℕ → (ℕ → ℕ) → Operand → Type 0
Accesses lo bytes arg = elim arg.operand_type [
  | pseudo_register n ↦ word_bytes arg.word_type ≤ bytes (n - lo)
  | pseudo_memory n offset total ↦ (0 < total) × (offset < bytes (n - lo))
  | _ ↦ Unit
]

abbrev pub AccessesOp : ℕ → (ℕ → ℕ) → Op → Type 0
AccessesOp lo bytes op = Accesses lo bytes op.arg0 × Accesses lo bytes op.arg1

abbrev Bounded : ℕ → ℕ → Range → Type 0
Bounded lo hi none = Unit
Bounded lo hi (some (a, b)) = (lo ≤ a) × (b ≤ hi)

operand-Bounded :
    (lo hi : ℕ) (r : Range) (t : OperandType) (w : WordType)
    → Bounded lo hi (preflight_operand r (record { operand_type = t; word_type = w }))
    → Bounded lo hi r × InRange lo hi (record { operand_type = t; word_type = w })
operand-Bounded lo hi none (pseudo_register n) w h = (tt, h)
operand-Bounded lo hi (some (a, b)) (pseudo_register n) w h = omega arith
operand-Bounded lo hi none (pseudo_memory n offset total) w h = (tt, h)
operand-Bounded lo hi (some (a, b)) (pseudo_memory n offset total) w h = omega arith
operand-Bounded lo hi r _ w h = (h, tt)

-- The range of the first run covers every identifier.
preflight-InRange :
    (lo hi : ℕ) (r : Range) (ops : List Op)
    → preflight r ops ≡ some (lo, hi)
    → Bounded lo hi r × All (λ op. InRange lo hi op.arg0 × InRange lo hi op.arg1) ops
unfolding preflight
preflight-InRange lo hi r [] e = (subst (Bounded lo hi) (sym e) (le_refl _, le_refl _), tt)
preflight-InRange lo hi r (op ∷ ops) e =
    let rest =
      preflight-InRange lo hi (preflight_operand (preflight_operand r op.arg0) op.arg1) ops e in
    let second =
      operand-Bounded lo hi (preflight_operand r op.arg0) op.arg1.operand_type op.arg1.word_type
        rest.0 in
    let first = operand-Bounded lo hi r op.arg0.operand_type op.arg0.word_type second.0 in
    (first.0, ((first.1, second.1), rest.1))

abbrev Ordered : Range → Type 0
Ordered none = Unit
Ordered (some (a, b)) = a ≤ b

operand-Ordered : (r : Range) (arg : Operand) → Ordered r → Ordered (preflight_operand r arg)
operand-Ordered r arg h = go arg.operand_type r h
  where
    go :
        (t : OperandType) (r : Range)
        → Ordered r
        → Ordered (preflight_operand r (record { operand_type = t; word_type = arg.word_type }))
    go (pseudo_register n) none h = le_refl _
    go (pseudo_register n) (some (a, b)) h = omega arith
    go (pseudo_memory n offset total) none h = le_refl _
    go (pseudo_memory n offset total) (some (a, b)) h = omega arith
    go _ r h = h

preflight-Ordered : (r : Range) (ops : List Op) → Ordered r → Ordered (preflight r ops)
unfolding preflight
preflight-Ordered r [] h = h
preflight-Ordered r (op ∷ ops) h =
    preflight-Ordered (preflight_operand (preflight_operand r op.arg0) op.arg1) ops
      (operand-Ordered (preflight_operand r op.arg0) op.arg1 (operand-Ordered r op.arg0 h))

Fits-of :
    (lo hi : ℕ) (bytes : ℕ → ℕ) (t : OperandType) (w : WordType)
    → let arg : Operand = record { operand_type = t; word_type = w } in
      InRange lo hi arg → Accesses lo bytes arg → Fits lo hi bytes arg
Fits-of lo hi bytes (pseudo_register n) w r a = (r.0, r.1, a)
Fits-of lo hi bytes (pseudo_memory n offset total) w r a = (r.0, r.1, a.0, a.1)
Fits-of lo hi bytes _ w r a = tt

All-Fits :
    (lo hi : ℕ) (bytes : ℕ → ℕ) (ops : List Op)
    → All (λ op. InRange lo hi op.arg0 × InRange lo hi op.arg1) ops
    → All (AccessesOp lo bytes) ops
    → All (FitsOp lo hi bytes) ops
All-Fits lo hi bytes [] r a = tt
All-Fits lo hi bytes (op ∷ ops) r a = (
  (
    Fits-of lo hi bytes op.arg0.operand_type op.arg0.word_type r.0.0 a.0.0,
    Fits-of lo hi bytes op.arg1.operand_type op.arg1.word_type r.0.1 a.0.1,
  ),
  All-Fits lo hi bytes ops r.1 a.1,
)

largest_offset_bound :
    (size : ℕ) (off : ℕ → ℕ) (usage i : ℕ) → i < size → off i ≤ largest_offset size off usage
unfolding largest_offset
largest_offset_bound zero off usage i h = elim h [ ]
largest_offset_bound (suc n) off usage i h = ground (arith, largest_offset_bound n off usage i)

no_slots-IsSlots : (size : ℕ) → IsSlots size (λ _. 0) no_slots
no_slots-IsSlots size = record {
  layout = record { within = λ i p. omega arith; apart = λ i j n p q. omega arith };
  unused = λ i e. refl;
  inside = λ i p. omega arith;
}

-- A frame: operands placed by `offsets`, and slots that do not overlap, within the stack usage.
abbrev pub IsFrame : ℕ → List Op → AsmFunction → Type 0
IsFrame lo ops f =
    (offsets : ℕ → ℕ) × (f.ops ≡ map (placed_op lo offsets) ops)
    × IsLayout (slot_bytes lo ops) offsets f.stack_usage

test_zero : {n : ℕ} → n ≡ 0 → (n == 0) ≡ true
test_zero h = ground arith

replace_in_range-IsFrame :
    (f : AsmFunction) (lo hi : ℕ)
    → f.stack_usage ≡ 0
    → lo ≤ hi
    → hi - lo < 4096
    → All (FitsOp lo hi (slot_bytes lo f.ops)) f.ops
    → need f.ops ≤ llong_max
    → Returns (IsFrame lo f.ops) (replace_in_range (some (lo, hi)) f)
unfolding replace_in_range
replace_in_range-IsFrame f lo hi empty order small fits room =
    rw
      (
        test_lt {a = 0} {b = 1 + hi - lo} (omega arith),
        test_le {a = 1 + hi - lo} {b = 4096} (omega arith),
      )
      (Returns-bind (Framed lo hi (λ _. 0) no_slots f.ops) (IsFrame lo f.ops)
        (replace_ops lo hi f.ops no_slots) _
        (replace_ops-Framed lo hi (λ _. 0) f.ops no_slots (no_slots-IsSlots (suc hi - lo)) fits
          (omega (arith, room)))
        λ r h. rw (test_zero empty) (
          r.1.offsets,
          h.2 r.1 (λ i p. refl),
          record {
            within = λ i p. (
              (h.0.layout.within i p).0,
              largest_offset_bound (1 + hi - lo) r.1.offsets f.stack_usage i
                  (omega (arith, h.0.inside i p)),
            );
            apart = h.0.layout.apart;
          },
        ))

-- For a function with no stack use so far whose identifiers span at most 4096, and each of whose
-- accesses fits the slot that the first operand of its identifier takes, and whose pseudo operands
-- need at most LLONG_MAX bytes, each 16 and an array its own size besides, no sum of the pass
-- overflows and none of its assertions fails. Every pseudo operand becomes a place below the base pointer, at one offset for each
-- identifier; no two slots overlap, and all lie within the stack usage that is recorded.
pub replace_pseudo_one-IsFrame :
    (f : AsmFunction) (lo hi : ℕ)
    → f.stack_usage ≡ 0
    → preflight none f.ops ≡ some (lo, hi)
    → hi - lo < 4096
    → All (AccessesOp lo (slot_bytes lo f.ops)) f.ops
    → need f.ops ≤ llong_max
    → Returns (IsFrame lo f.ops) (replace_pseudo_one f)
unfolding replace_pseudo_one
replace_pseudo_one-IsFrame f lo hi empty range small accesses room = rw range (
    replace_in_range-IsFrame f lo hi empty (subst Ordered range (preflight-Ordered none f.ops tt))
      small
      (All-Fits lo hi (slot_bytes lo f.ops) f.ops (preflight-InRange lo hi none f.ops range).1
        accesses)
      room)
