-- ===== src/Codegen/Pseudo/Correct.antt =====
-- codegen_replace_pseudo of passes/codegen.c: one operand and its slot.
use enqcc.Base.{
  ℕ, suc, ◌+◌, ◌-◌, ◌≤◌, ◌<◌, ◌≡◌, ◌∙◌, refl, true, List, [], ◌∷◌, leb, ltb, Returns, arith,
}
use enqcc.Codegen.Asm.{WordType, Operand, OperandType, pseudo_register, pseudo_memory, Op}
use enqcc.Codegen.Round.{llong_max}
use enqcc.Codegen.Pseudo.Slots.{
  advance_register, advance_memory, Slots, replace_register, replace_memory, replace_operand,
}
use enqcc.Codegen.Pseudo.Layout.{
  word_bytes, first_come, operand_bytes, slot_bytes_from, IsSlots, Keeps, slot_taken-IsSlots,
  slot_taken-Keeps, slot_taken-taken, slot_taken, take_slot-ok, slot_taken_cursor, register_end,
  memory_end, advance_register-ok, advance_memory-ok, register_end_room, memory_end_room,
  operand_need, placed, Fits, word_bytes_positive,
}

-- What one operand is to give.
abbrev pub Placed : ℕ → ℕ → (ℕ → ℕ) → Slots → Operand → Operand × Slots → Type 0
Placed lo hi bytes s arg r =
    IsSlots (suc hi - lo) (operand_bytes lo bytes arg) r.1
    × Keeps s r.1
    × (r.1.cursor ≤ s.cursor + operand_need arg)
    × ((t : Slots) → Keeps r.1 t → r.0 ≡ placed lo t.offsets arg)

pub test_le : {a b : ℕ} → a ≤ b → leb a b ≡ true
test_le h = ground arith

pub test_lt : {a b : ℕ} → a < b → ltb a b ≡ true
test_lt h = ground arith

module _ (lo hi : ℕ) (bytes : ℕ → ℕ) (s : Slots) (h : IsSlots (suc hi - lo) bytes s) where
  replace_register-Placed :
      (n : ℕ) (w : WordType)
      → lo ≤ n
      → n ≤ hi
      → s.cursor + 16 ≤ llong_max
      → Returns
          (Placed lo hi bytes s (record { operand_type = pseudo_register n; word_type = w }))
          (replace_register lo hi n w s)
  unfolding replace_register operand_bytes operand_need placed
  replace_register-Placed n w p q room =
      rw
        (
          test_le p,
          test_le q,
          take_slot-ok (n - lo) (register_end w s.cursor) (advance_register w s.cursor) s
              (advance_register-ok w s.cursor room),
        )
        (
          slot_taken-IsSlots _ bytes s (n - lo) (word_bytes w) (register_end w s.cursor) h
              (word_bytes_positive w) (register_end_room w s.cursor).0 (omega arith),
          slot_taken-Keeps _ bytes s (n - lo) (word_bytes w) (register_end w s.cursor) h
              (word_bytes_positive w) (register_end_room w s.cursor).0 (omega arith),
          slot_taken_cursor (n - lo) (register_end w s.cursor) 16 s
              (register_end_room w s.cursor).1,
          λ t k. rw (k (n - lo) taken.1),
        )
    where
      taken :
          (first_come bytes (n - lo) (word_bytes w) (n - lo)
            ≤ (slot_taken (n - lo) (register_end w s.cursor) s).offsets (n - lo))
          × (0 < (slot_taken (n - lo) (register_end w s.cursor) s).offsets (n - lo))
      taken =
          slot_taken-taken (suc hi - lo) bytes s (n - lo) (word_bytes w) (register_end w s.cursor) h
            (word_bytes_positive w) (register_end_room w s.cursor).0 (omega arith)

  replace_memory-Placed :
      (n offset total : ℕ) (w : WordType)
      → lo ≤ n
      → n ≤ hi
      → 0 < total
      → offset < first_come bytes (n - lo) total (n - lo)
      → s.cursor + total + 16 ≤ llong_max
      → Returns
          (Placed lo hi bytes s
            (record { operand_type = pseudo_memory n offset total; word_type = w }))
          (replace_memory lo hi n offset total w s)
  unfolding replace_memory operand_bytes operand_need placed
  replace_memory-Placed n offset total w p q t inner room =
      rw
        (
          test_le p,
          test_le q,
          take_slot-ok (n - lo) (memory_end total s.cursor) (advance_memory total s.cursor) s
              (advance_memory-ok total s.cursor room),
          test_lt inside,
        )
        (
          slot_taken-IsSlots _ bytes s (n - lo) total (memory_end total s.cursor) h t
              (memory_end_room total s.cursor).0 (omega arith),
          slot_taken-Keeps _ bytes s (n - lo) total (memory_end total s.cursor) h t
              (memory_end_room total s.cursor).0 (omega arith),
          slot_taken_cursor (n - lo) (memory_end total s.cursor) (total + 16) s
              (memory_end_room total s.cursor).1,
          λ t' k. rw (k (n - lo) taken.1),
        )
    where
      taken :
          (first_come bytes (n - lo) total (n - lo)
            ≤ (slot_taken (n - lo) (memory_end total s.cursor) s).offsets (n - lo))
          × (0 < (slot_taken (n - lo) (memory_end total s.cursor) s).offsets (n - lo))
      taken =
          slot_taken-taken (suc hi - lo) bytes s (n - lo) total (memory_end total s.cursor) h t
            (memory_end_room total s.cursor).0 (omega arith)

      inside : offset < (slot_taken (n - lo) (memory_end total s.cursor) s).offsets (n - lo)
      inside = omega (arith, taken.0)

-- The bytes of a slot stay once it has some.
pub first_come_kept : (bytes : ℕ → ℕ) (j b i : ℕ) → 0 < bytes i → first_come bytes j b i ≡ bytes i
first_come_kept bytes j b i p = ground arith

pub operand_bytes_kept :
    (lo : ℕ) (bytes : ℕ → ℕ) (t : OperandType) (w : WordType) (i : ℕ)
    → 0 < bytes i
    → operand_bytes lo bytes (record { operand_type = t; word_type = w }) i ≡ bytes i
unfolding operand_bytes
operand_bytes_kept lo bytes (pseudo_register n) w i p =
    first_come_kept bytes (n - lo) (word_bytes w) i p
operand_bytes_kept lo bytes (pseudo_memory n offset total) w i p =
    first_come_kept bytes (n - lo) total i p
operand_bytes_kept lo bytes _ w i p = refl

pub slot_bytes_kept :
    (lo : ℕ) (bytes : ℕ → ℕ) (ops : List Op) (i : ℕ)
    → 0 < bytes i
    → slot_bytes_from lo bytes ops i ≡ bytes i
unfolding slot_bytes_from
slot_bytes_kept lo bytes [] i p = refl
slot_bytes_kept lo bytes (op ∷ ops) i p =
    slot_bytes_kept lo (operand_bytes lo (operand_bytes lo bytes op.arg0) op.arg1) ops i
      (rw (second, first) p)
    ∙ second
    ∙ first
  where
    first : operand_bytes lo bytes op.arg0 i ≡ bytes i
    first = operand_bytes_kept lo bytes op.arg0.operand_type op.arg0.word_type i p

    second :
        operand_bytes lo (operand_bytes lo bytes op.arg0) op.arg1 i
        ≡ operand_bytes lo bytes op.arg0 i
    second =
        operand_bytes_kept lo (operand_bytes lo bytes op.arg0) op.arg1.operand_type
          op.arg1.word_type i (rw first p)

-- An operand fits the slots that there are behind it.
pub replace_operand-Placed :
    (lo hi : ℕ) (bytes : ℕ → ℕ) (s : Slots) (t : OperandType) (w : WordType)
    → IsSlots (suc hi - lo) bytes s
    → Fits lo hi
        (operand_bytes lo bytes (record { operand_type = t; word_type = w }))
        (record { operand_type = t; word_type = w })
    → s.cursor + operand_need (record { operand_type = t; word_type = w }) ≤ llong_max
    → Returns
        (Placed lo hi bytes s (record { operand_type = t; word_type = w }))
        (replace_operand lo hi (record { operand_type = t; word_type = w }) s)
unfolding replace_operand operand_bytes operand_need placed
replace_operand-Placed lo hi bytes s (pseudo_register n) w h f room =
    replace_register-Placed lo hi bytes s h n w f.0 f.1 room
replace_operand-Placed lo hi bytes s (pseudo_memory n offset total) w h f room =
    replace_memory-Placed lo hi bytes s h n offset total w f.0 f.1 f.2 f.3 (omega (arith, room))
replace_operand-Placed lo hi bytes s _ w h f room = (h, (λ i p. refl), omega arith, λ t k. refl)
