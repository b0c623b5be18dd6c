-- ===== src/Codegen/Pseudo/Layout.antt =====
-- What a layout of the stack frame is, and that one operand keeps it.
use enqcc.Base.{
  ℕ, ◌+◌, ◌-◌, ◌≤◌, ◌<◌, ◌≡◌, ◌≢◌, ◌⊎◌, List, [], ◌∷◌, ◌==◌, if◌then◌else◌, ◌%◌, Result, ok, arith,
}
use enqcc.Codegen.Asm.{
  WordType, word_08bit, word_32bit, word_64bit, Operand, pseudo_register, pseudo_memory, Op,
}
use enqcc.Codegen.Round.{llong_max, long_sum-ok, rounded, rounded_bounds, round_up-ok}
use enqcc.Codegen.Pseudo.Slots.{
  advance_register, advance_memory, Slots, update, take_slot, frame_operand,
}

-- The bytes that an access by a word type touches.
abbrev pub word_bytes : WordType → ℕ
word_bytes word_08bit = 1
word_bytes word_32bit = 4
word_bytes word_64bit = 8

-- The bytes of each slot after an operand: those of the first operand that names it.
abbrev pub first_come : (ℕ → ℕ) → ℕ → ℕ → ℕ → ℕ
first_come bytes i b = if bytes i == 0 then update bytes i b else bytes

unfoldable pub operand_bytes : ℕ → (ℕ → ℕ) → Operand → ℕ → ℕ
operand_bytes lo bytes arg = elim arg.operand_type [
  | pseudo_register n ↦ first_come bytes (n - lo) (word_bytes arg.word_type)
  | pseudo_memory n offset total ↦ first_come bytes (n - lo) total
  | _ ↦ bytes
]

unfoldable pub slot_bytes_from : ℕ → (ℕ → ℕ) → List Op → ℕ → ℕ
slot_bytes_from lo bytes [] = bytes
slot_bytes_from lo bytes (op ∷ ops) =
    slot_bytes_from lo (operand_bytes lo (operand_bytes lo bytes op.arg0) op.arg1) ops

-- The slots with bytes lie within `frame` bytes below the base pointer, and no two of them overlap.
-- Slot `i` takes the bytes from `offsets i - bytes i` up to `offsets i` below it.
pub record IsLayout (bytes offsets : ℕ → ℕ) (frame : ℕ) : Type 0 where
  pub within : (i : ℕ) → 0 < bytes i → (bytes i ≤ offsets i) × (offsets i ≤ frame)
  pub apart :
      (i j : ℕ)
      → i ≢ j
      → 0 < bytes i
      → 0 < bytes j
      → (offsets i + bytes j ≤ offsets j) ⊎ (offsets j + bytes i ≤ offsets i)

-- The state of the loop, with the bytes of the slots taken so far, all of an index below `size`.
pub record IsSlots (size : ℕ) (bytes : ℕ → ℕ) (s : Slots) : Type 0 where
  pub layout : IsLayout bytes s.offsets s.cursor
  pub unused : (i : ℕ) → bytes i ≡ 0 → s.offsets i ≡ 0
  pub inside : (i : ℕ) → 0 < bytes i → i < size

-- An offset stays once it is set.
abbrev pub Keeps : Slots → Slots → Type 0
Keeps s t = (i : ℕ) → 0 < s.offsets i → t.offsets i ≡ s.offsets i

-- The state with the slot that ends at `next`, if there was none.
unfoldable pub slot_taken : ℕ → ℕ → Slots → Slots
slot_taken idx next s =
    if s.offsets idx == 0 then record { cursor = next; offsets = update s.offsets idx next } else s

module _ (size : ℕ) (bytes : ℕ → ℕ) (s : Slots) (idx b next : ℕ) (h : IsSlots size bytes s)
    (positive : 0 < b) (room : s.cursor + b ≤ next) (small : idx < size) where
  pub slot_taken-IsSlots : IsSlots size (first_come bytes idx b) (slot_taken idx next s)
  unfolding slot_taken
  slot_taken-IsSlots = record {
    layout = record {
      within = λ i p. ground (arith, h.layout.within i, h.layout.within idx, h.unused idx);
      apart = λ i j n p q. ground (
        arith,
        h.layout.within i,
        h.layout.within j,
        h.layout.apart i j n,
        h.unused idx,
        h.layout.within idx,
      );
    };
    unused = λ i e. ground (arith, h.unused i, h.unused idx, h.layout.within idx);
    inside = λ i p. ground (arith, h.inside i);
  }

  pub slot_taken-Keeps : Keeps s (slot_taken idx next s)
  unfolding slot_taken
  slot_taken-Keeps i p = ground arith

  pub slot_taken-taken :
      (first_come bytes idx b idx ≤ (slot_taken idx next s).offsets idx)
      × (0 < (slot_taken idx next s).offsets idx)
  unfolding slot_taken
  slot_taken-taken = (
    ground (arith, h.unused idx, h.layout.within idx),
    ground (arith, h.unused idx, h.layout.within idx),
  )

-- The cursor behind a new slot, where nothing overflows.
unfoldable pub register_end : WordType → ℕ → ℕ
register_end word_08bit c = c + 1
register_end word_32bit c = rounded (c + 4) 4
register_end word_64bit c = rounded (c + 8) 8

unfoldable pub memory_end : ℕ → ℕ → ℕ
memory_end total c = rounded (c + total) 16

pub advance_register-ok :
    (w : WordType) (c : ℕ) → c + 16 ≤ llong_max → advance_register w c ≡ ok (register_end w c)
unfolding advance_register register_end
advance_register-ok word_08bit c h = long_sum-ok c 1 (omega arith)
advance_register-ok word_32bit c h =
    rw (long_sum-ok c 4 (omega arith)) (round_up-ok (c + 4) 4 (omega arith) (omega arith))
advance_register-ok word_64bit c h =
    rw (long_sum-ok c 8 (omega arith)) (round_up-ok (c + 8) 8 (omega arith) (omega arith))

pub advance_memory-ok :
    (total c : ℕ) → c + total + 16 ≤ llong_max → advance_memory total c ≡ ok (memory_end total c)
unfolding advance_memory memory_end
advance_memory-ok total c h =
    rw (long_sum-ok c total (omega arith)) (round_up-ok (c + total) 16 (omega arith) h)

pub take_slot-ok :
    (idx next : ℕ) (advanced : Result ℕ) (s : Slots)
    → advanced ≡ ok next
    → take_slot idx advanced s ≡ ok (slot_taken idx next s)
unfolding take_slot slot_taken
take_slot-ok idx next advanced s e = rw e (ground arith)

pub slot_taken_cursor :
    (idx next most : ℕ) (s : Slots)
    → next ≤ s.cursor + most
    → (slot_taken idx next s).cursor ≤ s.cursor + most
unfolding slot_taken
slot_taken_cursor idx next most s h = ground arith

pub register_end_room :
    (w : WordType) (c : ℕ) → (c + word_bytes w ≤ register_end w c) × (register_end w c ≤ c + 16)
unfolding register_end
register_end_room word_08bit c = (omega arith, omega arith)
register_end_room word_32bit c = room (rounded_bounds (c + 4) 4 (omega arith))
  where
    room :
        (c + 4 ≤ rounded (c + 4) 4)
          × (rounded (c + 4) 4 - (c + 4) < 4)
          × (rounded (c + 4) 4 % 4 ≡ 0)
        → (c + 4 ≤ rounded (c + 4) 4) × (rounded (c + 4) 4 ≤ c + 16)
    room b = (b.0, omega (arith, b.1))
register_end_room word_64bit c = room (rounded_bounds (c + 8) 8 (omega arith))
  where
    room :
        (c + 8 ≤ rounded (c + 8) 8)
          × (rounded (c + 8) 8 - (c + 8) < 8)
          × (rounded (c + 8) 8 % 8 ≡ 0)
        → (c + 8 ≤ rounded (c + 8) 8) × (rounded (c + 8) 8 ≤ c + 16)
    room b = (b.0, omega (arith, b.1))

pub memory_end_room :
    (total c : ℕ) → (c + total ≤ memory_end total c) × (memory_end total c ≤ c + (total + 16))
unfolding memory_end
memory_end_room total c = (
  (rounded_bounds (c + total) 16 (omega arith)).0,
  omega (arith, (rounded_bounds (c + total) 16 (omega arith)).1),
)

-- The most that an operand moves the cursor.
unfoldable pub operand_need : Operand → ℕ
operand_need arg = elim arg.operand_type [
  | pseudo_register n ↦ 16
  | pseudo_memory n offset total ↦ total + 16
  | _ ↦ 0
]

unfoldable pub need : List Op → ℕ
need [] = 0
need (op ∷ ops) = operand_need op.arg0 + operand_need op.arg1 + need ops

pub word_bytes_positive : (w : WordType) → 0 < word_bytes w
word_bytes_positive word_08bit = omega arith
word_bytes_positive _ = omega arith

-- The operand that a pseudo-register or an element of a temporary array becomes.
unfoldable pub placed : ℕ → (ℕ → ℕ) → Operand → Operand
placed lo offsets arg = elim arg.operand_type [
  | pseudo_register n ↦ frame_operand arg.word_type (offsets (n - lo))
  | pseudo_memory n offset total ↦ frame_operand arg.word_type (offsets (n - lo) - offset)
  | _ ↦ arg
]

-- What the operands of a function satisfy, `bytes` being those of its slots: identifiers in the
-- range, arrays that are not empty, and accesses that start within the slot and, for
-- pseudo-registers, end within it.
abbrev pub Fits : ℕ → ℕ → (ℕ → ℕ) → Operand → Type 0
Fits lo hi bytes arg = elim arg.operand_type [
  | pseudo_register n ↦ (lo ≤ n) × (n ≤ hi) × (word_bytes arg.word_type ≤ bytes (n - lo))
  | pseudo_memory n offset total ↦ (lo ≤ n) × (n ≤ hi) × (0 < total) × (offset < bytes (n - lo))
  | _ ↦ Unit
]
