-- ===== src/Codegen/Pseudo/Slots.antt =====
-- passes/codegen.c: codegen_replace_pseudo_fn and codegen_replace_pseudo. The two values of
-- `preflight` are two functions. `offsets` is a function of the index into the zeroed array; the
-- sentinels LLONG_MAX and LLONG_MIN of an empty range are `none`.
use enqcc.Base.{
  ℕ, zero, suc, ◌+◌, ◌-◌, ◌*◌, min, max, Option, none, some, List, [], ◌∷◌, leb, ltb, ◌==◌,
  if◌then◌else◌, Result, ok, ◌>>=◌, ◌>>◌, assert, negated,
}
use enqcc.Codegen.Asm.{
  WordType, word_08bit, word_32bit, word_64bit, rbp, Operand, pseudo_register, pseudo_memory,
  memory, Op, AsmFunction,
}
use enqcc.Codegen.Round.{long_sum, round_up_to_multiple_of}

abbrev pub Range : Type 0
Range = Option (ℕ × ℕ)

-- MIN and MAX with the bounds so far
abbrev pub widen : Range → ℕ → Range
widen none n = some (n, n)
widen (some (lo, hi)) n = some (min lo n, max hi n)

abbrev pub preflight_operand : Range → Operand → Range
preflight_operand range arg = elim arg.operand_type [
  | pseudo_register n ↦ widen range n
  | pseudo_memory n offset total ↦ widen range n
  | _ ↦ range
]

-- codegen_replace_pseudo_fn with preflight == true
unfoldable pub preflight : Range → List Op → Range
preflight range [] = range
preflight range (op ∷ ops) =
    preflight (preflight_operand (preflight_operand range op.arg0) op.arg1) ops

abbrev pub codegen_bytes_per_value : ℕ
codegen_bytes_per_value = 4

abbrev pub codegen_bytes_per_push : ℕ
codegen_bytes_per_push = 8

abbrev pub codegen_bytes_stack_align_top_or_arr : ℕ
codegen_bytes_stack_align_top_or_arr = 16

pub record Slots : Type 0 where
  pub cursor : ℕ
  pub offsets : ℕ → ℕ

abbrev pub update : (ℕ → ℕ) → ℕ → ℕ → ℕ → ℕ
update f i v j = if j == i then v else f j

-- The cursor behind a new slot for a pseudo-register of this word type.
unfoldable pub advance_register : WordType → ℕ → Result ℕ
advance_register word_08bit cursor = long_sum cursor 1
advance_register word_32bit cursor = do
  next ← long_sum cursor codegen_bytes_per_value
  round_up_to_multiple_of next codegen_bytes_per_value
advance_register word_64bit cursor = do
  next ← long_sum cursor (codegen_bytes_per_value * 2)
  round_up_to_multiple_of next codegen_bytes_per_push

-- The cursor behind a new slot for a temporary array.
unfoldable pub advance_memory : ℕ → ℕ → Result ℕ
advance_memory total_bytes cursor = do
  next ← long_sum cursor total_bytes
  round_up_to_multiple_of next codegen_bytes_stack_align_top_or_arr

-- Use the offset computed before, or take the slot that ends at `advanced`.
unfoldable pub take_slot : ℕ → Result ℕ → Slots → Result Slots
take_slot idx advanced s =
    if s.offsets idx == 0
    then (do next ← advanced; ok (record { cursor = next; offsets = update s.offsets idx next }))
    else ok s

abbrev pub frame_operand : WordType → ℕ → Operand
frame_operand w computed_offset = record {
  operand_type = memory rbp (negated computed_offset);
  word_type = w;
}

unfoldable pub replace_register : ℕ → ℕ → ℕ → WordType → Slots → Result (Operand × Slots)
replace_register lo hi n w s = do
  assert (leb lo n)
  assert (leb n hi)
  s' ← take_slot (n - lo) (advance_register w s.cursor) s
  ok (frame_operand w (s'.offsets (n - lo)), s')

unfoldable pub replace_memory :
    ℕ → ℕ → (num offset total_bytes : ℕ) → WordType → Slots → Result (Operand × Slots)
replace_memory lo hi n offset total w s = do
  assert (leb lo n)
  assert (leb n hi)
  s' ← take_slot (n - lo) (advance_memory total s.cursor) s
  assert (ltb offset (s'.offsets (n - lo)))
  ok (frame_operand w (s'.offsets (n - lo) - offset), s')

unfoldable pub replace_operand : ℕ → ℕ → Operand → Slots → Result (Operand × Slots)
replace_operand lo hi arg s = elim arg.operand_type [
  | pseudo_register n ↦ replace_register lo hi n arg.word_type s
  | pseudo_memory n offset total ↦ replace_memory lo hi n offset total arg.word_type s
  | _ ↦ ok (arg, s)
]

-- codegen_replace_pseudo_fn with preflight == false
unfoldable pub replace_ops : ℕ → ℕ → List Op → Slots → Result (List Op × Slots)
replace_ops lo hi [] s = ok ([], s)
replace_ops lo hi (op ∷ ops) s = do
  (a, s₁) ← replace_operand lo hi op.arg0 s
  (b, s₂) ← replace_operand lo hi op.arg1 s₁
  (rest, s₃) ← replace_ops lo hi ops s₂
  ok (record op { arg0 = a; arg1 = b } ∷ rest, s₃)

-- the loop over `off` that takes the largest offset
unfoldable pub largest_offset : ℕ → (ℕ → ℕ) → ℕ → ℕ
largest_offset zero off usage = usage
largest_offset (suc i) off usage = max (off i) (largest_offset i off usage)

abbrev pub no_slots : Slots
no_slots = record { cursor = 0; offsets = λ _. 0 }

unfoldable pub replace_in_range : Range → AsmFunction → Result AsmFunction
replace_in_range none f = ok f
replace_in_range (some (lo, hi)) f = do
  let size = 1 + hi - lo
  assert (ltb 0 size)
  assert (leb size 4096)
  (ops', s) ← replace_ops lo hi f.ops no_slots
  assert (f.stack_usage == 0)
  ok (record f { ops = ops'; stack_usage = largest_offset size s.offsets f.stack_usage })

-- The body of the loop of codegen_replace_pseudo, and the function.
unfoldable pub replace_pseudo_one : AsmFunction → Result AsmFunction
replace_pseudo_one f = replace_in_range (preflight none f.ops) f

unfoldable pub codegen_replace_pseudo : List AsmFunction → Result (List AsmFunction)
codegen_replace_pseudo [] = ok []
codegen_replace_pseudo (f ∷ fs) = do
  f' ← replace_pseudo_one f
  fs' ← codegen_replace_pseudo fs
  ok (f' ∷ fs')
