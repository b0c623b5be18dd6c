-- ===== src/Codegen/Fixup/Unchanged.antt =====
-- What the fixups of passes/codegen.c leave as it is.
use enqcc.Base.{
  ℕ, ◌+◌, ◌≤◌, ◌<◌, ◌≡◌, refl, true, false, not, ◌&&◌, Option, none, some, List, [], ◌∷◌, ◌++◌, leb,
  ◌==◌, length, All, Result, ok, err, ◌>>=◌, >>=-commute, arith, Bool-cases, inl, inr,
}
use mathlib.Core.List.{append_assoc}
use enqcc.Codegen.Asm.{Op, op, Opcode, Operand, mov, AsmFunction, is_immediate}
use enqcc.Codegen.Round.{llong_max, rounded, rounded_bounds, round_up-ok}
use enqcc.Codegen.Fixup.Fixers.{
  Fixer, fix_s2s, fix_imm_big, fix_cmp, fix_div, fix_mul, fix_shift, fix_movsx_and_movzx,
  fix_movzx_32bit, fix_cvt_double_to_int, fix_cvt_int_to_double, fix_arithmetic_on_double, fix_lea,
  is_shift,
}
use enqcc.Codegen.Fixup.Splice.{
  splice, codegen_fixup_apply, fixup_loop, codegen_fixup_function, fixers, apply_fixers,
  codegen_alloc_subq_rsp, codegen_bytes_stack_align, codegen_fixup_alloc_stack,
  fixup_instructions_one,
}
use enqcc.Codegen.Fixup.Encodable.{is_settled}

-- No fixer fires at the operation.
abbrev Idle : List Fixer → Op → Type 0
Idle [] o = Unit
Idle (f ∷ fs) o = (f o ≡ ok none) × Idle fs o

-- The operands of the operation have the forms that the fixups leave.
abbrev pub IsSettled : Op → Type 0
IsSettled o = is_settled o.opcode o.arg0 o.arg1 ≡ true

-- The count of a shift is an immediate; `fix_shift` moves one in CL to CL.
abbrev pub ShiftsByImmediate : Op → Type 0
ShiftsByImmediate o = (is_shift o.opcode && not (is_immediate o.arg0)) ≡ false

fixers-Idle :
    (o : Opcode) (a b : Operand)
    → is_settled o a b ≡ true
    → (is_shift o && not (is_immediate a)) ≡ false
    → Idle fixers (op o a b)
unfolding fix_s2s fix_imm_big fix_cmp fix_div fix_mul fix_shift fix_movsx_and_movzx fix_movzx_32bit
    fix_cvt_double_to_int fix_cvt_int_to_double fix_arithmetic_on_double fix_lea
fixers-Idle mov a b h s = ground arith
fixers-Idle _ a b h s = ground arith

splice-append :
    (xs before : List Op) (cur : Op) (fixed : Option (List Op))
    → splice (xs ++ before) cur fixed ≡ (splice before cur fixed >>= λ r. ok (xs ++ r))
unfolding splice
splice-append xs before cur none = rw append_assoc
splice-append xs before cur (some t) = elim (Bool-cases (leb 1 (length t))) [
  | inl p ↦
      rw p (elim (Bool-cases (leb 2 (length t))) [ inl q ↦ rw q (rw append_assoc) | inr q ↦ rw q ])
  | inr p ↦ rw p
]

apply-append :
    (xs before : List Op) (cur : Op) (f : Fixer)
    → codegen_fixup_apply (xs ++ before) cur f
      ≡ (codegen_fixup_apply before cur f >>= λ r. ok (xs ++ r))
unfolding codegen_fixup_apply
apply-append xs before cur f = go (f cur)
  where
    go :
        (r : Result (Option (List Op)))
        → (r >>= splice (xs ++ before) cur) ≡ ((r >>= splice before cur) >>= λ r'. ok (xs ++ r'))
    go (ok fixed) = splice-append xs before cur fixed
    go (err e) = refl

-- What stands before the cursor is carried along.
loop-append :
    (f : Fixer) (xs before ops : List Op)
    → fixup_loop f (xs ++ before) ops ≡ (fixup_loop f before ops >>= λ r. ok (xs ++ r))
unfolding fixup_loop
loop-append f xs before [] = refl
loop-append f xs before (cur ∷ rest) = rw (apply-append xs before cur f) (
    >>=-commute (codegen_fixup_apply before cur f) (λ r. xs ++ r) (λ r. fixup_loop f r rest)
      (λ r. xs ++ r) λ r. loop-append f xs r rest)

-- An operation that the fixer passes over stays at the head.
function-cons :
    (f : Fixer) (o : Op) (ops : List Op)
    → f o ≡ ok none
    → codegen_fixup_function f (o ∷ ops) ≡ (codegen_fixup_function f ops >>= λ r. ok (o ∷ r))
unfolding codegen_fixup_function fixup_loop codegen_fixup_apply splice
function-cons f o ops h = rw h (loop-append f (o ∷ []) [] ops)

passes-cons :
    (fs : List Fixer) (o : Op) (ops : List Op)
    → Idle fs o
    → apply_fixers fs (o ∷ ops) ≡ (apply_fixers fs ops >>= λ r. ok (o ∷ r))
unfolding apply_fixers
passes-cons [] o ops h = refl
passes-cons (f ∷ fs) o ops h = rw (function-cons f o ops h.0) (
    >>=-commute (codegen_fixup_function f ops) (λ r. o ∷ r) (apply_fixers fs) (λ r. o ∷ r)
      λ r. passes-cons fs o r h.1)

-- Operations whose operands have the forms that the fixups leave, and that shift by immediates, go
-- through all passes unchanged.
pub apply_fixers-unchanged :
    (ops : List Op)
    → All IsSettled ops
    → All ShiftsByImmediate ops
    → apply_fixers fixers ops ≡ ok ops
apply_fixers-unchanged [] h s = unfold apply_fixers codegen_fixup_function fixup_loop in refl
apply_fixers-unchanged (o ∷ ops) h s = rw (
  passes-cons fixers o ops (fixers-Idle o.opcode o.arg0 o.arg1 h.0 s.0),
  apply_fixers-unchanged ops h.1 s.1,
)

usage_test : (n : ℕ) → 0 < n → (n == 0) ≡ false
usage_test n h = ground arith

subq-Idle : (n : ℕ) → n ≤ 2147483647 → Idle fixers (codegen_alloc_subq_rsp n)
unfolding codegen_alloc_subq_rsp
subq-Idle n h = fixers-Idle _ _ _ (ground arith) refl

-- A function that uses stack starts, after all passes, with the operation that takes its frame from
-- the stack pointer, the usage rounded up to a multiple of 16; what follows is what the passes make
-- of its own operations. The frame is to be at most INT_MAX.
pub fixup_instructions_one-frame :
    (f : AsmFunction) (ops : List Op)
    → 0 < f.stack_usage
    → rounded f.stack_usage codegen_bytes_stack_align ≤ 2147483647
    → apply_fixers fixers f.ops ≡ ok ops
    → fixup_instructions_one f
      ≡ ok (record f {
        ops = codegen_alloc_subq_rsp (rounded f.stack_usage codegen_bytes_stack_align) ∷ ops;
      })
unfolding fixup_instructions_one codegen_fixup_alloc_stack
fixup_instructions_one-frame f ops pos_usage small e =
    rw (usage_test f.stack_usage pos_usage, round_up-ok f.stack_usage 16 (omega arith) fits)
      (rw (passes-cons fixers (codegen_alloc_subq_rsp frame) f.ops (subq-Idle frame small), e))
  where
    frame : ℕ
    frame = rounded f.stack_usage codegen_bytes_stack_align

    fits : f.stack_usage + 16 ≤ llong_max
    fits = omega (arith, small, (rounded_bounds f.stack_usage 16 (omega arith)).0)
