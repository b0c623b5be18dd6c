-- ===== src/Codegen/Fixup/Splice.antt =====
-- passes/codegen.c: how the fixers are applied along the list of a function's operations.
use enqcc.Base.{
  ℕ, List, [], ◌∷◌, ◌++◌, Option, none, some, leb, ◌==◌, if◌then◌else◌, length, Result, ok, ◌>>=◌,
  ◌>>◌, assert, pos,
}
use enqcc.Codegen.Asm.{
  Op, op, word_08bit, immediate, rsp, binary_subtract, operand_64bit, AsmFunction,
}
use enqcc.Codegen.Round.{round_up_to_multiple_of}
use enqcc.Codegen.Fixup.Fixers.{
  Fixer, fix_s2s, fix_imm_big, fix_cmp, fix_div, fix_mul, fix_shift, fix_movsx_and_movzx,
  fix_movzx_32bit, fix_cvt_double_to_int, fix_cvt_int_to_double, fix_arithmetic_on_double, fix_lea,
}

-- What follows the call of the fixer in codegen_fixup_apply. The assertion `trampoline.sz >= 2`
-- stops the compiler on a trampoline of one operation.
unfoldable pub splice : List Op → Op → Option (List Op) → Result (List Op)
splice before cur none = ok (before ++ cur ∷ [])
splice before cur (some trampoline) = do
  assert (leb 1 (length trampoline))
  assert (leb 2 (length trampoline))
  ok (before ++ trampoline)

-- The list up to the cursor, `before`, and the operation at it. What is returned is the list up to
-- the next position of the cursor, which is what follows `cur` in either case.
unfoldable pub codegen_fixup_apply : List Op → Op → Fixer → Result (List Op)
unfolding splice
codegen_fixup_apply before cur fix_init = do fixed ← fix_init cur; splice before cur fixed

-- The loop of codegen_fixup_function, and the function.
unfoldable pub fixup_loop : Fixer → List Op → List Op → Result (List Op)
fixup_loop fix_init before [] = ok before
fixup_loop fix_init before (cur ∷ rest) = do
  before' ← codegen_fixup_apply before cur fix_init
  fixup_loop fix_init before' rest

unfoldable pub codegen_fixup_function : Fixer → List Op → Result (List Op)
codegen_fixup_function fix_init ops = fixup_loop fix_init [] ops

abbrev pub fixers : List Fixer
fixers =
    fix_s2s ∷ fix_imm_big ∷ fix_cmp ∷ fix_div ∷ fix_mul ∷ fix_shift ∷ fix_movsx_and_movzx
    ∷ fix_movzx_32bit ∷ fix_cvt_double_to_int ∷ fix_cvt_int_to_double ∷ fix_arithmetic_on_double
    ∷ fix_lea ∷ []

-- The inner loop of codegen_fixup_instructions.
unfoldable pub apply_fixers : List Fixer → List Op → Result (List Op)
apply_fixers [] ops = ok ops
apply_fixers (f ∷ fs) ops = do ops' ← codegen_fixup_function f ops; apply_fixers fs ops'

-- codegen_alloc_subq_rsp: `subq $n, %rsp`
unfoldable pub codegen_alloc_subq_rsp : ℕ → Op
codegen_alloc_subq_rsp n =
    op binary_subtract (record { operand_type = immediate (pos n); word_type = word_08bit })
      (operand_64bit rsp)

abbrev pub codegen_bytes_stack_align : ℕ
codegen_bytes_stack_align = 16

unfoldable pub codegen_fixup_alloc_stack : AsmFunction → Result AsmFunction
codegen_fixup_alloc_stack cg = if cg.stack_usage == 0 then ok cg else do
  fix ← round_up_to_multiple_of cg.stack_usage codegen_bytes_stack_align
  ok (record cg { ops = codegen_alloc_subq_rsp fix ∷ cg.ops })

-- The body of the outer loop of codegen_fixup_instructions, and the function.
unfoldable pub fixup_instructions_one : AsmFunction → Result AsmFunction
fixup_instructions_one f = do
  f' ← codegen_fixup_alloc_stack f
  ops' ← apply_fixers fixers f'.ops
  ok (record f' { ops = ops' })

unfoldable pub codegen_fixup_instructions : List AsmFunction → Result (List AsmFunction)
codegen_fixup_instructions [] = ok []
codegen_fixup_instructions (f ∷ fs) = do
  f' ← fixup_instructions_one f
  fs' ← codegen_fixup_instructions fs
  ok (f' ∷ fs')
