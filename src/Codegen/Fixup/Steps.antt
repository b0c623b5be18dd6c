-- ===== src/Codegen/Fixup/Steps.antt =====
-- The fixers of passes/codegen.c one by one: the operand forms that each of them leaves.
use enqcc.Base.{ℕ, true, ◌≡◌, Option, none, some, List, leb, length, All, Result, ok, err, arith}
use enqcc.Codegen.Asm.{
  WordType, word_08bit, word_32bit, word_64bit, OperandType, Operand, Opcode, mov,
  mov_with_zero_extension, Op, op,
}
use enqcc.Codegen.Fixup.Fixers.{
  fix_s2s, fix_imm_big, fix_cmp, fix_div, fix_mul, fix_shift, fix_movsx_and_movzx, fix_movzx_32bit,
  fix_cvt_double_to_int, fix_cvt_int_to_double, fix_arithmetic_on_double, fix_lea,
}
use enqcc.Codegen.Fixup.Stages.{Stage}

-- What a fixer of pass `k` is to give at `cur`.
abbrev pub Meets : ℕ → Op → Result (Option (List Op)) → Type 0
Meets k cur (ok none) = Stage k cur
Meets k cur (ok (some t)) = (leb 2 (length t) ≡ true) × All (Stage k) t
Meets k cur (err e) = ⊥

pub fix_s2s-Meets :
    (o : Opcode) (a b : Operand) → Stage 0 (op o a b) → Meets 1 (op o a b) (fix_s2s (op o a b))
unfolding fix_s2s
fix_s2s-Meets mov a b h = ground arith
fix_s2s-Meets _ a b h = ground arith

pub fix_imm_big-Meets :
    (o : Opcode) (a b : Operand) → Stage 1 (op o a b) → Meets 2 (op o a b) (fix_imm_big (op o a b))
unfolding fix_imm_big
fix_imm_big-Meets mov a b h = ground arith
fix_imm_big-Meets _ a b h = ground arith

pub fix_cmp-Meets :
    (o : Opcode) (a b : Operand) → Stage 2 (op o a b) → Meets 3 (op o a b) (fix_cmp (op o a b))
unfolding fix_cmp
fix_cmp-Meets mov a b h = ground arith
fix_cmp-Meets _ a b h = ground arith

pub fix_div-Meets :
    (o : Opcode) (a b : Operand) → Stage 3 (op o a b) → Meets 4 (op o a b) (fix_div (op o a b))
unfolding fix_div
fix_div-Meets mov a b h = ground arith
fix_div-Meets _ a b h = ground arith

pub fix_mul-Meets :
    (o : Opcode) (a b : Operand) → Stage 4 (op o a b) → Meets 5 (op o a b) (fix_mul (op o a b))
unfolding fix_mul
fix_mul-Meets mov a b h = ground arith
fix_mul-Meets _ a b h = ground arith

pub fix_shift-Meets :
    (o : Opcode) (a b : Operand) → Stage 5 (op o a b) → Meets 6 (op o a b) (fix_shift (op o a b))
unfolding fix_shift
fix_shift-Meets mov a b h = ground arith
fix_shift-Meets _ a b h = ground arith

pub fix_movsx_and_movzx-Meets :
    (o : Opcode) (a b : Operand)
    → Stage 6 (op o a b)
    → Meets 7 (op o a b) (fix_movsx_and_movzx (op o a b))
unfolding fix_movsx_and_movzx
fix_movsx_and_movzx-Meets mov a b h = ground arith
fix_movsx_and_movzx-Meets _ a b h = ground arith

-- An extension without sign, by the word types of its operands.
movzx_32bit-Meets :
    (s t : OperandType) (v w : WordType)
    → let a : Operand = record { operand_type = s; word_type = v } in
      let b : Operand = record { operand_type = t; word_type = w } in
      Stage 7 (op mov_with_zero_extension a b)
      → Meets 8 (op mov_with_zero_extension a b) (fix_movzx_32bit (op mov_with_zero_extension a b))
unfolding fix_movzx_32bit
movzx_32bit-Meets s t word_08bit w h = ground arith
movzx_32bit-Meets s t word_32bit word_64bit h = ground arith
movzx_32bit-Meets s t word_32bit w h = ground arith
movzx_32bit-Meets s t word_64bit w h = ground arith

pub fix_movzx_32bit-Meets :
    (o : Opcode) (a b : Operand)
    → Stage 7 (op o a b)
    → Meets 8 (op o a b) (fix_movzx_32bit (op o a b))
unfolding fix_movzx_32bit
fix_movzx_32bit-Meets mov a b h = ground arith
fix_movzx_32bit-Meets mov_with_zero_extension a b h =
    movzx_32bit-Meets a.operand_type b.operand_type a.word_type b.word_type h
fix_movzx_32bit-Meets _ a b h = ground arith

pub fix_cvt_double_to_int-Meets :
    (o : Opcode) (a b : Operand)
    → Stage 8 (op o a b)
    → Meets 9 (op o a b) (fix_cvt_double_to_int (op o a b))
unfolding fix_cvt_double_to_int
fix_cvt_double_to_int-Meets mov a b h = ground arith
fix_cvt_double_to_int-Meets _ a b h = ground arith

pub fix_cvt_int_to_double-Meets :
    (o : Opcode) (a b : Operand)
    → Stage 9 (op o a b)
    → Meets 10 (op o a b) (fix_cvt_int_to_double (op o a b))
unfolding fix_cvt_int_to_double
fix_cvt_int_to_double-Meets mov a b h = ground arith
fix_cvt_int_to_double-Meets _ a b h = ground arith

pub fix_arithmetic_on_double-Meets :
    (o : Opcode) (a b : Operand)
    → Stage 10 (op o a b)
    → Meets 11 (op o a b) (fix_arithmetic_on_double (op o a b))
unfolding fix_arithmetic_on_double
fix_arithmetic_on_double-Meets mov a b h = ground arith
fix_arithmetic_on_double-Meets _ a b h = ground arith

pub fix_lea-Meets :
    (o : Opcode) (a b : Operand) → Stage 11 (op o a b) → Meets 12 (op o a b) (fix_lea (op o a b))
unfolding fix_lea
fix_lea-Meets mov a b h = ground arith
fix_lea-Meets _ a b h = ground arith
