-- ===== src/Codegen/Fixup/Fixers.antt =====
-- passes/codegen.c: the twelve fixers. A fixer returns `none` where the source returns false, and
-- the `sz` operations of the trampoline where it returns true. A failing `assert` is an error.
use enqcc.Base.{
  Bool, true, false, not, ◌&&◌, ◌||◌, Option, none, some, List, [], ◌∷◌, if◌then◌else◌, Result, ok,
  ◌>>◌, assert,
}
use enqcc.Codegen.Asm.{
  word_08bit, word_32bit, word_64bit, word_lt, word_eq, xmm15, r10, Opcode, mov,
  mov_with_sign_extension, mov_with_zero_extension, lea, cvt_double_to_int, cvt_int_to_double,
  binary_add, binary_subtract, binary_multiply, bitwise_and, bitwise_or, bitwise_xor,
  bitwise_signed_shift_left, bitwise_signed_shift_right, bitwise_unsigned_shift_left,
  bitwise_unsigned_shift_right, compare, idiv, div, double_binary_add, double_binary_subtract,
  double_binary_multiply, double_binary_divide, double_bitwise_xor, double_compare, push, Op, op,
  is_xmm_register, zero_operand, set_operand_ecx, set_operand_r10, set_operand_r11, operand_64bit,
  is_immediate, is_immediate_big, is_register, in_memory,
}

abbrev pub Fixer : Type 0
Fixer = Op → Result (Option (List Op))

-- The operations that a trampoline holds.
abbrev trampoline : List Op → Result (Option (List Op))
trampoline ops = ok (some ops)

abbrev no_fixup : Result (Option (List Op))
no_fixup = ok none

abbrev pub binary_ish_opcode : Opcode → Bool
binary_ish_opcode binary_add = true
binary_ish_opcode binary_subtract = true
binary_ish_opcode bitwise_and = true
binary_ish_opcode bitwise_or = true
binary_ish_opcode bitwise_xor = true
binary_ish_opcode compare = true
binary_ish_opcode _ = false

abbrev pub is_mov : Opcode → Bool
is_mov mov = true
is_mov _ = false

-- `movl mem, mem` and its like go through R10.
unfoldable pub fix_s2s : Fixer
fix_s2s cur =
    if (is_mov cur.opcode || binary_ish_opcode cur.opcode)
      && in_memory cur.arg0
      && in_memory cur.arg1
    then trampoline (
        op (if binary_ish_opcode cur.opcode then mov else cur.opcode) cur.arg0
          (set_operand_r10 cur.arg0)
        ∷ op cur.opcode (set_operand_r10 cur.arg1) cur.arg1
        ∷ [])
    else no_fixup

-- The operations of which an immediate that exceeds INT_MAX goes through a register.
abbrev pub arithmetic_or_push : Opcode → Bool
arithmetic_or_push binary_multiply = true
arithmetic_or_push push = true
arithmetic_or_push o = binary_ish_opcode o

unfoldable pub fix_imm_big : Fixer
fix_imm_big cur =
    if arithmetic_or_push cur.opcode && is_immediate_big cur.arg0
      || is_mov cur.opcode && is_immediate_big cur.arg0 && in_memory cur.arg1
      || is_mov cur.opcode && is_immediate cur.arg0 && is_xmm_register cur.arg1
    then trampoline
        (op mov cur.arg0 (operand_64bit r10) ∷ op cur.opcode (operand_64bit r10) cur.arg1 ∷ [])
    else no_fixup

abbrev pub is_compare : Opcode → Bool
is_compare compare = true
is_compare _ = false

unfoldable pub fix_cmp : Fixer
fix_cmp cur =
    if is_compare cur.opcode && is_immediate cur.arg1
    then trampoline (
        op mov cur.arg1 (set_operand_r11 cur.arg1)
        ∷ op compare cur.arg0 (set_operand_r11 cur.arg0)
        ∷ [])
    else no_fixup

abbrev pub is_div : Opcode → Bool
is_div idiv = true
is_div div = true
is_div _ = false

-- Divisions have one operand: the second stays as it was allocated, zeroed.
unfoldable pub fix_div : Fixer
fix_div cur =
    if is_div cur.opcode && is_immediate cur.arg0
    then trampoline (
        op mov cur.arg0 (set_operand_r10 cur.arg0)
        ∷ op cur.opcode (set_operand_r10 cur.arg0) zero_operand
        ∷ [])
    else no_fixup

abbrev pub is_multiply : Opcode → Bool
is_multiply binary_multiply = true
is_multiply _ = false

unfoldable pub fix_mul : Fixer
fix_mul cur =
    if is_multiply cur.opcode && in_memory cur.arg1
    then trampoline (
        op mov cur.arg1 (set_operand_r11 cur.arg1)
        ∷ op binary_multiply cur.arg0 (set_operand_r11 cur.arg0)
        ∷ op mov (set_operand_r11 cur.arg1) cur.arg1
        ∷ [])
    else no_fixup

abbrev pub is_shift : Opcode → Bool
is_shift bitwise_signed_shift_left = true
is_shift bitwise_signed_shift_right = true
is_shift bitwise_unsigned_shift_left = true
is_shift bitwise_unsigned_shift_right = true
is_shift _ = false

unfoldable pub fix_shift : Fixer
fix_shift cur =
    if is_shift cur.opcode && not (is_immediate cur.arg0)
    then trampoline (
        op mov cur.arg0 (set_operand_ecx cur.arg0)
        ∷ op cur.opcode (set_operand_ecx cur.arg1) cur.arg1
        ∷ [])
    else no_fixup

abbrev pub is_movsx : Opcode → Bool
is_movsx mov_with_sign_extension = true
is_movsx _ = false

abbrev pub is_movzx : Opcode → Bool
is_movzx mov_with_zero_extension = true
is_movzx _ = false

-- The word types of copied operands are those of the operands that they copy; of the source's
-- assertions, the trivial ones (`x.word_type == x.word_type`) are left out.
unfoldable pub fix_movsx_and_movzx : Fixer
fix_movsx_and_movzx cur =
    if (is_movsx cur.opcode && word_lt cur.arg0.word_type word_64bit
        || is_movzx cur.opcode && word_lt cur.arg0.word_type word_32bit)
      && (is_immediate cur.arg0 || in_memory cur.arg1)
    then (do
      assert (word_lt cur.arg0.word_type word_64bit)
      assert (word_lt cur.arg0.word_type cur.arg1.word_type)
      trampoline (
          op mov cur.arg0 (set_operand_r10 cur.arg0)
          ∷ op cur.opcode (set_operand_r10 cur.arg0) (set_operand_r11 cur.arg1)
          ∷ op mov (set_operand_r11 cur.arg1) cur.arg1
          ∷ []))
    else no_fixup

-- With a register destination the trampoline has one operation.
unfoldable pub fix_movzx_32bit : Fixer
fix_movzx_32bit cur =
    if not (is_movzx cur.opcode)
    then no_fixup
    else if word_eq cur.arg0.word_type word_08bit
    then no_fixup
    else do
      assert (word_eq cur.arg0.word_type word_32bit)
      if is_register cur.arg1 then trampoline (op mov cur.arg0 cur.arg1 ∷ []) else do
        assert (word_lt cur.arg0.word_type word_64bit)
        assert (word_lt cur.arg0.word_type cur.arg1.word_type)
        trampoline (
            op mov cur.arg0 (set_operand_r11 cur.arg0)
            ∷ op mov (set_operand_r11 cur.arg1) cur.arg1
            ∷ [])

abbrev pub is_cvt_double_to_int : Opcode → Bool
is_cvt_double_to_int cvt_double_to_int = true
is_cvt_double_to_int _ = false

unfoldable pub fix_cvt_double_to_int : Fixer
fix_cvt_double_to_int cur =
    if is_cvt_double_to_int cur.opcode && in_memory cur.arg1
    then trampoline (
        op cur.opcode cur.arg0 (set_operand_r11 cur.arg0)
        ∷ op mov (set_operand_r11 cur.arg1) cur.arg1
        ∷ [])
    else no_fixup

abbrev pub is_cvt_int_to_double : Opcode → Bool
is_cvt_int_to_double cvt_int_to_double = true
is_cvt_int_to_double _ = false

unfoldable pub fix_cvt_int_to_double : Fixer
fix_cvt_int_to_double cur =
    if is_cvt_int_to_double cur.opcode && (is_immediate cur.arg0 || in_memory cur.arg1)
    then trampoline (
        op mov cur.arg0 (set_operand_r10 cur.arg0)
        ∷ op cur.opcode (set_operand_r10 cur.arg0) (operand_64bit xmm15)
        ∷ op mov (operand_64bit xmm15) cur.arg1
        ∷ [])
    else no_fixup

abbrev pub is_double_compare : Opcode → Bool
is_double_compare double_compare = true
is_double_compare _ = false

abbrev pub is_double_arithmetic : Opcode → Bool
is_double_arithmetic double_binary_add = true
is_double_arithmetic double_binary_subtract = true
is_double_arithmetic double_binary_multiply = true
is_double_arithmetic double_binary_divide = true
is_double_arithmetic double_bitwise_xor = true
is_double_arithmetic o = is_double_compare o

-- A comparison writes nothing back.
unfoldable pub fix_arithmetic_on_double : Fixer
fix_arithmetic_on_double cur =
    if is_double_arithmetic cur.opcode && in_memory cur.arg1
    then trampoline (
        op mov cur.arg1 (operand_64bit xmm15)
        ∷ op cur.opcode cur.arg0 (operand_64bit xmm15)
        ∷ (if is_double_compare cur.opcode then [] else op mov (operand_64bit xmm15) cur.arg1 ∷ []))
    else no_fixup

abbrev pub is_lea : Opcode → Bool
is_lea lea = true
is_lea _ = false

unfoldable pub fix_lea : Fixer
fix_lea cur =
    if is_lea cur.opcode && in_memory cur.arg1
    then trampoline (
        op cur.opcode cur.arg0 (set_operand_r10 cur.arg1)
        ∷ op mov (set_operand_r10 cur.arg1) cur.arg1
        ∷ [])
    else no_fixup
