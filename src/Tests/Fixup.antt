-- ===== src/Tests/Fixup.antt =====
-- The fixups of passes/codegen.c on small functions.
use enqcc.Base.{
  ℕ, ◌≡◌, ◌≤◌, ◌<◌, ◌-◌, ◌%◌, refl, List, [], ◌∷◌, pos, negsuc, false, err, signed_overflow, ok,
  Returns, arith,
}
use enqcc.Codegen.Asm.{
  word_32bit, word_64bit, WordType, Register, ax, r10, rbp, Operand, immediate, memory, register,
  mov, mov_with_zero_extension, binary_add, compare, bitwise_signed_shift_left, lea, ret, Op, op,
  zero_operand, asm_linkage_external, AsmFunction,
}
use enqcc.Codegen.Round.{rounded, round_up_to_multiple_of, round_up_bounds}
use enqcc.Codegen.Fixup.Splice.{
  apply_fixers, fixers, codegen_fixup_function, fixup_loop, codegen_fixup_apply, splice,
  codegen_alloc_subq_rsp, codegen_bytes_stack_align, fixup_instructions_one,
}
use enqcc.Codegen.Fixup.Fixers.{fix_s2s}
use enqcc.Codegen.Fixup.Encodable.{is_encodable}
use enqcc.Codegen.Fixup.Unchanged.{apply_fixers-unchanged, fixup_instructions_one-frame}

abbrev slot : WordType → ℕ → Operand
slot w n = record { operand_type = memory rbp (negsuc n); word_type = w }

abbrev reg : WordType → Register → Operand
reg w r = record { operand_type = register r; word_type = w }

abbrev num : WordType → ℕ → Operand
num w n = record { operand_type = immediate (pos n); word_type = w }

-- Operands that no instruction takes: memory to memory, a large immediate, a comparison with an
-- immediate, a count in memory, an extension from 32 bits into memory.
abbrev rough : List Op
rough =
    op mov (slot word_32bit 3) (slot word_32bit 7)
    ∷ op binary_add (num word_64bit 4294967296) (slot word_64bit 15)
    ∷ op compare (slot word_32bit 3) (num word_32bit 5)
    ∷ op bitwise_signed_shift_left (slot word_32bit 3) (slot word_32bit 7)
    ∷ op mov_with_zero_extension (slot word_32bit 3) (slot word_64bit 15)
    ∷ op lea (slot word_64bit 15) (slot word_64bit 23)
    ∷ op ret zero_operand zero_operand
    ∷ []

abbrev smooth : List Op
smooth =
    op mov (slot word_32bit 3) (reg word_32bit ax)
    ∷ op bitwise_signed_shift_left (num word_32bit 2) (reg word_32bit ax)
    ∷ op ret zero_operand zero_operand
    ∷ []

abbrev function_of : ℕ → List Op → AsmFunction
function_of usage ops = record {
  identifier = b'f' ∷ [];
  linkage = asm_linkage_external;
  stack_usage = usage;
  ops = ops;
}

-- The move goes through %r10, in two operations.
fix_s2s_rough :
    codegen_fixup_function fix_s2s (op mov (slot word_32bit 3) (slot word_32bit 7) ∷ [])
    ≡ ok (
        op mov (slot word_32bit 3) (reg word_32bit r10)
        ∷ op mov (reg word_32bit r10) (slot word_32bit 7)
        ∷ [])
unfolding codegen_fixup_function fixup_loop codegen_fixup_apply splice fix_s2s
fix_s2s_rough = refl

apply_fixers-unchanged_example : apply_fixers fixers smooth ≡ ok smooth
apply_fixers-unchanged_example =
    apply_fixers-unchanged smooth (refl, (refl, (refl, tt))) (refl, (refl, (refl, tt)))

fixup_instructions_one-frame_example :
    fixup_instructions_one (function_of 24 smooth)
    ≡ ok (function_of 24 (codegen_alloc_subq_rsp (rounded 24 codegen_bytes_stack_align) ∷ smooth))
fixup_instructions_one-frame_example =
    fixup_instructions_one-frame (function_of 24 smooth) smooth (omega arith)
      (unfold rounded in omega arith)
      (apply_fixers-unchanged smooth (refl, (refl, (refl, tt))) (refl, (refl, (refl, tt))))

round_up_bounds_example :
    Returns (λ r. (17 ≤ r) × (r - 17 < 16) × (r % 16 ≡ 0)) (round_up_to_multiple_of 17 16)
round_up_bounds_example = round_up_bounds 17 16 (omega arith) (omega arith)

-- Near LLONG_MAX the sum of the function overflows.
round_up_overflow : round_up_to_multiple_of 9223372036854775806 16 ≡ err signed_overflow
unfolding round_up_to_multiple_of
round_up_overflow = refl

-- A comparison with a number below INT_MIN is not encodable, and no fixer changes it.
abbrev compare_low : Op
compare_low =
    op compare (record { operand_type = immediate (negsuc 4999999999); word_type = word_64bit })
      (slot word_64bit 7)

compare_low_unchanged : apply_fixers fixers (compare_low ∷ []) ≡ ok (compare_low ∷ [])
compare_low_unchanged = apply_fixers-unchanged (compare_low ∷ []) (refl, tt) (refl, tt)

compare_low_rejected : is_encodable compare compare_low.arg0 compare_low.arg1 ≡ false
compare_low_rejected = refl
