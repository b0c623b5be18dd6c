-- ===== src/Codegen/Fixup/Stages.antt =====
-- The operand forms that each pass of codegen_fixup_instructions adds (passes/codegen.c).
use enqcc.Base.{ℕ, Bool, true, not, ◌&&◌, ◌||◌, ◌≡◌, leb, arith}
use enqcc.Codegen.Asm.{
  word_08bit, word_32bit, word_eq, Operand, Opcode, mov, mov_with_sign_extension,
  mov_with_zero_extension, lea, cvt_double_to_int, cvt_int_to_double, binary_add, binary_subtract,
  binary_multiply, bitwise_and, bitwise_or, bitwise_xor, bitwise_signed_shift_left,
  bitwise_signed_shift_right, bitwise_unsigned_shift_left, bitwise_unsigned_shift_right, compare,
  idiv, div, double_binary_add, double_binary_subtract, double_binary_multiply,
  double_binary_divide, double_bitwise_xor, double_compare, push, Op, is_immediate,
  is_immediate_big, is_register, in_memory,
}
use enqcc.Codegen.Fixup.Encodable.{
  one_memory, is_shift_count, immediate_move, into_register, widens, is_place, is_general,
  is_encodable, is_selected,
}

-- from pass `n` on, `b`
abbrev since : ℕ → ℕ → Bool → Bool
since n k b = not (leb n k) || b

-- The operand forms that an operation is given by the first `k` passes.
abbrev pub passed : ℕ → Opcode → Operand → Operand → Bool
passed k mov a b = since 1 k (one_memory a b) && since 2 k (immediate_move a b)
passed k binary_add a b = since 1 k (one_memory a b) && since 2 k (not (is_immediate_big a))
passed k binary_subtract a b = since 1 k (one_memory a b) && since 2 k (not (is_immediate_big a))
passed k bitwise_and a b = since 1 k (one_memory a b) && since 2 k (not (is_immediate_big a))
passed k bitwise_or a b = since 1 k (one_memory a b) && since 2 k (not (is_immediate_big a))
passed k bitwise_xor a b = since 1 k (one_memory a b) && since 2 k (not (is_immediate_big a))
passed k compare a b =
    since 1 k (one_memory a b)
    && since 2 k (not (is_immediate_big a))
    && since 3 k (not (is_immediate b))
passed k push a b = since 2 k (not (is_immediate_big a))
passed k idiv a b = since 4 k (not (is_immediate a))
passed k div a b = since 4 k (not (is_immediate a))
passed k binary_multiply a b = since 2 k (not (is_immediate_big a)) && since 5 k (not (in_memory b))
passed k bitwise_signed_shift_left a b = since 6 k (is_shift_count a)
passed k bitwise_signed_shift_right a b = since 6 k (is_shift_count a)
passed k bitwise_unsigned_shift_left a b = since 6 k (is_shift_count a)
passed k bitwise_unsigned_shift_right a b = since 6 k (is_shift_count a)
passed k mov_with_sign_extension a b = since 7 k (into_register a b)
passed k mov_with_zero_extension a b =
    since 7 k (into_register a b || not (word_eq a.word_type word_08bit))
    && since 8 k (word_eq a.word_type word_08bit)
passed k cvt_double_to_int a b = since 9 k (not (in_memory b))
passed k cvt_int_to_double a b = since 10 k (into_register a b)
passed k double_binary_add a b = since 11 k (not (in_memory b))
passed k double_binary_subtract a b = since 11 k (not (in_memory b))
passed k double_binary_multiply a b = since 11 k (not (in_memory b))
passed k double_binary_divide a b = since 11 k (not (in_memory b))
passed k double_bitwise_xor a b = since 11 k (not (in_memory b))
passed k double_compare a b = since 11 k (not (in_memory b))
passed k lea a b = since 12 k (not (in_memory b))
passed k _ a b = true

-- What holds of an operation after the first `k` passes.
abbrev pub stage : ℕ → Opcode → Operand → Operand → Bool
stage k o a b = is_selected o a b && passed k o a b

abbrev pub Stage : ℕ → Op → Type 0
Stage k o = stage k o.opcode o.arg0 o.arg1 ≡ true

-- The tests of an extension without sign behind all passes.
zero_extension_tests :
    (place imm memory general wide allowed byte : Bool)
    → ((place || imm)
        && (memory || general)
        && wide
        && allowed
        && ((not imm && not memory || not byte) && byte))
      ≡ true
    → (place && general && wide && byte) ≡ true
zero_extension_tests place imm memory general wide allowed byte h = ground arith

-- The operations of which the fixups change the operands.
mov-is_encodable : (a b : Operand) → stage 12 mov a b ≡ true → is_encodable mov a b ≡ true
mov-is_encodable a b h = ground arith

binary_add-is_encodable :
    (a b : Operand) → stage 12 binary_add a b ≡ true → is_encodable binary_add a b ≡ true
binary_add-is_encodable a b h = ground arith

compare-is_encodable :
    (a b : Operand) → stage 12 compare a b ≡ true → is_encodable compare a b ≡ true
compare-is_encodable a b h = ground arith

binary_multiply-is_encodable :
    (a b : Operand) → stage 12 binary_multiply a b ≡ true → is_encodable binary_multiply a b ≡ true
binary_multiply-is_encodable a b h = ground arith

bitwise_signed_shift_left-is_encodable :
    (a b : Operand)
    → stage 12 bitwise_signed_shift_left a b ≡ true
    → is_encodable bitwise_signed_shift_left a b ≡ true
bitwise_signed_shift_left-is_encodable a b h = ground arith

mov_with_sign_extension-is_encodable :
    (a b : Operand)
    → stage 12 mov_with_sign_extension a b ≡ true
    → is_encodable mov_with_sign_extension a b ≡ true
mov_with_sign_extension-is_encodable a b h = ground arith

double_binary_add-is_encodable :
    (a b : Operand)
    → stage 12 double_binary_add a b ≡ true
    → is_encodable double_binary_add a b ≡ true
double_binary_add-is_encodable a b h = ground arith

-- Every operation that has gone through the twelve passes can be encoded.
pub stage-is_encodable :
    (o : Opcode) (a b : Operand) → stage 12 o a b ≡ true → is_encodable o a b ≡ true
stage-is_encodable mov a b h = mov-is_encodable a b h
stage-is_encodable binary_add a b h = binary_add-is_encodable a b h
stage-is_encodable binary_subtract a b h = binary_add-is_encodable a b h
stage-is_encodable bitwise_and a b h = binary_add-is_encodable a b h
stage-is_encodable bitwise_or a b h = binary_add-is_encodable a b h
stage-is_encodable bitwise_xor a b h = binary_add-is_encodable a b h
stage-is_encodable compare a b h = compare-is_encodable a b h
stage-is_encodable binary_multiply a b h = binary_multiply-is_encodable a b h
stage-is_encodable bitwise_signed_shift_left a b h = bitwise_signed_shift_left-is_encodable a b h
stage-is_encodable bitwise_signed_shift_right a b h = bitwise_signed_shift_left-is_encodable a b h
stage-is_encodable bitwise_unsigned_shift_left a b h = bitwise_signed_shift_left-is_encodable a b h
stage-is_encodable bitwise_unsigned_shift_right a b h = bitwise_signed_shift_left-is_encodable a b h
stage-is_encodable mov_with_sign_extension a b h = mov_with_sign_extension-is_encodable a b h
stage-is_encodable double_binary_add a b h = double_binary_add-is_encodable a b h
stage-is_encodable double_binary_subtract a b h = double_binary_add-is_encodable a b h
stage-is_encodable double_binary_multiply a b h = double_binary_add-is_encodable a b h
stage-is_encodable double_binary_divide a b h = double_binary_add-is_encodable a b h
stage-is_encodable double_bitwise_xor a b h = double_binary_add-is_encodable a b h
stage-is_encodable double_compare a b h = double_binary_add-is_encodable a b h
stage-is_encodable mov_with_zero_extension a b h =
    zero_extension_tests (is_place a) (is_immediate a) (in_memory b) (is_general b) (widens a b)
      (not (word_eq a.word_type word_32bit && is_register b)) (word_eq a.word_type word_08bit) h
stage-is_encodable _ a b h = ground arith

-- The operations that instruction selection makes are those that the passes start from.
pub is_selected-stage :
    (o : Opcode) (a b : Operand) → is_selected o a b ≡ true → stage 0 o a b ≡ true
is_selected-stage mov a b h = ground arith
is_selected-stage _ a b h = ground arith
