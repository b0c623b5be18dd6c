-- ===== src/Codegen/Fixup/Encodable.antt =====
-- The operands that instructions of x86-64 take, and those that instruction
-- selection and the twelve fixers of passes/codegen.c give them. Of the ranges of immediates only that of 32 bits counts here; jumps, calls, labels,
-- conditional sets and the vector instructions, which the fixers do not touch, take any operands.
use enqcc.Base.{Bool, true, false, not, ◌&&◌, ◌||◌, leb, ltb, ℤ, pos, negsuc}
use enqcc.Codegen.Asm.{
  word_08bit, word_32bit, word_64bit, word_lt, word_eq, Register, cx, Operand, immediate, register,
  indexed, Opcode, mov, mov_with_sign_extension, mov_with_zero_extension, lea, cvt_double_to_int,
  cvt_int_to_double, unary_neg, unary_not, unary_decrement, unary_increment, binary_add,
  binary_subtract, binary_multiply, bitwise_and, bitwise_or, bitwise_xor, bitwise_signed_shift_left,
  bitwise_signed_shift_right, bitwise_unsigned_shift_left, bitwise_unsigned_shift_right, compare,
  idiv, div, double_binary_add, double_binary_subtract, double_binary_multiply,
  double_binary_divide, double_bitwise_xor, double_compare, push, is_xmm_register, is_immediate,
  is_immediate_big, is_register, in_memory,
}

-- At most one operand stands in memory.
abbrev pub one_memory : Operand → Operand → Bool
one_memory a b = not (in_memory a && in_memory b)

abbrev pub is_count_register : Register → Bool
is_count_register cx = true
is_count_register _ = false

-- The count of a shift is an immediate or stands in CL.
abbrev pub is_shift_count : Operand → Bool
is_shift_count o = elim o.operand_type [ register r ↦ is_count_register r | _ ↦ is_immediate o ]

-- An immediate fits 32 bits with its sign unless a general register takes it, and none goes to an
-- XMM register.
abbrev pub immediate_move : Operand → Operand → Bool
immediate_move a b =
    not (is_immediate_big a && in_memory b) && not (is_immediate a && is_xmm_register b)

-- Neither an immediate source nor a destination in memory.
abbrev pub into_register : Operand → Operand → Bool
into_register a b = not (is_immediate a) && not (in_memory b)

-- An extension widens its operand.
abbrev pub widens : Operand → Operand → Bool
widens a b = word_lt a.word_type word_64bit && word_lt a.word_type b.word_type

-- The operand forms at which no fixer fires, shifts left aside.
abbrev pub is_settled : Opcode → Operand → Operand → Bool
is_settled mov a b = one_memory a b && immediate_move a b
is_settled binary_add a b = one_memory a b && not (is_immediate_big a)
is_settled binary_subtract a b = one_memory a b && not (is_immediate_big a)
is_settled bitwise_and a b = one_memory a b && not (is_immediate_big a)
is_settled bitwise_or a b = one_memory a b && not (is_immediate_big a)
is_settled bitwise_xor a b = one_memory a b && not (is_immediate_big a)
is_settled compare a b = one_memory a b && not (is_immediate_big a) && not (is_immediate b)
is_settled push a b = not (is_immediate_big a)
is_settled idiv a b = not (is_immediate a)
is_settled div a b = not (is_immediate a)
is_settled binary_multiply a b = not (is_immediate_big a) && not (in_memory b)
is_settled bitwise_signed_shift_left a b = is_shift_count a
is_settled bitwise_signed_shift_right a b = is_shift_count a
is_settled bitwise_unsigned_shift_left a b = is_shift_count a
is_settled bitwise_unsigned_shift_right a b = is_shift_count a
is_settled mov_with_sign_extension a b = into_register a b
is_settled mov_with_zero_extension a b = into_register a b && word_eq a.word_type word_08bit
is_settled cvt_double_to_int a b = not (in_memory b)
is_settled cvt_int_to_double a b = into_register a b
is_settled double_binary_add a b = not (in_memory b)
is_settled double_binary_subtract a b = not (in_memory b)
is_settled double_binary_multiply a b = not (in_memory b)
is_settled double_binary_divide a b = not (in_memory b)
is_settled double_bitwise_xor a b = not (in_memory b)
is_settled double_compare a b = not (in_memory b)
is_settled lea a b = not (in_memory b)
is_settled _ a b = true

-- A general register, or a place in memory that an instruction reads or writes.
abbrev pub is_place : Operand → Bool
is_place o = in_memory o || is_register o && not (is_xmm_register o)

abbrev pub is_value : Operand → Bool
is_value o = is_place o || is_immediate o

abbrev pub is_general : Operand → Bool
is_general o = is_register o && not (is_xmm_register o)

abbrev pub in_memory_or_xmm : Operand → Bool
in_memory_or_xmm o = in_memory o || is_xmm_register o

abbrev pub is_address : Operand → Bool
is_address o = elim o.operand_type [ indexed base index scale ↦ true | _ ↦ in_memory o ]

abbrev pub fits_int : ℤ → Bool
fits_int (pos n) = leb n 2147483647
fits_int (negsuc n) = leb n 2147483647

-- An immediate is a signed number of 32 bits.
abbrev pub fits_32bit : Operand → Bool
fits_32bit o = elim o.operand_type [ immediate n ↦ fits_int n | _ ↦ true ]

abbrev pub falls_short_of_int_min : ℤ → Bool
falls_short_of_int_min (pos n) = false
falls_short_of_int_min (negsuc n) = ltb 2147483647 n

-- an immediate below INT_MIN
abbrev pub is_immediate_below : Operand → Bool
is_immediate_below o = elim o.operand_type [ immediate n ↦ falls_short_of_int_min n | _ ↦ false ]

-- The operands that the instructions of x86-64 take: of which kind each one is, that at most one
-- stands in memory, and that an immediate is a signed number of 32 bits, except in a move to a
-- general register.
abbrev pub is_encodable : Opcode → Operand → Operand → Bool
is_encodable mov a b =
    one_memory a b
    && (is_value a || is_xmm_register a)
    && (is_place b || is_xmm_register b)
    && (not (is_immediate a) || is_general b || in_memory b && fits_32bit a)
is_encodable binary_add a b = one_memory a b && is_value a && fits_32bit a && is_place b
is_encodable binary_subtract a b = one_memory a b && is_value a && fits_32bit a && is_place b
is_encodable bitwise_and a b = one_memory a b && is_value a && fits_32bit a && is_place b
is_encodable bitwise_or a b = one_memory a b && is_value a && fits_32bit a && is_place b
is_encodable bitwise_xor a b = one_memory a b && is_value a && fits_32bit a && is_place b
is_encodable compare a b = one_memory a b && is_value a && fits_32bit a && is_place b
is_encodable push a b = is_value a && fits_32bit a
is_encodable idiv a b = is_place a
is_encodable div a b = is_place a
is_encodable binary_multiply a b = is_value a && fits_32bit a && is_general b
is_encodable bitwise_signed_shift_left a b = is_shift_count a && is_place b
is_encodable bitwise_signed_shift_right a b = is_shift_count a && is_place b
is_encodable bitwise_unsigned_shift_left a b = is_shift_count a && is_place b
is_encodable bitwise_unsigned_shift_right a b = is_shift_count a && is_place b
is_encodable mov_with_sign_extension a b = is_place a && is_general b && widens a b
is_encodable mov_with_zero_extension a b =
    is_place a && is_general b && widens a b && word_eq a.word_type word_08bit
is_encodable cvt_double_to_int a b = in_memory_or_xmm a && is_general b
is_encodable cvt_int_to_double a b = is_place a && is_xmm_register b
is_encodable double_binary_add a b = in_memory_or_xmm a && is_xmm_register b
is_encodable double_binary_subtract a b = in_memory_or_xmm a && is_xmm_register b
is_encodable double_binary_multiply a b = in_memory_or_xmm a && is_xmm_register b
is_encodable double_binary_divide a b = in_memory_or_xmm a && is_xmm_register b
is_encodable double_bitwise_xor a b = in_memory_or_xmm a && is_xmm_register b
is_encodable double_compare a b = in_memory_or_xmm a && is_xmm_register b
is_encodable lea a b = is_address a && is_general b
is_encodable unary_neg a b = is_place a
is_encodable unary_not a b = is_place a
is_encodable unary_decrement a b = is_place a
is_encodable unary_increment a b = is_place a
is_encodable _ a b = true

-- What instruction selection makes. An immediate may stand where it cannot be encoded, and so may a
-- second place in memory, or an immediate as the second operand of a comparison. An immediate below
-- INT_MIN is only moved to a register or divided, shifted, extended or converted; and no extension
-- from 32 bits without sign goes to a register (codegen_statement_fp uses a plain move there).
abbrev pub is_selected : Opcode → Operand → Operand → Bool
is_selected mov a b =
    (is_value a || is_xmm_register a)
    && (is_place b || is_xmm_register b)
    && not (is_immediate_below a && in_memory b)
is_selected binary_add a b = is_value a && is_place b && not (is_immediate_below a)
is_selected binary_subtract a b = is_value a && is_place b && not (is_immediate_below a)
is_selected bitwise_and a b = is_value a && is_place b && not (is_immediate_below a)
is_selected bitwise_or a b = is_value a && is_place b && not (is_immediate_below a)
is_selected bitwise_xor a b = is_value a && is_place b && not (is_immediate_below a)
is_selected compare a b = is_value a && is_value b && not (is_immediate_below a)
is_selected push a b = is_value a && not (is_immediate_below a)
is_selected idiv a b = is_value a
is_selected div a b = is_value a
is_selected binary_multiply a b = is_value a && is_place b && not (is_immediate_below a)
is_selected bitwise_signed_shift_left a b = is_value a && is_place b
is_selected bitwise_signed_shift_right a b = is_value a && is_place b
is_selected bitwise_unsigned_shift_left a b = is_value a && is_place b
is_selected bitwise_unsigned_shift_right a b = is_value a && is_place b
is_selected mov_with_sign_extension a b = is_value a && is_place b && widens a b
is_selected mov_with_zero_extension a b =
    is_value a && is_place b && widens a b && not (word_eq a.word_type word_32bit && is_register b)
is_selected cvt_double_to_int a b = in_memory_or_xmm a && is_place b
is_selected cvt_int_to_double a b = is_value a && in_memory_or_xmm b
is_selected double_binary_add a b = in_memory_or_xmm a && in_memory_or_xmm b
is_selected double_binary_subtract a b = in_memory_or_xmm a && in_memory_or_xmm b
is_selected double_binary_multiply a b = in_memory_or_xmm a && in_memory_or_xmm b
is_selected double_binary_divide a b = in_memory_or_xmm a && in_memory_or_xmm b
is_selected double_bitwise_xor a b = in_memory_or_xmm a && in_memory_or_xmm b
is_selected double_compare a b = in_memory_or_xmm a && in_memory_or_xmm b
is_selected lea a b = is_address a && is_place b
is_selected unary_neg a b = is_place a
is_selected unary_not a b = is_place a
is_selected unary_decrement a b = is_place a
is_selected unary_increment a b = is_place a
is_selected _ a b = true
