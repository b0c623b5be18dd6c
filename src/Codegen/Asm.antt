-- ===== src/Codegen/Asm.antt =====
-- passes/codegen.h: registers, operands and instructions; passes/codegen.c: the operand setters.
use enqcc.Base.{ℕ, Bool, true, false, List, ltb, ◌==◌, ℤ, pos, negsuc}

pub data Register : Type 0 where
  di si dx cx r8 r9 : Register
  ax r10 r11 rsp rbp : Register
  xmm0 xmm1 xmm2 xmm3 xmm4 xmm5 xmm6 xmm7 xmm14 xmm15 : Register

pub data WordType : Type 0 where
  word_08bit word_32bit word_64bit : WordType

-- the order of the enumeration, which the source compares word types by
abbrev pub word_rank : WordType → ℕ
word_rank word_08bit = 0
word_rank word_32bit = 1
word_rank word_64bit = 2

abbrev pub word_lt : WordType → WordType → Bool
word_lt a b = ltb (word_rank a) (word_rank b)

abbrev pub word_eq : WordType → WordType → Bool
word_eq a b = word_rank a == word_rank b

-- `operand_type` with the union member that belongs to it. A name stands for a `string_view`, and a
-- double for its bit pattern.
pub data OperandType : Type 0 where
  operand_none : OperandType
  immediate : ℤ → OperandType
  register : Register → OperandType
  pseudo_register : ℕ → OperandType
  memory : Register → ℤ → OperandType
  pseudo_memory : (num offset total_bytes : ℕ) → OperandType
  indexed : (base index : Register) → ℕ → OperandType
  jump_target_label : ℕ → OperandType
  call_target_function : List ℕ → OperandType
  variable_data : List ℕ → OperandType
  constant_data_double : ℕ → OperandType
  constant_data_vec_longs : List ℕ → OperandType
  constant_data_vec_quads : List ℕ → OperandType
  constant_string : ℕ → OperandType

pub record Operand : Type 0 where
  pub operand_type : OperandType
  pub word_type : WordType

pub data Opcode : Type 0 where
  mov mov_with_sign_extension mov_with_zero_extension lea : Opcode
  cvt_double_to_int cvt_int_to_double : Opcode
  unary_neg unary_not unary_decrement unary_increment : Opcode
  binary_add binary_subtract binary_multiply : Opcode
  bitwise_and bitwise_or bitwise_xor : Opcode
  bitwise_signed_shift_left bitwise_signed_shift_right : Opcode
  bitwise_unsigned_shift_left bitwise_unsigned_shift_right : Opcode
  compare idiv div cdq cqo : Opcode
  double_binary_add double_binary_subtract double_binary_multiply double_binary_divide : Opcode
  double_bitwise_xor double_compare : Opcode
  vec_double_binary_subtract : Opcode
  vec_double_unpack_interleave_hi vec_double_unpack_interleave_lo : Opcode
  jmp jmp_if_eq jmp_if_neq jmp_if_gt jmp_if_gte jmp_if_lt jmp_if_lte : Opcode
  jmp_if_a jmp_if_ae jmp_if_b jmp_if_be : Opcode
  set_if_eq set_if_neq set_if_gt set_if_gte set_if_lt set_if_lte : Opcode
  set_if_a set_if_ae set_if_b set_if_be set_if_p set_if_np : Opcode
  label push call ret : Opcode

-- `args[0]` and `args[1]`; an instruction list is a list.
pub record Op : Type 0 where
  pub opcode : Opcode
  pub arg0 : Operand
  pub arg1 : Operand

abbrev pub op : Opcode → Operand → Operand → Op
op o a b = record { opcode = o; arg0 = a; arg1 = b }

-- is_xmm_register, on the register
abbrev pub is_xmm : Register → Bool
is_xmm xmm0 = true
is_xmm xmm1 = true
is_xmm xmm2 = true
is_xmm xmm3 = true
is_xmm xmm4 = true
is_xmm xmm5 = true
is_xmm xmm6 = true
is_xmm xmm7 = true
is_xmm xmm14 = true
is_xmm xmm15 = true
is_xmm _ = false

abbrev pub is_xmm_register : Operand → Bool
is_xmm_register o = elim o.operand_type [ register r ↦ is_xmm r | _ ↦ false ]

-- what a zeroed operand holds
abbrev pub zero_operand : Operand
zero_operand = record { operand_type = operand_none; word_type = word_08bit }

-- codegen_set_operand_ecx, codegen_set_operand_r10, codegen_set_operand_r11: a register as wide as
-- the basis
abbrev pub set_operand : Register → Operand → Operand
set_operand r basis = record { operand_type = register r; word_type = basis.word_type }

abbrev pub set_operand_ecx : Operand → Operand
set_operand_ecx = set_operand cx

abbrev pub set_operand_r10 : Operand → Operand
set_operand_r10 = set_operand r10

abbrev pub set_operand_r11 : Operand → Operand
set_operand_r11 = set_operand r11

abbrev pub operand_64bit : Register → Operand
operand_64bit r = record { operand_type = register r; word_type = word_64bit }

-- num > INT_MAX
abbrev pub exceeds_int_max : ℤ → Bool
exceeds_int_max (pos n) = ltb 2147483647 n
exceeds_int_max (negsuc n) = false

abbrev pub is_immediate : Operand → Bool
is_immediate o = elim o.operand_type [ immediate n ↦ true | _ ↦ false ]

-- an immediate operand with u.num > INT_MAX
abbrev pub is_immediate_big : Operand → Bool
is_immediate_big o = elim o.operand_type [ immediate n ↦ exceeds_int_max n | _ ↦ false ]

abbrev pub is_register : Operand → Bool
is_register o = elim o.operand_type [ register r ↦ true | _ ↦ false ]

abbrev pub in_memory : Operand → Bool
in_memory o = elim o.operand_type [
  | memory r n ↦ true
  | variable_data v ↦ true
  | constant_data_double d ↦ true
  | constant_data_vec_longs l ↦ true
  | constant_data_vec_quads q ↦ true
  | constant_string n ↦ true
  | _ ↦ false
]

pub data AsmLinkage : Type 0 where
  asm_linkage_internal asm_linkage_external : AsmLinkage

pub record AsmFunction : Type 0 where
  pub identifier : List ℕ
  pub linkage : AsmLinkage
  pub stack_usage : ℕ
  pub ops : List Op
