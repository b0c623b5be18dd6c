-- ===== src/Tests/Pseudo.antt =====
-- The pseudo-registers of passes/codegen.c in small functions.
use enqcc.Base.{◌≡◌, refl, some, none, List, [], ◌∷◌, pos, Returns, All, arith}
use enqcc.Codegen.Asm.{
  word_32bit, word_64bit, immediate, pseudo_register, pseudo_memory, mov, Op, op,
  asm_linkage_external, AsmFunction,
}
use enqcc.Codegen.Pseudo.Slots.{preflight, replace_pseudo_one}
use enqcc.Codegen.Pseudo.Layout.{slot_bytes_from, operand_bytes, need, operand_need}
use enqcc.Codegen.Pseudo.Frame.{IsFrame, AccessesOp, slot_bytes, replace_pseudo_one-IsFrame}

-- An `int` that is written and read, and the second `long` of an array of three.
abbrev array_store : List Op
array_store =
    op mov (record { operand_type = immediate (pos 2); word_type = word_32bit })
      (record { operand_type = pseudo_register 3; word_type = word_32bit })
    ∷ op mov (record { operand_type = pseudo_register 3; word_type = word_32bit })
        (record { operand_type = pseudo_memory 5 8 24; word_type = word_64bit })
    ∷ []

abbrev function_of : List Op → AsmFunction
function_of ops = record {
  identifier = b'f' ∷ [];
  linkage = asm_linkage_external;
  stack_usage = 0;
  ops = ops;
}

array_store_range : preflight none array_store ≡ some (3, 5)
unfolding preflight
array_store_range = refl

array_store_accesses : All (AccessesOp 3 (slot_bytes 3 array_store)) array_store
unfolding slot_bytes_from operand_bytes
array_store_accesses = ((tt, omega arith), ((omega arith, (omega arith, omega arith)), tt))

replace_pseudo_one-IsFrame_example :
    Returns (IsFrame 3 array_store) (replace_pseudo_one (function_of array_store))
replace_pseudo_one-IsFrame_example =
    replace_pseudo_one-IsFrame (function_of array_store) 3 5 refl array_store_range (omega arith)
      array_store_accesses (unfold need operand_need in omega arith)
