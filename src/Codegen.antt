-- ===== src/Codegen.antt =====
-- passes/codegen.c: the assembly data, and the two passes that run after instruction selection.
pub mod Asm
pub mod Round
pub mod Pseudo
pub mod Fixup
