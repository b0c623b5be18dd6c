-- ===== src/Codegen/Fixup.antt =====
-- passes/codegen.c: codegen_fixup_instructions, which rewrites instructions that x86-64 cannot
-- encode into short sequences ("trampolines") over the scratch registers R10, R11, CX and XMM15.
pub mod Fixers
pub mod Splice
pub mod Encodable
pub mod Stages
pub mod Steps
pub mod Correct
pub mod Unchanged
