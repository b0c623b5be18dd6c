-- ===== src/Codegen/Pseudo.antt =====
-- passes/codegen.c: codegen_replace_pseudo, which gives each pseudo-register and each temporary
-- array of a function a slot of its stack frame.
pub mod Slots
pub mod Layout
pub mod Correct
pub mod Frame
