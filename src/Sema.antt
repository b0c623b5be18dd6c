-- ===== src/Sema.antt =====
-- passes/sema.c: semantic analysis.
pub mod Gotos
pub mod Numeric
