-- ===== src/Lang.antt =====
-- lang/types.c and lang/symbol.c: C types, symbols and constant initializers.
pub mod Types
pub mod Symbol
pub mod Constant
