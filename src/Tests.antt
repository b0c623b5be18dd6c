-- ===== src/Tests.antt =====
-- Runs of the definitions on small programs, and the theorems at them.
mod Fixup
mod Pseudo
mod Gotos
mod Numeric
mod Specifiers
mod Symbols
mod Types
mod Lexer
mod Expressions
