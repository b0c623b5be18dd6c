-- ===== src/Parse.antt =====
-- passes/parse/: from tokens to the syntax tree.
pub mod Specifiers
pub mod Constant
pub mod Tree
pub mod Operators
pub mod Expression
