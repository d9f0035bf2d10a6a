-- ===== src/Bind.antt =====
-- Rewriting of queries for their arguments: internal/bind.
pub mod Lexer
pub mod Args
pub mod Positional
pub mod Numeric
pub mod Bindings
