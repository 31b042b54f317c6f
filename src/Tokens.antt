-- ===== src/Tokens.antt =====
-- The tables that the lexer and the parser share.
pub mod Kind
pub mod Power
pub mod Lookup
pub mod Laws
pub mod Binding
pub mod Words
mod Tests
