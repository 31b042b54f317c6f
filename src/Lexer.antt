-- ===== src/Lexer.antt =====
-- crates/frontend/src/lexer.rs: source text to tokens.
pub mod Cursor
pub mod Number
pub mod Scan
pub mod Stream
pub mod Consumes
pub mod Forward
pub mod Quoted
pub mod One
pub mod Tiles
pub mod Left
pub mod Plain
pub mod Buffer
pub mod Agree
pub mod Refines
pub mod Prefix
pub mod Decode
pub mod Escapes
pub mod Offsets
pub mod Literals
pub mod Words
pub mod Operators
mod Tests
