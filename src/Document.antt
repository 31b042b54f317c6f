-- ===== src/Document.antt =====
-- crates/thrax/src/lsp/text.rs: an open document, byte offsets in it and positions by line.
pub mod Text
pub mod Lines
pub mod Bounds
mod Tests
