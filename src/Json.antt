-- ===== src/Json.antt =====
-- crates/utilities/src/json.rs: JSON values, their members and the writer.
pub mod Value
pub mod Writer
pub mod Scan
pub mod Reader
pub mod Members
pub mod Printable
pub mod Quoted
pub mod ReadBack
pub mod RoundTrip
pub mod Undo
pub mod Leaves
pub mod Fuel
mod Tests
