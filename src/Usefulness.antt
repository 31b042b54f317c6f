-- ===== src/Usefulness.antt =====
-- crates/frontend/src/typing/usefulness.rs: exhaustiveness and redundancy of matches.
pub mod Pattern
pub mod Segments
pub mod Column
pub mod Search
pub mod Fuel
pub mod Check
pub mod Datum
pub mod Value
pub mod Sound
pub mod Total
mod Tests
