-- ===== src/Sizes.antt =====
-- crates/frontend/src/typing/unify/sizes.rs: the sizes of tensor axes and when they are equal.
pub mod Poly
pub mod Value
pub mod Unify
pub mod Order
pub mod Canonical
pub mod Normal
pub mod Unique
mod Tests
