-- ===== src/Usefulness/Total.antt =====
-- `useful` returns: no fuel runs out and no index is out of bounds.
pub mod WellFormed
pub mod Fields
pub mod Fixed
pub mod Normalized
pub mod Matrix
pub mod Outcomes
pub mod Useful
