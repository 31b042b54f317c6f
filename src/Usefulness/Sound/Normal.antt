-- ===== src/Usefulness/Sound/Normal.antt =====
-- A normalized column matches what the column matched.
pub mod Fields
pub mod Steps
pub mod Scanned
pub mod Fixed
pub mod Whole
