-- ===== src/Usefulness/Sound.antt =====
-- `useful` finds no witness only where the rows cover every value of the vector.
pub mod Ctors
pub mod Ints
pub mod Normal
pub mod Matrix
pub mod Rest
pub mod Arity
pub mod Loops
pub mod Useful
pub mod Dead
pub mod Check
