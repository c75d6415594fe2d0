-- ===== src/Rules.antt =====
-- src/rules.cpp, src/bitboard_rules.hpp and the shifts of src/bitboard_ops.hpp.
pub mod Shift
pub mod Moves
pub mod Compass
pub mod Rays
pub mod Generate
pub mod Flips
pub mod Legality
pub mod Consistent
pub mod Play
pub mod Moved
pub mod Turns
pub mod Game
