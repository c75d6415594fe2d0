-- ===== src/Bits.antt =====
-- Words as native numbers: the digit `bit i x`, and the laws of `&`, `|`, `^`, `~` and the
-- shifts in terms of it. A `std::uint64_t` is a number below 2 ^ 64.
pub mod Digit
pub mod Word
pub mod U64
pub mod Scan
pub mod Count
