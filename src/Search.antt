-- ===== src/Search.antt =====
-- src/search_common.hpp and src/tt_common.hpp: what the searches share.
pub mod Position
pub mod Bound
pub mod Cutoff
pub mod Agree
pub mod Line
pub mod Lines
pub mod Sort
pub mod Sorted
pub mod Collect
