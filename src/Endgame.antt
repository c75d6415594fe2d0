-- ===== src/Endgame.antt =====
-- src/endgame_tt.hpp, src/endgame_last_n.hpp and src/endgame_ordering.hpp: the table, the last
-- squares and the order of moves of the endgame.
pub mod Table
pub mod Access
pub mod Replacement
pub mod Sound
pub mod RoundTrip
pub mod Last
pub mod Exact
pub mod Minimax
pub mod Regions
pub mod Order
pub mod Ordered
pub mod Flooded
pub mod Visits
pub mod Beside
pub mod Joined
