-- ===== src/Midgame.antt =====
-- src/search*.cpp and include/othello/search.hpp: the search of the middle game, its table, its
-- sessions and its windows.
pub mod Stats
pub mod Options
pub mod Table
pub mod Access
pub mod Strength
pub mod Replacement
pub mod Selection
pub mod Sound
pub mod Aspiration
pub mod Window
pub mod Order
pub mod History
pub mod Session
pub mod Identity
pub mod Ages
pub mod RootPolicy
pub mod RootDecision
pub mod Moves
pub mod Buckets
pub mod Bucketed
pub mod Ordered
