-- ===== src/Endgame/Regions.antt =====
-- src/endgame_ordering.hpp: the regions of empty squares that touch by their sides.
use vibe_othello_engine.Base.{
  ℕ, zero, suc, bit_and, bit_or, ◌==◌, List, [], ◌∷◌, replicate, set, if◌then◌else◌,
}
use vibe_othello_engine.Base.Int.{ℤ, pos}
use vibe_othello_engine.Bits.U64.{complement, single}
use vibe_othello_engine.Bits.Scan.{countr_zero, popcount, each_bit}
use vibe_othello_engine.Rules.Shift.{orthogonal_neighbors}

-- The region so far, the empty squares that no region has, and the squares to look at.
pub record Flood : Type 0 where
  pub region : ℕ
  pub unvisited : ℕ
  pub stack : List ℕ

unfoldable pub visit : ℕ → Flood → Flood
visit next flood = record {
  region = bit_or flood.region (single next);
  unvisited = bit_and flood.unvisited (complement (single next));
  stack = next ∷ flood.stack;
}

-- `while (stack_size > 0)`. Every square is pushed at most once, so 65 rounds empty the stack.
unfoldable pub flood_loop : ℕ → Flood → Flood
flood_loop zero flood = flood
flood_loop (suc fuel) flood = elim (flood.stack) [
  | [] ↦ flood
  | current ∷ stack ↦
      let popped = record flood { stack = stack } in
      let neighbors = bit_and (orthogonal_neighbors current) flood.unvisited in
      flood_loop fuel (each_bit 64 visit neighbors popped)
]

unfoldable pub flood_from : ℕ → ℕ → Flood
flood_from seed unvisited = flood_loop 65 (record {
  region = single seed;
  unvisited = bit_and unvisited (complement (single seed));
  stack = seed ∷ [];
})

-- The source looks at `empty & ~region`, which is what `unvisited` holds in the flood from `index`.
unfoldable pub empty_region_size_containing : ℕ → ℕ → ℤ
empty_region_size_containing empty index =
    if bit_and empty (single index) == 0
    then pos 0
    else pos (popcount (flood_from index empty).region)

unfoldable pub set_size : ℤ → ℕ → List ℤ → List ℤ
set_size region_size index by_square = set by_square index region_size

-- `while (unvisited != 0)`: every round takes at least the lowest square away, so 64 suffice.
unfoldable pub regions_loop : ℕ → ℕ → List ℤ → List ℤ
regions_loop zero unvisited by_square = by_square
regions_loop (suc fuel) unvisited by_square =
    let flood = flood_from (countr_zero unvisited) unvisited in
    let rest =
      regions_loop fuel flood.unvisited
        (each_bit 64 (set_size (pos (popcount flood.region))) flood.region by_square) in
    if unvisited == 0 then by_square else rest

-- The size of the region of each square; 0 on a square that is taken.
unfoldable pub empty_region_sizes : ℕ → List ℤ
empty_region_sizes empty = regions_loop 64 empty (replicate 64 (pos 0))
