-- ===== src/Endgame/Beside.antt =====
-- Squares that touch by their sides, by file and rank, and the neighbors of src/bitboard_ops.hpp.

use vibe_othello_engine.Base.{
  ℕ, ◌<◌, ◌≡◌, sym, ◌∙◌, arith, Bool, true, ◌||◌, bit_or, some, Bool-cases, inl, inr,
}
use vibe_othello_engine.Bits.Digit.{bit, bit-or}
use vibe_othello_engine.Bits.U64.{single, bit-single, single-IsWord}
use vibe_othello_engine.Rules.Compass.{
  Direction, step, step_back, step_cases, reverse, reverse-reverse, shift_of, bit-shift_of,
}
use vibe_othello_engine.Rules.Shift.{
  orthogonal_neighbors, shift_east, shift_west, shift_north, shift_south,
}

-- The directions along a rank or a file.
pub data IsSide : Direction → Type 0 where
  east : IsSide Direction.east
  west : IsSide Direction.west
  north : IsSide Direction.north
  south : IsSide Direction.south

-- One step along a rank or a file leads from i to j.
abbrev pub IsBeside : ℕ → ℕ → Type 0
IsBeside i j = (d : Direction) × IsSide d × (step d i ≡ some j)

shifted_there :
    (d : Direction) (i j : ℕ)
    → i < 64
    → j < 64
    → bit j (shift_of d (single i)) ≡ true
    → step d i ≡ some j
shifted_there d i j h k set = elim (step_cases (reverse d) j k) [
  | inl off ↦
      absurd (ground (arith, sym (bit-shift_of (single i) j (single-IsWord i) k d) ∙ set, off))
  | inr (t, there, lt, back) ↦
      let at : (bit t (single i)) ≡ true =
        rw there at (sym (bit-shift_of (single i) j (single-IsWord i) k d) ∙ set) in
      let same : t ≡ i = ground (arith, bit-single t i h, at) in
      rw (← same, ← reverse-reverse d) back
]

there_shifted :
    (d : Direction) (i j : ℕ) → i < 64 → step d i ≡ some j → bit j (shift_of d (single i)) ≡ true
there_shifted d i j h e =
    let (back, k) = step_back d i j h e in
    bit-shift_of (single i) j (single-IsWord i) k d ∙ rw back (bit-single i i h ∙ ground arith)

abbrev sides : (i j : ℕ) → Bool
sides i j =
    ((bit j (shift_of Direction.east (single i)) || bit j (shift_of Direction.west (single i)))
      || bit j (shift_of Direction.north (single i)))
    || bit j (shift_of Direction.south (single i))

bit-orthogonal_neighbors : (i j : ℕ) → bit j (orthogonal_neighbors i) ≡ sides i j
unfolding orthogonal_neighbors shift_of
bit-orthogonal_neighbors i j = ground (
  arith,
  bit-or j
      (bit_or (bit_or (shift_east (single i)) (shift_west (single i))) (shift_north (single i)))
      (shift_south (single i)),
  bit-or j (bit_or (shift_east (single i)) (shift_west (single i))) (shift_north (single i)),
  bit-or j (shift_east (single i)) (shift_west (single i)),
)

-- Every square of the word is a step along a rank or a file away.
pub neighbor-IsBeside :
    (i j : ℕ) → i < 64 → j < 64 → bit j (orthogonal_neighbors i) ≡ true → IsBeside i j
neighbor-IsBeside i j h k set =
    let any = sym (bit-orthogonal_neighbors i j) ∙ set in
    elim (Bool-cases (bit j (shift_of Direction.east (single i)))) [
      | inl e ↦ (Direction.east, IsSide.east, shifted_there Direction.east i j h k e)
      | inr e ↦ elim (Bool-cases (bit j (shift_of Direction.west (single i)))) [
        | inl w ↦ (Direction.west, IsSide.west, shifted_there Direction.west i j h k w)
        | inr w ↦ elim (Bool-cases (bit j (shift_of Direction.north (single i)))) [
          | inl n ↦ (Direction.north, IsSide.north, shifted_there Direction.north i j h k n)
          | inr n ↦ (
            Direction.south,
            IsSide.south,
            shifted_there Direction.south i j h k (ground (arith, any, e, w, n)),
          )
        ]
      ]
    ]

beside_neighbor :
    (d : Direction) (i j : ℕ) → IsSide d → i < 64 → step d i ≡ some j → sides i j ≡ true
beside_neighbor _ i j IsSide.east h e = ground (arith, there_shifted Direction.east i j h e)
beside_neighbor _ i j IsSide.west h e = ground (arith, there_shifted Direction.west i j h e)
beside_neighbor _ i j IsSide.north h e = ground (arith, there_shifted Direction.north i j h e)
beside_neighbor _ i j IsSide.south h e = ground (arith, there_shifted Direction.south i j h e)

-- Every such step leads to a square of the word.
pub IsBeside-neighbor :
    (i j : ℕ) → i < 64 → IsBeside i j → (bit j (orthogonal_neighbors i) ≡ true) × (j < 64)
IsBeside-neighbor i j h (d, side, e) =
    (bit-orthogonal_neighbors i j ∙ beside_neighbor d i j side h e, (step_back d i j h e).1)
