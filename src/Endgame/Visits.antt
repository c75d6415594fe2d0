-- ===== src/Endgame/Visits.antt =====
-- What a round of a flood in src/endgame_ordering.hpp keeps, and what it takes.
use vibe_othello_engine.Base.{
  ℕ, zero, suc, ◌+◌, ◌≤◌, ◌<◌, ltb, ◌≡◌, refl, arith, true, false, not, ◌||◌, ◌==◌, Bool-cases, inl,
  inr,
}
use vibe_othello_engine.Bits.Digit.{bit, bit-and}
use vibe_othello_engine.Bits.U64.{IsWord, complement, single, bit_outside, bit_and-IsWord}
use vibe_othello_engine.Bits.Scan.{fold_bits}
use vibe_othello_engine.Rules.Shift.{orthogonal_neighbors}
use vibe_othello_engine.Endgame.Regions.{Flood, visit}
use vibe_othello_engine.Endgame.Flooded.{bit-taken, next_squares}

-- The steps of the loop over neighbors keep what every visit of one of them keeps.
pub fold_keeps :
    (P : Flood → Type 0) (n i neighbors : ℕ) (flood : Flood)
    → n + i ≡ 64
    → ((next : ℕ) (so_far : Flood)
        → next < 64
        → bit next neighbors ≡ true
        → P so_far
        → P (visit next so_far))
    → P flood
    → P (fold_bits n i visit neighbors flood)
unfolding fold_bits
fold_keeps P zero i neighbors flood e keeps p = p
fold_keeps P (suc n) i neighbors flood e keeps p = elim (Bool-cases (bit i neighbors)) [
  | inr off ↦ rw off (fold_keeps P n (i + 1) neighbors flood (omega arith) keeps p)
  | inl on ↦ rw on (
      fold_keeps P n (i + 1) neighbors (visit i flood) (omega arith) keeps
        (keeps i flood (omega arith) on p))
]

-- The square is not among those that are still to come.
abbrev IsTaken : ℕ → Flood → Type 0
IsTaken j flood = IsWord flood.unvisited × (bit j flood.unvisited ≡ false)

visit-IsTaken :
    (j next : ℕ) (flood : Flood)
    → next < 64
    → IsWord flood.unvisited
    → ((j == next) || not (bit j flood.unvisited)) ≡ true
    → IsTaken j (visit next flood)
unfolding visit
visit-IsTaken j next flood h w out = (
  bit_and-IsWord flood.unvisited (complement (single next)) w,
  ground (arith, bit-taken j next flood.unvisited w h, out),
)

neighbors-IsTaken :
    (j n i neighbors : ℕ) (flood : Flood)
    → n + i ≡ 64
    → IsWord flood.unvisited
    → i ≤ j
    → j < 64
    → bit j neighbors ≡ true
    → IsTaken j (fold_bits n i visit neighbors flood)
unfolding fold_bits
neighbors-IsTaken j zero i neighbors flood e w h k on = absurd (omega arith)
neighbors-IsTaken j (suc n) i neighbors flood e w h k on = elim (Bool-cases (j == i)) [
  | inl now ↦
      let set : bit i neighbors ≡ true = ground (arith, now, on) in
      rw (fold_bits, set)
        (fold_keeps (IsTaken j) n (i + 1) neighbors (visit i flood) (omega arith)
          (λ next so_far below there taken.
            visit-IsTaken j next so_far below taken.0 (ground (arith, taken.1)))
          (visit-IsTaken j i flood (omega arith) w (ground (arith, now))))
  | inr later ↦ elim (Bool-cases (bit i neighbors)) [
    | inr off ↦
        rw (fold_bits, off)
          (neighbors-IsTaken j n (i + 1) neighbors flood (omega arith) w (ground (arith, later)) k
            on)
    | inl set ↦
        rw (fold_bits, set)
          (neighbors-IsTaken j n (i + 1) neighbors (visit i flood) (omega arith)
            (unfold visit in bit_and-IsWord flood.unvisited (complement (single i)) w)
            (ground (arith, later)) k on)
  ]
]

-- After a round no neighbor of the square is still to come.
pub round-IsTaken :
    (j current : ℕ) (flood : Flood)
    → IsWord flood.unvisited
    → bit j (orthogonal_neighbors current) ≡ true
    → bit j (fold_bits 64 0 visit (next_squares current flood.unvisited) flood).unvisited ≡ true
    → IsWord (fold_bits 64 0 visit (next_squares current flood.unvisited) flood).unvisited
    → ⊥
round-IsTaken j current flood w touch rest word =
    let neighbors = next_squares current flood.unvisited in
    elim (Bool-cases (bit j neighbors)) [
      | inl on ↦ elim (Bool-cases (ltb j 64)) [
        | inl low ↦ ground (
          arith,
          rest,
          (neighbors-IsTaken j 64 0 neighbors flood refl w (omega arith) (ground (arith, low))
              on).1,
        )
        | inr high ↦ ground (arith, rest, bit_outside j _ word (ground (arith, high)))
      ]
      | inr off ↦
          let out : bit j flood.unvisited ≡ false =
            ground (arith, off, touch, bit-and j (orthogonal_neighbors current) flood.unvisited) in
          ground (
            arith,
            rest,
            (fold_keeps (IsTaken j) 64 0 neighbors flood refl
                (λ next so_far below there taken.
                  visit-IsTaken j next so_far below taken.0 (ground (arith, taken.1)))
                (w, out)).1,
          )
    ]
