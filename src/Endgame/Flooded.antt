-- ===== src/Endgame/Flooded.antt =====
-- The floods and the loop over the regions end within their rounds.
use vibe_othello_engine.Base.{
  ℕ, zero, suc, ◌+◌, ◌≤◌, ◌<◌, ltb, bit_and, ◌≡◌, refl, ap, ◌∙◌, arith, true, not, ◌&&◌, ◌==◌, List,
  [], ◌∷◌, length, Bool-cases, inl, inr,
}
use vibe_othello_engine.Bits.Digit.{bit, bit-and}
use vibe_othello_engine.Bits.U64.{
  IsWord, complement, single, bit-single, bit-complement_word, bit_outside, single-IsWord,
  bit_and-IsWord, bit_and-IsWord_right,
}
use vibe_othello_engine.Bits.Scan.{popcount, fold_bits, each_bit-fold}
use vibe_othello_engine.Bits.Count.{popcount_union, popcount-single}
use vibe_othello_engine.Rules.Shift.{orthogonal_neighbors}
use vibe_othello_engine.Endgame.Regions.{Flood, visit, flood_loop}

pub bit-taken :
    (i j x : ℕ)
    → IsWord x
    → j < 64
    → bit i (bit_and x (complement (single j))) ≡ (bit i x && not (i == j))
bit-taken i j x w h = bit-and i x (complement (single j)) ∙ elim (Bool-cases (ltb i 64)) [
  | inl low ↦
      rw
        (bit-complement_word i (single j) (single-IsWord j) (ground (arith, low)), bit-single i j h)
        refl
  | inr high ↦ rw (bit_outside i x w (ground (arith, high))) refl
]

-- Taking a square out of a word that has it leaves one square less.
popcount-taken :
    (j x : ℕ)
    → IsWord x
    → j < 64
    → bit j x ≡ true
    → popcount x ≡ popcount (bit_and x (complement (single j))) + 1
popcount-taken j x w h on =
    popcount_union (bit_and x (complement (single j))) (single j) x
      (λ i. ground (arith, bit-taken i j x w h, bit-single i j h, on))
      (λ i. ground (arith, bit-taken i j x w h, bit-single i j h))
    ∙ omega (arith, popcount-single j h)

-- What a step of the flood does to its squares: none is counted twice.
record Shrinks (before after : Flood) : Type 0 where
  word : IsWord after.unvisited
  spent :
      length after.stack + popcount after.unvisited
      ≡ length before.stack + popcount before.unvisited
  fewer : popcount after.unvisited ≤ popcount before.unvisited

visit-Shrinks :
    (next : ℕ) (flood : Flood)
    → IsWord flood.unvisited
    → next < 64
    → bit next flood.unvisited ≡ true
    → Shrinks flood (visit next flood)
unfolding visit
visit-Shrinks next flood w h on =
    let one_less = popcount-taken next flood.unvisited w h on in
    record {
      word = bit_and-IsWord flood.unvisited (complement (single next)) w;
      spent = omega (arith, one_less);
      fewer = omega (arith, one_less);
    }

neighbors-Shrinks :
    (n i neighbors : ℕ) (flood : Flood)
    → n + i ≡ 64
    → IsWord flood.unvisited
    → ((j : ℕ) → i ≤ j → bit j neighbors ≡ true → bit j flood.unvisited ≡ true)
    → Shrinks flood (fold_bits n i visit neighbors flood)
unfolding fold_bits
neighbors-Shrinks zero i neighbors flood e w inside = record {
  word = w;
  spent = refl;
  fewer = omega arith;
}
neighbors-Shrinks (suc n) i neighbors flood e w inside = elim (Bool-cases (bit i neighbors)) [
  | inr off ↦
      rw off (
        neighbors-Shrinks n (i + 1) neighbors flood (omega arith) w (λ j k. inside j (omega arith)))
  | inl on ↦ rw on (
      let first = visit-Shrinks i flood w (omega arith) (inside i (omega arith) on) in
      let rest =
        neighbors-Shrinks n (i + 1) neighbors (visit i flood) (omega arith) first.word (λ j k set.
          unfold visit in
          ground
            (arith, bit-taken j i flood.unvisited w (omega arith), inside j (omega arith) set)) in
      record {
        word = rest.word;
        spent = rest.spent ∙ first.spent;
        fewer = omega (arith, rest.fewer, first.fewer);
      })
]

length-zero : (xs : List ℕ) → length xs ≡ 0 → xs ≡ []
length-zero [] e = refl
length-zero (x ∷ xs) e = absurd (omega (arith, e))

-- The neighbors of a square that are still to come.
abbrev pub next_squares : ℕ → ℕ → ℕ
next_squares current unvisited = bit_and (orthogonal_neighbors current) unvisited

-- A round of the flood, as a fold over these.
pub flood_loop_round :
    (fuel current region unvisited : ℕ) (stack : List ℕ)
    → IsWord unvisited
    → flood_loop
        (suc fuel)
        (record { region = region; unvisited = unvisited; stack = current ∷ stack })
      ≡ flood_loop fuel (
          fold_bits 64 0 visit
            (next_squares current unvisited)
            (record { region = region; unvisited = unvisited; stack = stack }))
unfolding flood_loop
flood_loop_round fuel current region unvisited stack w = ap (flood_loop fuel) (
    each_bit-fold visit (next_squares current unvisited) _
      (bit_and-IsWord_right (orthogonal_neighbors current) unvisited w))

-- With a round for each square that is on the stack or still to come, the flood ends.
pub flood_loop-Shrinks :
    (fuel region unvisited : ℕ) (stack : List ℕ)
    → IsWord unvisited
    → length stack + popcount unvisited ≤ fuel
    → let flood : Flood = record { region = region; unvisited = unvisited; stack = stack } in
      ((flood_loop fuel flood).stack ≡ [])
      × IsWord (flood_loop fuel flood).unvisited
      × (popcount (flood_loop fuel flood).unvisited ≤ popcount unvisited)
unfolding flood_loop
flood_loop-Shrinks zero region unvisited stack w h =
    (length-zero stack (omega arith), w, omega arith)
flood_loop-Shrinks (suc fuel) region unvisited [] w h = (refl, w, omega arith)
flood_loop-Shrinks (suc fuel) region unvisited (current ∷ stack) w h =
    let popped : Flood = record { region = region; unvisited = unvisited; stack = stack } in
    let next = fold_bits 64 0 visit (next_squares current unvisited) popped in
    let step =
      neighbors-Shrinks 64 0 (next_squares current unvisited) popped refl w
        (λ j k on. ground (arith, on, bit-and j (orthogonal_neighbors current) unvisited)) in
    rw (flood_loop_round fuel current region unvisited stack w) (
      let (done, word, fewer) =
        flood_loop-Shrinks fuel next.region next.unvisited next.stack step.word
          (omega (arith, step.spent)) in
      (done, word, omega (arith, fewer, step.fewer)))
