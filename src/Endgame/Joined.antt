-- ===== src/Endgame/Joined.antt =====
-- A region of src/endgame_ordering.hpp is what its first square is joined to by sides.
use mathlib.Core.Path.{subst}
use vibe_othello_engine.Base.{
  ℕ, zero, suc, ◌<◌, bit_and, bit_or, ◌≡◌, refl, ap, sym, ◌∙◌, arith, Bool, true, false, ◌&&◌, ◌||◌,
  ◌==◌, List, [], ◌∷◌, Bool-cases, inl, inr,
}
use vibe_othello_engine.Bits.Digit.{bit, bit-and, bit-or}
use vibe_othello_engine.Bits.U64.{IsWord, complement, single, bit-single, bit_and-IsWord}
use vibe_othello_engine.Bits.Scan.{fold_bits}
use vibe_othello_engine.Bits.Count.{popcount-le}
use vibe_othello_engine.Rules.Shift.{orthogonal_neighbors}
use vibe_othello_engine.Endgame.Beside.{IsBeside, neighbor-IsBeside, IsBeside-neighbor}
use vibe_othello_engine.Endgame.Regions.{Flood, visit, flood_loop, flood_from}
use vibe_othello_engine.Endgame.Visits.{fold_keeps, round-IsTaken}
use vibe_othello_engine.Endgame.Flooded.{
  bit-taken, next_squares, flood_loop_round, flood_loop-Shrinks,
}

-- The squares that steps along ranks and files reach from seed without leaving `empty`.
pub data IsJoined (empty seed : ℕ) : ℕ → Type 0 where
  start : IsJoined empty seed seed
  further :
      (i j : ℕ) → IsJoined empty seed i → IsBeside i j → bit j empty ≡ true → IsJoined empty seed j

below_64 : (empty seed i : ℕ) → seed < 64 → IsJoined empty seed i → i < 64
below_64 empty seed _ h IsJoined.start = h
below_64 empty seed _ h (IsJoined.further i k reached beside there) =
    (IsBeside-neighbor i k (below_64 empty seed i h reached) beside).1

abbrev contains : ℕ → List ℕ → Bool
contains i [] = false
contains i (x ∷ xs) = (i == x) || contains i xs

module _ (empty seed : ℕ) (skip : ℕ → Bool) where
  -- The region and the rest make up the squares, the region has the seed and is joined to it, and a square of the region
  -- that still touches the rest is on the stack, but for the one that is being looked at.
  record IsUnderway (flood : Flood) : Type 0 where
    word : IsWord flood.unvisited
    covers : (i : ℕ) → (bit i flood.region || bit i flood.unvisited) ≡ bit i empty
    seeded : bit seed flood.region ≡ true
    joined : (i : ℕ) → bit i flood.region ≡ true → IsJoined empty seed i
    stacked : (i : ℕ) → contains i flood.stack ≡ true → bit i flood.region ≡ true
    waiting :
        (i j : ℕ)
        → skip i ≡ false
        → bit i flood.region ≡ true
        → bit j (orthogonal_neighbors i) ≡ true
        → bit j flood.unvisited ≡ true
        → contains i flood.stack ≡ true

  visit-IsUnderway :
      (next : ℕ) (flood : Flood)
      → next < 64
      → IsJoined empty seed next
      → bit next empty ≡ true
      → IsUnderway flood
      → IsUnderway (visit next flood)
  unfolding visit
  visit-IsUnderway next flood h reached inside v =
      let taken = λ (i : ℕ). bit-taken i next flood.unvisited v.word h in
      let added : (i : ℕ)
          → bit i (bit_or flood.region (single next)) ≡ (bit i flood.region || (i == next)) =
        λ i.
          bit-or i flood.region (single next)
          ∙ ap (λ b. bit i flood.region || b) (bit-single i next h) in
      record {
        word = bit_and-IsWord flood.unvisited (complement (single next)) v.word;
        covers = λ i. ground (arith, taken i, added i, v.covers i, inside);
        seeded = ground (arith, added seed, v.seeded);
        joined = λ i set. elim (Bool-cases (i == next)) [
          | inl same ↦ subst (IsJoined empty seed) (ground (arith, same)) reached
          | inr other ↦ v.joined i (ground (arith, added i, other, set))
        ];
        stacked = λ i on. ground (arith, added i, v.stacked i, on);
        waiting =
            λ i j k set touch rest. ground (arith, added i, taken j, set, rest, v.waiting i j k);
      }

module _ (empty seed : ℕ) (start_below : seed < 64) where
  flood_loop-IsUnderway :
      (fuel region unvisited : ℕ) (stack : List ℕ)
      → let flood : Flood = record { region = region; unvisited = unvisited; stack = stack } in
        IsUnderway empty seed (λ i. false) flood
        → IsUnderway empty seed (λ i. false) (flood_loop fuel flood)
  unfolding flood_loop
  flood_loop-IsUnderway zero region unvisited stack v = v
  flood_loop-IsUnderway (suc fuel) region unvisited [] v = v
  flood_loop-IsUnderway (suc fuel) region unvisited (current ∷ stack) v =
      let popped : Flood = record { region = region; unvisited = unvisited; stack = stack } in
      let neighbors = next_squares current unvisited in
      let next = fold_bits 64 0 visit neighbors popped in
      let here : IsUnderway empty seed (λ i. i == current) popped = record {
        word = v.word;
        covers = v.covers;
        seeded = v.seeded;
        joined = v.joined;
        stacked = λ i on. v.stacked i (ground (arith, on));
        waiting =
            λ i j other set touch rest. ground (arith, v.waiting i j refl set touch rest, other);
      } in
      let looked : IsUnderway empty seed (λ i. i == current) next =
        fold_keeps (IsUnderway empty seed (λ i. i == current)) 64 0 neighbors popped refl
          (λ j so_far below on u.
            let both : (bit j (orthogonal_neighbors current) && bit j unvisited) ≡ true =
              sym (bit-and j (orthogonal_neighbors current) unvisited) ∙ on in
            let inside : bit j empty ≡ true = ground (arith, both, v.covers j) in
            let reached = v.joined current (v.stacked current (ground arith)) in
            visit-IsUnderway empty seed (λ i. i == current) j so_far below
              (IsJoined.further current j reached
                (neighbor-IsBeside current j (below_64 empty seed current start_below reached) below
                  (ground (arith, both)))
                inside)
              inside u)
          here in
      rw (flood_loop_round fuel current region unvisited stack v.word) (
        flood_loop-IsUnderway fuel next.region next.unvisited next.stack (record {
          word = looked.word;
          covers = looked.covers;
          seeded = looked.seeded;
          joined = looked.joined;
          stacked = looked.stacked;
          waiting = λ i j all set touch rest. elim (Bool-cases (i == current)) [
            | inr other ↦ looked.waiting i j other set touch rest
            | inl same ↦ absurd (
                round-IsTaken j current popped v.word (ground (arith, same, touch)) rest
                  looked.word)
          ];
        }))

module _ (empty seed : ℕ) (word : IsWord empty) (below : seed < 64)
    (inside : bit seed empty ≡ true) where
  abbrev start_flood : Flood
  start_flood = record {
    region = single seed;
    unvisited = bit_and empty (complement (single seed));
    stack = seed ∷ [];
  }

  start_flood-IsUnderway : IsUnderway empty seed (λ i. false) start_flood
  start_flood-IsUnderway = record {
    word = bit_and-IsWord empty (complement (single seed)) word;
    covers =
        λ i. ground (arith, bit-taken i seed empty word below, bit-single i seed below, inside);
    seeded = ground (arith, bit-single seed seed below);
    joined = λ i set.
        subst (IsJoined empty seed) (ground (arith, bit-single i seed below, set)) IsJoined.start;
    stacked = λ i on. ground (arith, bit-single i seed below, on);
    waiting = λ i j all set touch rest. ground (arith, bit-single i seed below, set);
  }

  flood_from-IsUnderway : IsUnderway empty seed (λ i. false) (flood_from seed empty)
  unfolding flood_from
  flood_from-IsUnderway =
      flood_loop-IsUnderway empty seed below 65 start_flood.region start_flood.unvisited
        start_flood.stack start_flood-IsUnderway

  flood_from-ends : (flood_from seed empty).stack ≡ []
  unfolding flood_from
  flood_from-ends =
      (flood_loop-Shrinks 65 start_flood.region start_flood.unvisited start_flood.stack
        (bit_and-IsWord empty (complement (single seed)) word)
        (omega (arith, popcount-le start_flood.unvisited))).0

  flood_from-closed :
      (i j : ℕ)
      → bit i (flood_from seed empty).region ≡ true
      → bit j (orthogonal_neighbors i) ≡ true
      → bit j empty ≡ true
      → bit j (flood_from seed empty).region ≡ true
  flood_from-closed i j set touch there =
      elim (Bool-cases (bit j (flood_from seed empty).unvisited)) [
        | inr out ↦ ground (arith, flood_from-IsUnderway.covers j, out, there)
        | inl rest ↦
            let waits = flood_from-IsUnderway.waiting i j refl set touch rest in
            absurd (ground (arith, sym (ap (contains i) flood_from-ends) ∙ waits))
      ]

  flood_from-reaches : (i : ℕ) → IsJoined empty seed i → bit i (flood_from seed empty).region ≡ true
  flood_from-reaches _ IsJoined.start = flood_from-IsUnderway.seeded
  flood_from-reaches _ (IsJoined.further i k reached beside there) =
      flood_from-closed i k (flood_from-reaches i reached)
        (IsBeside-neighbor i k (below_64 empty seed i below reached) beside).0 there

  -- From an empty square, the flood ends within its rounds with nothing left to look at, and its
  -- region is the squares that steps along ranks and files reach from there by empty squares.
  pub flood_from-IsJoined :
      ((flood_from seed empty).stack ≡ [])
      × ((i : ℕ)
          → (bit i (flood_from seed empty).region ≡ true → IsJoined empty seed i)
            × (IsJoined empty seed i → bit i (flood_from seed empty).region ≡ true))
  flood_from-IsJoined =
      (flood_from-ends, λ i. (flood_from-IsUnderway.joined i, flood_from-reaches i))
