-- ===== src/Rules/Flips.antt =====
-- `flips_in_direction`: walking from a single square collects exactly the captured run, within
-- the fuel.
use vibe_othello_engine.Base.{
  ℕ, zero, suc, bit_or, bit_and, ◌≡◌, refl, sym, ap, ◌∙◌, arith, Bool, true, false, not, ◌==◌,
  if◌then◌else◌, Option, none, some, List, [], ◌∷◌, ◌<◌, Bool-cases, inl, inr,
}
use mathlib.Core.Bool.{false≢true}
use vibe_othello_engine.Bits.Digit.{bit, bit-and}
use vibe_othello_engine.Bits.U64.{
  IsWord, bit_and-IsWord, single, single-IsWord, bit-single, word_ext, nonzero_of_bit, zero_of_bits,
  zero-bit_and,
}
use vibe_othello_engine.Rules.Compass.{
  Direction, step, on, reverse, shift_of, bit-shift_of, shift_of-IsWord, step_cases,
  reverse-reverse, step_back, holds_below, test_of_holds_below,
}
use vibe_othello_engine.Rules.Rays.{run, captures, or_nil, cons_to, further}
use vibe_othello_engine.Rules.Generate.{IsDisjoint}
use vibe_othello_engine.Rules.Moves.{flips_loop}

module _ (d : Direction) (s : ℕ) (h : s < 64) where
  step_from : (j t : ℕ) → j < 64 → step (reverse d) j ≡ some t → (t == s) ≡ true → step d s ≡ some j
  step_from j t lt e same =
      let back = (step_back (reverse d) j t lt e).0 in
      ap (λ c. step c s) (sym (reverse-reverse d))
      ∙ ap (step (reverse (reverse d))) (ground arith)
      ∙ back

  -- A shifted single square is its neighbour, or nothing at the edge of the board.
  pub shift-single_off : step d s ≡ none → shift_of d (single s) ≡ 0
  shift-single_off off = zero_of_bits _ (shift_of-IsWord d _ (single-IsWord s)) λ j lt.
      elim (step_cases (reverse d) j lt) [
        | inl none_there ↦ bit-shift_of (single s) j (single-IsWord s) lt d ∙ rw none_there
        | inr (t, there, _, _) ↦
            bit-shift_of (single s) j (single-IsWord s) lt d
            ∙ ground (arith, bit-single t s h, step_from j t lt there)
      ]

  pub shift-single_on : (u : ℕ) → step d s ≡ some u → shift_of d (single s) ≡ single u
  shift-single_on u e =
      let (back, small) = step_back d s u h e in
      word_ext (shift_of-IsWord d _ (single-IsWord s)) (single-IsWord u) λ j lt.
        elim (step_cases (reverse d) j lt) [
          | inl none_there ↦
              bit-shift_of (single s) j (single-IsWord s) lt d
              ∙ ground (arith, bit-single j u small)
          | inr (t, there, _, _) ↦
              bit-shift_of (single s) j (single-IsWord s) lt d
              ∙ ground (arith, bit-single j u small, bit-single t s h, step_from j t lt there)
        ]

and-single_on : (u x : ℕ) → u < 64 → IsWord x → bit u x ≡ true → bit_and (single u) x ≡ single u
and-single_on u x h w set =
    word_ext (bit_and-IsWord _ x (single-IsWord u)) (single-IsWord u)
      (λ j lt. bit-and j (single u) x ∙ ground (arith, bit-single j u h))

and-single_off : (u x : ℕ) → u < 64 → IsWord x → bit u x ≡ false → bit_and (single u) x ≡ 0
and-single_off u x h w clear =
    zero_of_bits _ (bit_and-IsWord _ x (single-IsWord u))
      (λ j lt. bit-and j (single u) x ∙ ground (arith, bit-single j u h))

single_nonzero : (u : ℕ) → u < 64 → (single u == 0) ≡ false
single_nonzero u h = nonzero_of_bit u (single u) (bit-single u u h ∙ ground arith)

-- The board of the squares of a list, added to a board.
unfoldable pub add_squares : ℕ → List ℕ → ℕ
add_squares board [] = board
add_squares board (s ∷ l) = add_squares (bit_or board (single s)) l

abbrev turned : ℕ → Option (List ℕ) → ℕ
turned flips none = 0
turned flips (some l) = add_squares flips l

turned-cons_to :
    (flips t : ℕ) (l : Option (List ℕ))
    → turned flips (cons_to t l) ≡ turned (bit_or flips (single t)) l
unfolding add_squares
turned-cons_to flips t none = refl
turned-cons_to flips t (some l) = refl

turned_from_zero : (l : Option (List ℕ)) → turned 0 l ≡ add_squares 0 (or_nil l)
unfolding add_squares
turned_from_zero none = refl
turned_from_zero (some l) = refl

nothing_turned :
    (mine : Bool) → some 0 ≡ some (add_squares 0 (or_nil (if mine then some [] else none)))
unfolding add_squares
nothing_turned true = refl
nothing_turned false = refl

-- n steps from a square stay on the board.
stays : Direction → ℕ → ℕ → Bool
stays d zero s = true
stays d (suc n) s = on (step d s) (stays d n)

never_stays : (d : Direction) → holds_below (λ s. not (stays d 8 s)) 64 ≡ true
unfolding holds_below stays step
never_stays Direction.east = refl
never_stays Direction.west = refl
never_stays Direction.north = refl
never_stays Direction.south = refl
never_stays Direction.northeast = refl
never_stays Direction.northwest = refl
never_stays Direction.southeast = refl
never_stays Direction.southwest = refl

stays_seven : (d : Direction) (s t : ℕ) → s < 64 → step d s ≡ some t → stays d 7 t ≡ false
unfolding stays
stays_seven d s t h e =
    let off = test_of_holds_below (λ i. not (stays d 8 i)) 64 s h (never_stays d) in ground arith

module _ (p o : ℕ) (d : Direction) (wp : IsWord p) (wo : IsWord o) (disjoint : IsDisjoint p o) where
  abbrev loop : ℕ → ℕ → ℕ → Option ℕ
  loop fuel flips captured = flips_loop (shift_of d) fuel p o flips captured

  loop-stops : (fuel flips : ℕ) → 0 < fuel → loop fuel flips 0 ≡ some 0
  unfolding flips_loop
  loop-stops zero flips h = absurd (omega arith)
  loop-stops (suc fuel) flips h = refl

  -- One round of the loop at a single square.
  loop-edge :
      (fuel flips t : ℕ)
      → t < 64
      → step d t ≡ none
      → 0 < fuel
      → loop (suc fuel) flips (single t) ≡ some 0
  unfolding flips_loop
  loop-edge fuel flips t h off f =
      rw (single_nonzero t h, shift-single_off d t h off, zero-bit_and p, zero-bit_and o)
        (loop-stops fuel _ f)

  loop-step :
      (fuel flips t u : ℕ)
      → t < 64
      → u < 64
      → step d t ≡ some u
      → loop (suc fuel) flips (single t) ≡ (
          if bit u p
          then some (bit_or flips (single t))
          else loop fuel (bit_or flips (single t)) (bit_and (single u) o))
  unfolding flips_loop
  loop-step fuel flips t u h k e = elim (Bool-cases (bit u p)) [
    | inl mine ↦ rw (
      single_nonzero t h,
      shift-single_on d t h u e,
      and-single_on u p k wp mine,
      single_nonzero u k,
      mine,
    )
    | inr other ↦
        rw (single_nonzero t h, shift-single_on d t h u e, and-single_off u p k wp other, other)
  ]

  run_at : (n t : ℕ) → bit t o ≡ true → run p o d (suc n) t ≡ further t (step d t) (run p o d n)
  unfolding run
  run_at n t opp = rw opp

  run_ends : (n t : ℕ) → bit t o ≡ false → run p o d (suc n) t ≡ (if bit t p then some [] else none)
  unfolding run
  run_ends n t other = rw other

  -- After a step to a square that is not the player's, the loop goes on or gives up.
  after :
      (fuel n flips u : ℕ)
      → u < 64
      → 0 < fuel
      → (bit u o ≡ true → loop fuel flips (single u) ≡ some (turned flips (run p o d (suc n) u)))
      → (if bit u p then some flips else loop fuel flips (bit_and (single u) o))
        ≡ some (turned flips (run p o d (suc n) u))
  unfolding add_squares
  after fuel n flips u k f ih = elim (Bool-cases (bit u o)) [
    | inl opp ↦ rw (and-single_on u o k wo opp) (ground (arith, disjoint u, ih opp))
    | inr other ↦
        rw (and-single_off u o k wo other, run_ends n u other, loop-stops fuel flips f)
          (elim (Bool-cases (bit u p)) [ inl mine ↦ rw mine | inr no_disc ↦ rw no_disc ])
  ]

  loop-run :
      (n fuel flips t : ℕ)
      → stays d n t ≡ false
      → n < fuel
      → t < 64
      → bit t o ≡ true
      → loop fuel flips (single t) ≡ some (turned flips (run p o d n t))
  unfolding stays
  loop-run zero fuel flips t gone f h opp = cc
  loop-run (suc n) zero flips t gone f h opp = absurd (omega arith)
  loop-run (suc zero) (suc fuel) flips t gone f h opp = elim (step_cases d t h) [
    | inl off ↦ loop-edge fuel flips t h off (omega arith) ∙ rw (run_at 0 t opp, off)
    | inr (u, there, k, _) ↦ absurd (false≢true (sym gone ∙ rw there))
  ]
  loop-run (suc (suc n)) (suc fuel) flips t gone f h opp = elim (step_cases d t h) [
    | inl off ↦ loop-edge fuel flips t h off (omega arith) ∙ rw (run_at (suc n) t opp, off)
    | inr (u, there, k, _) ↦
        let flips' = bit_or flips (single t) in
        let gone' : stays d (suc n) u ≡ false = rw there at gone in
        loop-step fuel flips t u h k there
        ∙ after fuel n flips' u k (omega arith)
            (loop-run (suc n) fuel flips' u gone' (omega arith) k)
        ∙ ap some
            (sym (turned-cons_to flips t (run p o d (suc n) u)) ∙ rw (run_at (suc n) t opp, there))
  ]

  -- The walk of the source from a single square meets the rule, and ends within eight rounds.
  pub flips_loop-captures :
      (s : ℕ)
      → s < 64
      → flips_loop (shift_of d) 8 p o 0 (bit_and (shift_of d (single s)) o)
        ≡ some (add_squares 0 (captures p o d s))
  unfolding captures add_squares
  flips_loop-captures s h = elim (step_cases d s h) [
    | inl off ↦ rw (shift-single_off d s h off, zero-bit_and o, off) (loop-stops 8 0 (omega arith))
    | inr (t, there, k, _) ↦ elim (Bool-cases (bit t o)) [
      | inl opp ↦
          rw (shift-single_on d s h t there, and-single_on t o k wo opp, there)
            (loop-run 7 8 0 t (stays_seven d s t h there) (omega arith) k opp
              ∙ ap some (turned_from_zero (run p o d 7 t)))
      | inr other ↦
          rw
            (
              shift-single_on d s h t there,
              and-single_off t o k wo other,
              there,
              run_ends 6 t other,
            )
            (loop-stops 8 0 (omega arith) ∙ nothing_turned (bit t p))
    ]
  ]
