-- ===== src/Rules/Consistent.antt =====
-- A square is generated as a legal move exactly when its flips are not empty, and the flips are
-- opponent discs.
use vibe_othello_engine.Base.{
  ℕ, ◌≡◌, refl, sym, ◌∙◌, arith, Bool, true, not, ◌&&◌, ◌||◌, ◌==◌, List, [], ◌∷◌, ◌<◌, Bool-cases,
  inl, inr,
}
use vibe_othello_engine.Bits.Digit.{bit}
use vibe_othello_engine.Bits.U64.{IsWord, single, bit_or-IsWord, nonzero_of_bit, zero_of_bits}
use vibe_othello_engine.Rules.Compass.{Direction, shift_of}
use vibe_othello_engine.Rules.Rays.{
  captures, is_nonempty, mem, is_captured, is_bracketing, any_direction,
}
use vibe_othello_engine.Rules.Generate.{IsDisjoint}
use vibe_othello_engine.Rules.Legality.{
  bit-flips_for_known_empty_move, bit-legal_moves_for, flips_in_direction-IsWord,
  is_captured-opponent,
}
use vibe_othello_engine.Rules.Moves.{legal_moves_for, flips_for_known_empty_move}

any_intro : (f : Direction → Bool) (d : Direction) → f d ≡ true → any_direction f ≡ true
any_intro f Direction.east h = ground arith
any_intro f d h = ground arith

any_witness : (f : Direction → Bool) → any_direction f ≡ true → (d : Direction) × (f d ≡ true)
any_witness f h = elim (Bool-cases (f Direction.east)) [
  | inl e ↦ (Direction.east, e)
  | inr n1 ↦ elim (Bool-cases (f Direction.west)) [
    | inl e ↦ (Direction.west, e)
    | inr n2 ↦ elim (Bool-cases (f Direction.north)) [
      | inl e ↦ (Direction.north, e)
      | inr n3 ↦ elim (Bool-cases (f Direction.south)) [
        | inl e ↦ (Direction.south, e)
        | inr n4 ↦ elim (Bool-cases (f Direction.northeast)) [
          | inl e ↦ (Direction.northeast, e)
          | inr n5 ↦ elim (Bool-cases (f Direction.northwest)) [
            | inl e ↦ (Direction.northwest, e)
            | inr n6 ↦ elim (Bool-cases (f Direction.southeast)) [
              | inl e ↦ (Direction.southeast, e)
              | inr n7 ↦ (Direction.southwest, ground arith)
            ]
          ]
        ]
      ]
    ]
  ]
]

first_member : (l : List ℕ) → is_nonempty l ≡ true → (j : ℕ) × (mem j l ≡ true)
unfolding mem
first_member [] h = cc
first_member (j ∷ l) h = (j, ground arith)

nonempty_of_mem : (j : ℕ) (l : List ℕ) → mem j l ≡ true → is_nonempty l ≡ true
unfolding mem
nonempty_of_mem j [] h = h
nonempty_of_mem j (s ∷ l) h = refl

module _ (p o s : ℕ) where
  captured_square : is_bracketing p o s ≡ true → (j : ℕ) × (is_captured p o s j ≡ true)
  unfolding is_bracketing is_captured
  captured_square h =
      let (d, e) = any_witness (λ c. is_nonempty (captures p o c s)) h in
      let (j, m) = first_member (captures p o d s) e in
      (j, any_intro (λ c. mem j (captures p o c s)) d m)

  bracketing_of_captured : (j : ℕ) → is_captured p o s j ≡ true → is_bracketing p o s ≡ true
  unfolding is_bracketing is_captured
  bracketing_of_captured j h =
      let (d, e) = any_witness (λ c. mem j (captures p o c s)) h in
      any_intro (λ c. is_nonempty (captures p o c s)) d (nonempty_of_mem j _ e)

module _ (p o : ℕ) (wp : IsWord p) (wo : IsWord o) (disjoint : IsDisjoint p o) where
  pub flips_for_known_empty_move-IsWord :
      (s : ℕ) → s < 64 → IsWord (flips_for_known_empty_move p o (single s))
  unfolding flips_for_known_empty_move shift_of
  flips_for_known_empty_move-IsWord s h =
      let w = λ (d : Direction). flips_in_direction-IsWord p o wp wo disjoint d s h in
      bit_or-IsWord _ _
        (bit_or-IsWord _ _
          (bit_or-IsWord _ _
            (bit_or-IsWord _ _
              (bit_or-IsWord _ _
                (bit_or-IsWord _ _ (bit_or-IsWord _ _ (w Direction.east) (w Direction.west))
                  (w Direction.north))
                (w Direction.south))
              (w Direction.northeast))
            (w Direction.northwest))
          (w Direction.southeast))
        (w Direction.southwest)

  -- A move turns nothing over exactly when the rule captures nothing.
  pub no_flips :
      (s : ℕ)
      → s < 64
      → (flips_for_known_empty_move p o (single s) == 0) ≡ not (is_bracketing p o s)
  no_flips s h = elim (Bool-cases (is_bracketing p o s)) [
    | inl brackets ↦
        let (j, captured) = captured_square p o s brackets in
        rw brackets
          (nonzero_of_bit j _ (bit-flips_for_known_empty_move p o wp wo disjoint s j h ∙ captured))
    | inr nothing ↦
        let none_turned : flips_for_known_empty_move p o (single s) ≡ 0 =
          zero_of_bits _ (flips_for_known_empty_move-IsWord s h) (λ j k.
            bit-flips_for_known_empty_move p o wp wo disjoint s j h
            ∙ ground (arith, bracketing_of_captured p o s j)) in
        rw (nothing, none_turned)
  ]

  -- Generation and execution agree: a square is a legal move exactly when it is empty and a disc
  -- on it turns something over.
  pub legal_iff_flips :
      (s : ℕ)
      → s < 64
      → bit s (legal_moves_for p o)
        ≡ (not (bit s p || bit s o) && not (flips_for_known_empty_move p o (single s) == 0))
  legal_iff_flips s h =
      rw (no_flips s h) (bit-legal_moves_for p o wp wo disjoint s h ∙ ground arith)

  pub flips-opponent :
      (s j : ℕ) → s < 64 → bit j (flips_for_known_empty_move p o (single s)) ≡ true → bit j o ≡ true
  flips-opponent s j h e =
      is_captured-opponent p o s j h
        (sym (bit-flips_for_known_empty_move p o wp wo disjoint s j h) ∙ e)
