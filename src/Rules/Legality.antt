-- ===== src/Rules/Legality.antt =====
-- `legal_moves_for` and `flips_for_known_empty_move` against the rule of the game, over all eight
-- directions.

use mathlib.Core.Path.{ap₂}
use vibe_othello_engine.Base.{
  fun_ext, ℕ, zero, suc, bit_or, ◌≡◌, refl, ap, ◌∙◌, arith, Bool, true, false, not, ◌&&◌, ◌||◌,
  Option, none, some, List, [], ◌∷◌, ◌<◌, Bool-cases, inl, inr,
}
use vibe_othello_engine.Bits.Digit.{bit, bit-or}
use vibe_othello_engine.Bits.Word.{bit-zero}
use vibe_othello_engine.Bits.U64.{
  IsWord, single, bit-single, complement, bit-complement_word, bit_or-IsWord, single-IsWord,
}
use vibe_othello_engine.Rules.Compass.{Direction, reverse, shift_of, step_cases}
use vibe_othello_engine.Rules.Rays.{
  run, captures, is_nonempty, or_nil, cons_to, mem, is_captured, is_bracketing, any_direction,
}
use vibe_othello_engine.Rules.Generate.{IsDisjoint, bit-legal_moves_in_direction}
use vibe_othello_engine.Rules.Flips.{flips_loop-captures, add_squares}
use vibe_othello_engine.Rules.Moves.{
  flips_in_direction, or_zero, legal_moves_for, legal_moves_in_direction,
  flips_for_known_empty_move, union_of_directions,
}

-- Every square of the list is on the board, and holds an opponent disc.
abbrev AllOpponent : ℕ → List ℕ → Type 0
AllOpponent o [] = Unit {0}
AllOpponent o (s ∷ l) = (s < 64) × (bit s o ≡ true) × AllOpponent o l

AllOpponent-cons_to :
    (o s : ℕ) (l : Option (List ℕ))
    → s < 64
    → bit s o ≡ true
    → AllOpponent o (or_nil l)
    → AllOpponent o (or_nil (cons_to s l))
AllOpponent-cons_to o s none h e a = tt
AllOpponent-cons_to o s (some l) h e a = (h, e, a)

run-AllOpponent :
    (p o : ℕ) (d : Direction) (n t : ℕ) → t < 64 → AllOpponent o (or_nil (run p o d n t))
unfolding run
run-AllOpponent p o d zero t h = tt
run-AllOpponent p o d (suc n) t h = elim (Bool-cases (bit t o)) [
  | inr other ↦
      rw other (elim (Bool-cases (bit t p)) [ inl mine ↦ rw mine tt | inr nobody ↦ rw nobody tt ])
  | inl opp ↦ elim (step_cases d t h) [
    | inl off ↦ rw (opp, off) tt
    | inr (u, there, k, _) ↦
        rw (opp, there) (AllOpponent-cons_to o t _ h opp (run-AllOpponent p o d n u k))
  ]
]

captures-AllOpponent : (p o : ℕ) (d : Direction) (s : ℕ) → s < 64 → AllOpponent o (captures p o d s)
unfolding captures
captures-AllOpponent p o d s h = elim (step_cases d s h) [
  | inl off ↦ rw off tt
  | inr (t, there, k, _) ↦ rw there (run-AllOpponent p o d 7 t k)
]

mem-AllOpponent : (o j : ℕ) (l : List ℕ) → AllOpponent o l → mem j l ≡ true → bit j o ≡ true
unfolding mem
mem-AllOpponent o j [] a m = cc
mem-AllOpponent o j (s ∷ l) (h, e, a) m = ground (arith, mem-AllOpponent o j l a)

bit-add_squares :
    (o j board : ℕ) (l : List ℕ)
    → AllOpponent o l
    → bit j (add_squares board l) ≡ (bit j board || mem j l)
unfolding add_squares mem
bit-add_squares o j board [] a = ground arith
bit-add_squares o j board (s ∷ l) (h, e, a) = ground (
  arith,
  bit-add_squares o j (bit_or board (single s)) l a,
  bit-or j board (single s),
  bit-single j s h,
)

add_squares-IsWord : (board : ℕ) (l : List ℕ) → IsWord board → IsWord (add_squares board l)
unfolding add_squares
add_squares-IsWord board [] w = w
add_squares-IsWord board (s ∷ l) w =
    add_squares-IsWord (bit_or board (single s)) l (bit_or-IsWord board _ w (single-IsWord s))

bit-union_of_directions :
    (j : ℕ) (f : (ℕ → ℕ) → ℕ)
    → bit j (union_of_directions f) ≡ any_direction (λ d. bit j (f (shift_of d)))
unfolding shift_of
bit-union_of_directions j f = simp bit-or

any_direction_congr :
    (f g : Direction → Bool) → ((d : Direction) → f d ≡ g d) → any_direction f ≡ any_direction g
any_direction_congr f g h = ap any_direction (fun_ext h)

any_direction-and :
    (b : Bool) (f : Direction → Bool) → any_direction (λ d. b && f d) ≡ (b && any_direction f)
any_direction-and true f = refl
any_direction-and false f = refl

-- The directions in the opposite order of each pair.
any_direction-reverse :
    (f : Direction → Bool) → any_direction (λ d. f (reverse d)) ≡ any_direction f
unfolding reverse
any_direction-reverse f = ground arith

module _ (p o : ℕ) (wp : IsWord p) (wo : IsWord o) (disjoint : IsDisjoint p o) where
  flips-captures :
      (d : Direction) (s : ℕ)
      → s < 64
      → flips_in_direction (shift_of d) (single s) p o ≡ add_squares 0 (captures p o d s)
  unfolding flips_in_direction or_zero
  flips-captures d s h = ap or_zero (flips_loop-captures p o d wp wo disjoint s h)

  bit-flips_in_direction :
      (d : Direction) (s j : ℕ)
      → s < 64
      → bit j (flips_in_direction (shift_of d) (single s) p o) ≡ mem j (captures p o d s)
  bit-flips_in_direction d s j h =
      ap (bit j) (flips-captures d s h)
      ∙ bit-add_squares o j 0 (captures p o d s) (captures-AllOpponent p o d s h)
      ∙ ground (arith, bit-zero j)

  -- The flips of a move are the discs that the rule captures.
  pub bit-flips_for_known_empty_move :
      (s j : ℕ) → s < 64 → bit j (flips_for_known_empty_move p o (single s)) ≡ is_captured p o s j
  unfolding flips_for_known_empty_move is_captured
  bit-flips_for_known_empty_move s j h =
      bit-union_of_directions j (λ shift. flips_in_direction shift (single s) p o)
      ∙ any_direction_congr _ _ (λ d. bit-flips_in_direction d s j h)

  -- The legal moves are the empty squares from which the rule captures something.
  pub bit-legal_moves_for :
      (s : ℕ)
      → s < 64
      → bit s (legal_moves_for p o) ≡ (not (bit s p || bit s o) && is_bracketing p o s)
  unfolding legal_moves_for is_bracketing
  bit-legal_moves_for s h =
      let empty_squares = complement (bit_or p o) in
      let is_empty : bit s empty_squares ≡ not (bit s p || bit s o) =
        bit-complement_word s (bit_or p o) (bit_or-IsWord p o wp wo) h ∙ ap not (bit-or s p o) in
      bit-union_of_directions s (λ shift. legal_moves_in_direction shift p o empty_squares)
      ∙ any_direction_congr _ _
          (λ d. bit-legal_moves_in_direction p o d wp wo empty_squares s disjoint h)
      ∙ any_direction-and (bit s empty_squares) (λ d. is_nonempty (captures p o (reverse d) s))
      ∙ ap₂ ◌&&◌ is_empty (any_direction-reverse (λ d. is_nonempty (captures p o d s)))

  pub flips_in_direction-IsWord :
      (d : Direction) (s : ℕ) → s < 64 → IsWord (flips_in_direction (shift_of d) (single s) p o)
  flips_in_direction-IsWord d s h =
      rw (flips-captures d s h) (add_squares-IsWord 0 (captures p o d s) (omega arith))

-- What the rule captures are opponent discs.
pub is_captured-opponent : (p o s j : ℕ) → s < 64 → is_captured p o s j ≡ true → bit j o ≡ true
unfolding is_captured
is_captured-opponent p o s j h e =
    let m =
      λ (d : Direction). mem-AllOpponent o j (captures p o d s) (captures-AllOpponent p o d s h) in
    ground (
      arith,
      m Direction.east,
      m Direction.west,
      m Direction.north,
      m Direction.south,
      m Direction.northeast,
      m Direction.northwest,
      m Direction.southeast,
      m Direction.southwest,
    )
