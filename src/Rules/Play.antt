-- ===== src/Rules/Play.antt =====
-- `apply_move` on well-formed boards: when it succeeds, what it changes and what it keeps.
use native.Mathlib.Decide.{dec_lt}
use vibe_othello_engine.Base.{
  ℕ, ◌≡◌, refl, ap, ◌∙◌, arith, Bool, true, false, not, ◌&&◌, ◌||◌, ◌==◌, bit_or, bit_and, Option,
  none, some, if◌then◌else◌,
}
use vibe_othello_engine.Bits.Digit.{bit, bit-or, bit-and}
use vibe_othello_engine.Bits.U64.{
  IsWord, bit_or-IsWord, complement, bit-complement_word, bit-single, bit_outside, test_single,
}
use vibe_othello_engine.Board.{Side, opponent, Board, discs, discs_of, occupied}
use vibe_othello_engine.Board.Square.{Square, IsSquare, square_bit}
use vibe_othello_engine.Rules.Rays.{is_captured}
use vibe_othello_engine.Rules.Generate.{IsDisjoint}
use vibe_othello_engine.Rules.Legality.{bit-flips_for_known_empty_move}
use vibe_othello_engine.Rules.Consistent.{
  flips_for_known_empty_move-IsWord, legal_iff_flips, flips-opponent,
}
use vibe_othello_engine.Rules.Moves.{
  legal_moves, flips_for_known_empty_move, place, with_side, apply_move,
}

-- Both sets of discs fit the word, and no square has two discs.
pub record IsBoard (b : Board) : Type 0 where
  pub black_fits : IsWord b.black
  pub white_fits : IsWord b.white
  pub disjoint : IsDisjoint b.black b.white

abbrev pub own_discs : Board → ℕ
own_discs b = discs b b.side_to_move

abbrev pub other_discs : Board → ℕ
other_discs b = discs b (opponent b.side_to_move)

abbrev pub is_some : Option Board → Bool
is_some none = false
is_some (some b) = true

module _ (b : Board) (v : IsBoard b) where
  pub discs-IsWord : (side : Side) → IsWord (discs b side)
  unfolding discs discs_of
  discs-IsWord Side.black = v.black_fits
  discs-IsWord Side.white = v.white_fits

  pub discs-IsDisjoint : (side : Side) → IsDisjoint (discs b side) (discs b (opponent side))
  unfolding discs discs_of opponent
  discs-IsDisjoint Side.black i = v.disjoint i
  discs-IsDisjoint Side.white i = ground (arith, v.disjoint i)

discs-occupied :
    (b : Board) (side : Side) (i : ℕ)
    → bit i (occupied b) ≡ (bit i (discs b side) || bit i (discs b (opponent side)))
unfolding occupied discs discs_of opponent
discs-occupied b Side.black i = bit-or i b.black b.white
discs-occupied b Side.white i = bit-or i b.black b.white ∙ ground arith

occupied-IsWord : (b : Board) → IsBoard b → IsWord (occupied b)
unfolding occupied
occupied-IsWord b v = bit_or-IsWord b.black b.white v.black_fits v.white_fits

module _ (b : Board) (move_bit flips : ℕ) where
  place_own :
      (side : Side)
      → discs (place b side move_bit flips) side ≡ bit_or (discs b side) (bit_or move_bit flips)
  unfolding place discs discs_of
  place_own Side.black = refl
  place_own Side.white = refl

  place_other :
      (side : Side)
      → discs (place b side move_bit flips) (opponent side)
        ≡ bit_and (discs b (opponent side)) (complement flips)
  unfolding place discs discs_of opponent
  place_other Side.black = refl
  place_other Side.white = refl

discs-with_side :
    (b : Board) (to_move side : Side) → discs (with_side b to_move) side ≡ discs b side
unfolding with_side discs discs_of
discs-with_side b to_move Side.black = refl
discs-with_side b to_move Side.white = refl

-- The board after a move, and the move's flips.
abbrev pub move_flips : Board → Square → ℕ
move_flips b s = flips_for_known_empty_move (own_discs b) (other_discs b) (square_bit s)

abbrev pub after_move : Board → Square → Board
after_move b s =
    with_side (place b b.side_to_move (square_bit s) (move_flips b s)) (opponent b.side_to_move)

module _ (b : Board) (s : Square) (v : IsBoard b) (h : IsSquare s) where
  wp : IsWord (own_discs b)
  wp = discs-IsWord b v b.side_to_move

  wo : IsWord (other_discs b)
  wo = discs-IsWord b v (opponent b.side_to_move)

  apart : IsDisjoint (own_discs b) (other_discs b)
  apart = discs-IsDisjoint b v b.side_to_move

  -- A move succeeds exactly on the generated squares, and gives the board with the disc placed.
  pub apply_move-after_move :
      apply_move b s ≡ (if bit s.index (legal_moves b) then some (after_move b s) else none)
  unfolding apply_move legal_moves square_bit
  apply_move-after_move = ground (
    arith,
    test_single (occupied b) s.index (occupied-IsWord b v) h,
    discs-occupied b b.side_to_move s.index,
    legal_iff_flips (own_discs b) (other_discs b) wp wo apart s.index h,
  )

  pub flips_fit : IsWord (move_flips b s)
  unfolding square_bit
  flips_fit = flips_for_known_empty_move-IsWord (own_discs b) (other_discs b) wp wo apart s.index h

  pub bit-flips :
      (j : ℕ) → bit j (move_flips b s) ≡ is_captured (own_discs b) (other_discs b) s.index j
  unfolding square_bit
  bit-flips j = bit-flips_for_known_empty_move (own_discs b) (other_discs b) wp wo apart s.index j h

  pub flips_other : (j : ℕ) → bit j (move_flips b s) ≡ true → bit j (other_discs b) ≡ true
  unfolding square_bit
  flips_other j = flips-opponent (own_discs b) (other_discs b) wp wo apart s.index j h

  pub own_after :
      discs (after_move b s) b.side_to_move
      ≡ bit_or (own_discs b) (bit_or (square_bit s) (move_flips b s))
  own_after = discs-with_side _ _ b.side_to_move ∙ place_own b _ _ b.side_to_move

  pub other_after :
      discs (after_move b s) (opponent b.side_to_move)
      ≡ bit_and (other_discs b) (complement (move_flips b s))
  other_after = discs-with_side _ _ (opponent b.side_to_move) ∙ place_other b _ _ b.side_to_move

  -- The player gains the square and the captured discs.
  pub bit-own_after :
      (j : ℕ)
      → bit j (discs (after_move b s) b.side_to_move)
        ≡ (bit j (own_discs b) || (j == s.index || bit j (move_flips b s)))
  unfolding square_bit
  bit-own_after j =
      ap (bit j) own_after
      ∙ bit-or j (own_discs b) _
      ∙ ground (arith, bit-or j (square_bit s) (move_flips b s), bit-single j s.index h)

  -- The opponent loses the captured discs.
  pub bit-other_after :
      (j : ℕ)
      → bit j (discs (after_move b s) (opponent b.side_to_move))
        ≡ (bit j (other_discs b) && not (bit j (move_flips b s)))
  bit-other_after j = ap (bit j) other_after ∙ bit-and j (other_discs b) _ ∙ elim (dec_lt j 64) [
    | yes k ↦ rw (bit-complement_word j (move_flips b s) flips_fit k)
    | no k ↦ rw (bit_outside j (other_discs b) wo (omega arith))
  ]
