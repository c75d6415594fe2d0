-- ===== src/Search/Agree.antt =====
-- The moves of the search are those of the rules: positions against boards.
use vibe_othello_engine.Base.{ℕ, ◌≡◌, refl, ap, ◌∙◌, arith, some, bit_or}
use vibe_othello_engine.Base.Int.{pos, ◌-ℤ◌, int_laws}
use vibe_othello_engine.Bits.Digit.{bit-or}
use vibe_othello_engine.Board.{Side, opponent, Board, discs, discs_of}
use vibe_othello_engine.Board.Square.{Square, IsSquare, square_bit}
use vibe_othello_engine.Hash.Xor.{bits_ext}
use vibe_othello_engine.Rules.Moves.{apply_move, pass_turn, with_side, disc_count, score}
use vibe_othello_engine.Rules.Moved.{moved_cases}
use vibe_othello_engine.Rules.Play.{IsBoard, own_after, other_after, after_move, move_flips}
use vibe_othello_engine.Search.Position.{
  SearchPosition, from_board, to_board, board_of, position_after_move, position_after_move_bit,
  position_after_pass, flips_for_known_empty_move, score_for_player,
}

board_of-discs :
    (b : Board) (side : Side)
    → board_of side (discs b side) (discs b (opponent side)) ≡ record b { side_to_move = side }
unfolding board_of discs discs_of opponent
board_of-discs b Side.black = refl
board_of-discs b Side.white = refl

-- A board is what its position stands for.
pub to_board-from_board : (b : Board) → to_board (from_board b) ≡ b
unfolding to_board from_board
to_board-from_board b = board_of-discs b b.side_to_move

discs_of_board :
    (side : Side) (p o : ℕ)
    → (discs (board_of side p o) side ≡ p)
      × (discs (board_of side p o) (opponent side) ≡ o)
      × ((board_of side p o).side_to_move ≡ side)
unfolding board_of discs discs_of opponent
discs_of_board Side.black p o = (refl, refl, refl)
discs_of_board Side.white p o = (refl, refl, refl)

opponent-opponent : (side : Side) → opponent (opponent side) ≡ side
unfolding opponent
opponent-opponent Side.black = refl
opponent-opponent Side.white = refl

or_assoc : (a b c : ℕ) → bit_or (bit_or a b) c ≡ bit_or a (bit_or b c)
or_assoc a b c = bits_ext _ _ (λ i. simp bit-or (ground arith))

module _ (b : Board) (s : Square) (v : IsBoard b) (h : IsSquare s) where
  position_after-move :
      position_after_move (from_board b) s (move_flips b s) ≡ from_board (after_move b s)
  unfolding position_after_move position_after_move_bit from_board with_side
  position_after-move =
      rw
        (
          other_after b s v h,
          opponent-opponent b.side_to_move,
          own_after b s v h,
          or_assoc (discs b b.side_to_move) (square_bit s) (move_flips b s),
        )
        refl

-- A move that `apply_move` accepts on a well-formed board is the move of the search, with the
-- flips that the search computes.
pub position_after_move-apply_move :
    (b n : Board) (s : Square)
    → IsBoard b
    → IsSquare s
    → apply_move b s ≡ some n
    → position_after_move
        (from_board b)
        s
        (flips_for_known_empty_move (from_board b) (square_bit s))
      ≡ from_board n
unfolding from_board flips_for_known_empty_move
position_after_move-apply_move b n s v h e =
    let (legal, same) = moved_cases b s v h e in position_after-move b s v h ∙ ap from_board same

-- The position of a board with the turn handed over is the position after the pass.
pub position_after_pass-from_board :
    (b : Board)
    → position_after_pass (from_board b) ≡ from_board (with_side b (opponent b.side_to_move))
unfolding position_after_pass from_board with_side discs discs_of
position_after_pass-from_board b = rw (opponent-opponent b.side_to_move) refl

-- A pass that `pass_turn` accepts is the pass of the search.
pub position_after_pass-pass_turn :
    (b n : Board) → pass_turn b ≡ some n → position_after_pass (from_board b) ≡ from_board n
unfolding pass_turn
position_after_pass-pass_turn b n e =
    position_after_pass-from_board b ∙ ap from_board (ground (arith, e))

-- A pass turns the score round, and a second one gives the position back.
pub score_for_player-position_after_pass :
    (p : SearchPosition)
    → (score_for_player (position_after_pass p) ≡ pos 0 -ℤ score_for_player p)
      × (position_after_pass (position_after_pass p) ≡ p)
unfolding score_for_player position_after_pass
score_for_player-position_after_pass p =
    (omega int_laws, rw (opponent-opponent p.side_to_move) refl)

-- The score of the search is the score of the rules, seen from the side to move.
pub score_for_player-score : (b : Board) → score_for_player (from_board b) ≡ score b b.side_to_move
unfolding score_for_player from_board score disc_count
score_for_player-score b = refl
