-- ===== src/Evaluation/Over.antt =====
-- The move generator of src/evaluation_internal.hpp against the rules of the game.
use vibe_othello_engine.Base.{
  ℕ, zero, suc, false, not, if◌then◌else◌, ◌≡◌, refl, sym, ◌∙◌, arith, bit_and, ◌==◌,
}
use vibe_othello_engine.Board.{Side, opponent, Board, discs, discs_of}
use vibe_othello_engine.Rules.Moves.{
  extend_captured, legal_moves_in_direction, legal_moves_for, legal_moves, has_legal_move,
  with_side, is_game_over,
}
use vibe_othello_engine.Evaluation.Features.{
  extend, moves_in_direction, legal_moves_for_bitboards, make_evaluation_scratch,
  board_evaluation_scratch, game_over_for_bitboards,
}

extend-extend_captured :
    (shift : ℕ → ℕ) (rounds o captured : ℕ)
    → extend shift rounds o captured ≡ extend_captured shift rounds o captured
unfolding extend extend_captured
extend-extend_captured shift zero o captured = refl
extend-extend_captured shift (suc rounds) o captured = extend-extend_captured shift rounds o _

moves-legal_moves :
    (shift : ℕ → ℕ) (p o e : ℕ)
    → moves_in_direction shift p o e ≡ legal_moves_in_direction shift p o e
unfolding moves_in_direction legal_moves_in_direction
moves-legal_moves shift p o e = rw (extend-extend_captured shift 5 o (bit_and (shift p) o)) refl

legal_moves_for_bitboards-legal_moves_for :
    (p o : ℕ) → legal_moves_for_bitboards p o ≡ legal_moves_for p o
unfolding legal_moves_for_bitboards legal_moves_for
legal_moves_for_bitboards-legal_moves_for p o = simp moves-legal_moves refl

game_over_for_bitboards-legal_moves :
    (p o : ℕ)
    → game_over_for_bitboards p o
      ≡ (if not (legal_moves_for p o == 0) then false else not (not (legal_moves_for o p == 0)))
unfolding game_over_for_bitboards
game_over_for_bitboards-legal_moves p o =
    rw
      (legal_moves_for_bitboards-legal_moves_for p o, legal_moves_for_bitboards-legal_moves_for o p)
      (ground arith)

is_game_over-legal_moves :
    (black white : ℕ) (side : Side)
    → is_game_over (record { black = black; white = white; side_to_move = side }) ≡ (
        if not (legal_moves_for black white == 0)
        then false
        else not (not (legal_moves_for white black == 0)))
unfolding is_game_over has_legal_move legal_moves with_side discs discs_of opponent
is_game_over-legal_moves black white Side.black = refl
is_game_over-legal_moves black white Side.white = ground arith

game_over_for_bitboards_comm : (p o : ℕ) → game_over_for_bitboards o p ≡ game_over_for_bitboards p o
unfolding game_over_for_bitboards
game_over_for_bitboards_comm p o = ground arith

-- The evaluation takes a game to be over when the rules do.
pub evaluation_scratch-game_over :
    (b : Board) (side : Side) → (board_evaluation_scratch b side).game_over ≡ is_game_over b
unfolding board_evaluation_scratch make_evaluation_scratch game_over_for_bitboards discs discs_of
    opponent
evaluation_scratch-game_over b Side.black =
    game_over_for_bitboards-legal_moves b.black b.white
    ∙ sym (is_game_over-legal_moves b.black b.white b.side_to_move)
evaluation_scratch-game_over b Side.white =
    game_over_for_bitboards_comm b.black b.white
    ∙ game_over_for_bitboards-legal_moves b.black b.white
    ∙ sym (is_game_over-legal_moves b.black b.white b.side_to_move)
