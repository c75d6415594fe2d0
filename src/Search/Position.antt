-- ===== src/Search/Position.antt =====
-- src/search_common.hpp: positions seen from the player to move, and their scores.
use vibe_othello_engine.Base.{ℕ, bit_or, bit_and}
use vibe_othello_engine.Base.Int.{ℤ, pos, ◌-ℤ◌}
use vibe_othello_engine.Bits.U64.{complement}
use vibe_othello_engine.Bits.Scan.{popcount}
use vibe_othello_engine.Board as Boards
use vibe_othello_engine.Board.{Side, opponent, Board, discs}
use vibe_othello_engine.Board.Square.{Square, square_bit}
use vibe_othello_engine.Rules.Moves

pub record SearchPosition : Type 0 where
  pub player : ℕ
  pub opponent_discs : ℕ
  pub side_to_move : Side

unfoldable pub from_board : Board → SearchPosition
from_board board = record {
  player = discs board board.side_to_move;
  opponent_discs = discs board (opponent board.side_to_move);
  side_to_move = board.side_to_move;
}

unfoldable pub board_of : Side → ℕ → ℕ → Board
board_of Side.black player opponent_discs = record {
  black = player;
  white = opponent_discs;
  side_to_move = Side.black;
}
board_of Side.white player opponent_discs = record {
  black = opponent_discs;
  white = player;
  side_to_move = Side.white;
}

unfoldable pub to_board : SearchPosition → Board
to_board position = board_of position.side_to_move position.player position.opponent_discs

unfoldable pub occupied : SearchPosition → ℕ
occupied position = bit_or position.player position.opponent_discs

unfoldable pub empty : SearchPosition → ℕ
empty position = complement (occupied position)

unfoldable pub board_empty_count : Board → ℕ
board_empty_count board = popcount (Boards.empty board)

unfoldable pub empty_count : SearchPosition → ℕ
empty_count position = popcount (empty position)

unfoldable pub legal_moves : SearchPosition → ℕ
legal_moves position = Moves.legal_moves_for position.player position.opponent_discs

unfoldable pub flips_for_move : SearchPosition → Square → ℕ
flips_for_move position square =
    Moves.flips_for_move_for position.player position.opponent_discs square

unfoldable pub flips_for_move_bit : SearchPosition → ℕ → ℕ
flips_for_move_bit position move_bit =
    Moves.flips_for_move_bit position.player position.opponent_discs move_bit

unfoldable pub flips_for_known_empty_move : SearchPosition → ℕ → ℕ
flips_for_known_empty_move position move_bit =
    Moves.flips_for_known_empty_move position.player position.opponent_discs move_bit

unfoldable pub position_after_move_bit : SearchPosition → ℕ → ℕ → SearchPosition
position_after_move_bit position move_bit flips = record {
  player = bit_and position.opponent_discs (complement flips);
  opponent_discs = bit_or (bit_or position.player move_bit) flips;
  side_to_move = opponent position.side_to_move;
}

unfoldable pub position_after_move : SearchPosition → Square → ℕ → SearchPosition
position_after_move position square flips =
    position_after_move_bit position (square_bit square) flips

unfoldable pub position_after_pass : SearchPosition → SearchPosition
position_after_pass position = record {
  player = position.opponent_discs;
  opponent_discs = position.player;
  side_to_move = opponent position.side_to_move;
}

unfoldable pub score_for_player : SearchPosition → ℤ
score_for_player position = pos (popcount position.player) -ℤ pos (popcount position.opponent_discs)
