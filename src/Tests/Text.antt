-- ===== src/Tests/Text.antt =====
-- The theorems on texts, at the initial board and at a square.
use vibe_othello_engine.Base.{◌≡◌, refl, arith, some, [], ◌∷◌}
use vibe_othello_engine.Board.{initial}
use vibe_othello_engine.Board.Coordinates.{
  square_from_string-square_to_string, square_to_string-square_from_string,
}
use vibe_othello_engine.Board.Square.{
  IsSquare, from_index, square_index, square_from_string, square_to_string,
}
use vibe_othello_engine.Notation.{board_from_string, to_string}
use vibe_othello_engine.Notation.Accepts.{board_from_string-IsBoard}
use vibe_othello_engine.Notation.RoundTrip.{board_from_string-to_string}
use vibe_othello_engine.Rules.Game.{initial-IsBoard}
use vibe_othello_engine.Rules.Play.{IsBoard}
use vibe_othello_engine.Tests.Program.{d3}

square_from_string-square_to_string_example : square_from_string (square_to_string d3) ≡ some d3
square_from_string-square_to_string_example = square_from_string-square_to_string d3 (omega arith)

parsed_d3 : square_from_string (b'd' ∷ b'3' ∷ []) ≡ some d3
unfolding square_from_string from_index square_index
parsed_d3 = refl

square_to_string-square_from_string_example : IsSquare d3 × (square_to_string d3 ≡ b'd' ∷ b'3' ∷ [])
square_to_string-square_from_string_example =
    square_to_string-square_from_string (b'd' ∷ b'3' ∷ []) d3 parsed_d3

board_from_string-to_string_example : board_from_string (to_string initial) ≡ some initial
board_from_string-to_string_example = board_from_string-to_string initial initial-IsBoard

board_from_string-IsBoard_example : IsBoard initial
board_from_string-IsBoard_example =
    board_from_string-IsBoard (to_string initial) initial
      (board_from_string-to_string initial initial-IsBoard)
