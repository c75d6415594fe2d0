-- ===== src/Board/Coordinates.antt =====
-- Square names, `square_from_string` and `to_string` of src/square.cpp: a round trip both ways.
use vibe_othello_engine.Base.{ℕ, ◌≡◌, arith, List, [], ◌∷◌, some}
use vibe_othello_engine.Board.Square.{
  Square, IsSquare, from_index, file, rank, square_index, square_from_string, square_to_string,
}

-- Parsing the name of a square gives the square back.
pub square_from_string-square_to_string :
    (s : Square) → IsSquare s → square_from_string (square_to_string s) ≡ some s
unfolding square_from_string square_to_string file rank square_index from_index
square_from_string-square_to_string s h = ground arith

parsed_coordinates :
    (f r : ℕ) (s : Square)
    → square_from_string (f ∷ r ∷ []) ≡ some s
    → IsSquare s × (square_to_string s ≡ f ∷ r ∷ [])
unfolding square_from_string square_to_string file rank square_index from_index
parsed_coordinates f r s e = ground arith

-- A text that is accepted is the name of the square that it gives, which is on the board.
pub square_to_string-square_from_string :
    (text : List ℕ) (s : Square)
    → square_from_string text ≡ some s
    → IsSquare s × (square_to_string s ≡ text)
unfolding square_from_string
square_to_string-square_from_string [] s e = cc
square_to_string-square_from_string (f ∷ []) s e = cc
square_to_string-square_from_string (f ∷ r ∷ []) s e = parsed_coordinates f r s e
square_to_string-square_from_string (f ∷ r ∷ c ∷ text) s e = cc
