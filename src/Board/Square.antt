-- ===== src/Board/Square.antt =====
-- include/othello/square.hpp and src/square.cpp: a square is an index from 0 to 63.
use vibe_othello_engine.Base.{
  ℕ, ◌+◌, ◌-◌, ◌*◌, ◌/◌, ◌%◌, ◌<◌, ◌||◌, Option, none, some, List, [], ◌∷◌, ltb, if◌then◌else◌,
}
use vibe_othello_engine.Base.Int.{ℤ, pos, negsuc, ltb_ℤ}
use vibe_othello_engine.Bits.U64.{single}

pub record Square : Type 0 where
  pub index : ℕ

abbrev pub IsSquare : Square → Type 0
IsSquare s = s.index < 64

abbrev pub min_index : ℤ
min_index = pos 0

abbrev pub max_index : ℤ
max_index = pos 63

unfoldable pub from_index : ℤ → Option Square
from_index (pos n) =
    if ltb_ℤ (pos n) min_index || ltb_ℤ max_index (pos n) then none else some (record { index = n })
from_index (negsuc n) = none

unfoldable pub file : Square → ℕ
file s = s.index % 8

unfoldable pub rank : Square → ℕ
rank s = s.index / 8

unfoldable pub square_bit : Square → ℕ
square_bit s = single s.index

unfoldable pub square_index : ℕ → ℕ → ℕ
square_index f r = r * 8 + f

-- `square_from_string` and `to_string`; a character is its byte.
unfoldable pub square_from_string : List ℕ → Option Square
square_from_string (file_char ∷ rank_char ∷ []) =
    if ltb file_char b'a' || ltb b'h' file_char || ltb rank_char b'1' || ltb b'8' rank_char
    then none
    else from_index (pos (square_index (file_char - b'a') (rank_char - b'1')))
square_from_string _ = none

unfoldable pub square_to_string : Square → List ℕ
square_to_string s = (b'a' + file s) ∷ (b'1' + rank s) ∷ []
