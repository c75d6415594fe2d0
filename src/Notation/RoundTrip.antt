-- ===== src/Notation/RoundTrip.antt =====
-- Printing a board and parsing the text.

use vibe_othello_engine.Base.{ℕ, ◌≡◌, refl, ◌∙◌, arith, [], some, false, ◌==◌}
use vibe_othello_engine.Bits.Word.{bit-zero}
use vibe_othello_engine.Bits.U64.{word_ext}
use vibe_othello_engine.Board.{Side, Board}
use vibe_othello_engine.Rules.Play.{IsBoard}
use vibe_othello_engine.Notation.{
  newline, split_line, take_line, no_discs, same_text, parse_side, side_text, side_letter,
  board_from_string, to_string,
}
use vibe_othello_engine.Notation.Rows.{IsRead, seen, parse_rows-rows_text}

no_discs-IsRead : (b : Board) → IsRead b 0 7 no_discs
unfolding seen
no_discs-IsRead b = record {
  black_fits = omega arith;
  white_fits = omega arith;
  black_read = λ i h. bit-zero i ∙ ground arith;
  white_read = λ i h. bit-zero i ∙ ground arith;
}

read_all : (b n : Board) → IsBoard b → IsRead b 8 0 n → (n.black ≡ b.black) × (n.white ≡ b.white)
unfolding seen
read_all b n v r = (
  word_ext r.black_fits v.black_fits (λ i h. r.black_read i h ∙ ground arith),
  word_ext r.white_fits v.white_fits (λ i h. r.white_read i h ∙ ground arith),
)

take_line-side_text :
    (letter : ℕ)
    → (letter == newline) ≡ false
    → take_line (side_text letter) ≡ some (side_text letter, [])
unfolding take_line split_line
take_line-side_text letter h = rw h

parse_side-side_text : (side : Side) → parse_side (side_text (side_letter side)) ≡ some side
unfolding parse_side same_text
parse_side-side_text Side.black = refl
parse_side-side_text Side.white = refl

side_letter-ne-newline : (side : Side) → (side_letter side == newline) ≡ false
side_letter-ne-newline Side.black = refl
side_letter-ne-newline Side.white = refl

-- Parsing the text of a well-formed board gives the board back.
pub board_from_string-to_string : (b : Board) → IsBoard b → board_from_string (to_string b) ≡ some b
unfolding board_from_string to_string
board_from_string-to_string b v =
    let (n, rows, r) =
      parse_rows-rows_text b v 7 (side_text (side_letter b.side_to_move)) no_discs (omega arith)
        (no_discs-IsRead b) in
    let (black, white) = read_all b n v r in
    rw (
      rows,
      take_line-side_text (side_letter b.side_to_move) (side_letter-ne-newline b.side_to_move),
      parse_side-side_text b.side_to_move,
      black,
      white,
    )
