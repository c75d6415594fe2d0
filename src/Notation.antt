-- ===== src/Notation.antt =====
-- src/notation.cpp: boards as text. A text is the list of its bytes.
pub mod Rows
pub mod RoundTrip
pub mod Accepts
use vibe_othello_engine.Base.{
  ℕ, zero, suc, ◌+◌, ◌*◌, List, [], ◌∷◌, ◌++◌, Option, none, some, Bool, true, false, not, ◌&&◌,
  ◌==◌, bit_or, bit_and, if◌then◌else◌, length,
}
use vibe_othello_engine.Bits.U64.{single}
use vibe_othello_engine.Board.{Side, Board}
use vibe_othello_engine.Board.Square.{square_index}

abbrev pub newline : ℕ
newline = 10

infixl 5 ◌>>=◌
abbrev pub ◌>>=◌ {ℓ κ} : {A : Type ℓ} {B : Type κ} → Option A → (A → Option B) → Option B
none >>= f = none
some a >>= f = f a

unfoldable pub bit_at : ℕ → ℕ → ℕ
bit_at file rank = single (square_index file rank)

abbrev pub cons_to_line : ℕ → List ℕ × List ℕ → List ℕ × List ℕ
cons_to_line c (line, rest) = (c ∷ line, rest)

-- The text up to the first newline, and what follows it.
unfoldable pub split_line : List ℕ → List ℕ × List ℕ
split_line [] = ([], [])
split_line (c ∷ text) = if c == newline then ([], text) else cons_to_line c (split_line text)

-- `take_line`: the line, and the text that is left.
unfoldable pub take_line : List ℕ → Option (List ℕ × List ℕ)
take_line [] = none
take_line (c ∷ text) = some (split_line (c ∷ text))

-- The `switch` over one character of a row.
unfoldable pub parse_cell : ℕ → ℕ → Board → Option Board
parse_cell c bit board =
    if c == b'B'
    then some (record board { black = bit_or board.black bit })
    else if c == b'W'
    then some (record board { white = bit_or board.white bit })
    else if c == b'.'
    then some board
    else none

-- The loop over the files, from one on.
unfoldable pub parse_cells : ℕ → ℕ → List ℕ → Board → Option Board
parse_cells file rank [] board = some board
parse_cells file rank (c ∷ row) board =
    parse_cell c (bit_at file rank) board >>= parse_cells (file + 1) rank row

unfoldable pub parse_board_row : List ℕ → ℕ → Board → Option Board
parse_board_row row rank board =
    if not (length row == 8) then none else parse_cells 0 rank row board

-- The rows that are left, the top rank first: with n left the next one is rank n - 1.
unfoldable pub parse_rows : ℕ → List ℕ → Board → Option (Board × List ℕ)
parse_rows zero text board = some (board, text)
parse_rows (suc rank) text board = do
  (row, rest) ← take_line text
  next ← parse_board_row row rank board
  parse_rows rank rest next

unfoldable pub same_text : List ℕ → List ℕ → Bool
same_text [] [] = true
same_text (c ∷ s) (d ∷ t) = c == d && same_text s t
same_text _ _ = false

-- "side=B" and "side=W".
abbrev pub side_text : ℕ → List ℕ
side_text letter = b's' ∷ b'i' ∷ b'd' ∷ b'e' ∷ b'=' ∷ letter ∷ []

unfoldable pub parse_side : List ℕ → Option Side
parse_side line =
    if same_text line (side_text b'B')
    then some Side.black
    else if same_text line (side_text b'W')
    then some Side.white
    else none

abbrev pub no_discs : Board
no_discs = record { black = 0; white = 0; side_to_move = Side.black }

abbrev pub at_end : List ℕ → Board → Option Board
at_end [] board = some board
at_end (c ∷ text) board = none

unfoldable pub board_from_string : List ℕ → Option Board
board_from_string text = do
  (board, rest) ← parse_rows 8 text no_discs
  (line, left) ← take_line rest
  side ← parse_side line
  at_end left (record board { side_to_move = side })

unfoldable pub cell_text : Board → ℕ → ℕ
cell_text board bit =
    if not (bit_and board.black bit == 0)
    then b'B'
    else if not (bit_and board.white bit == 0)
    then b'W'
    else b'.'

unfoldable pub cells_text : ℕ → ℕ → ℕ → Board → List ℕ
cells_text zero file rank board = []
cells_text (suc left) file rank board =
    cell_text board (bit_at file rank) ∷ cells_text left (file + 1) rank board

unfoldable pub rows_text : ℕ → Board → List ℕ
rows_text zero board = []
rows_text (suc rank) board = cells_text 8 0 rank board ++ newline ∷ rows_text rank board

abbrev pub side_letter : Side → ℕ
side_letter Side.black = b'B'
side_letter Side.white = b'W'

unfoldable pub to_string : Board → List ℕ
to_string board = rows_text 8 board ++ side_text (side_letter board.side_to_move)
