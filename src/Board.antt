-- ===== src/Board.antt =====
-- include/othello/types.hpp, square.hpp and board.hpp: sides, squares and boards.
pub mod Square
pub mod Coordinates
use Prim.Native.Nat.{ℕ}
use vibe_othello_engine.Base.{bit_or}
use vibe_othello_engine.Bits.U64.{complement, single}

pub data Side : Type 0 where
  black white : Side

unfoldable pub opponent : Side → Side
opponent Side.black = Side.white
opponent Side.white = Side.black

pub record Board : Type 0 where
  pub black : ℕ
  pub white : ℕ
  pub side_to_move : Side

unfoldable pub initial : Board
initial = record {
  black = bit_or (single 28) (single 35);
  white = bit_or (single 27) (single 36);
  side_to_move = Side.black;
}

unfoldable pub discs_of : Board → Side → ℕ
discs_of b Side.black = b.black
discs_of b Side.white = b.white

unfoldable pub discs : Board → Side → ℕ
discs b side = discs_of b side

unfoldable pub occupied : Board → ℕ
occupied b = bit_or b.black b.white

unfoldable pub empty : Board → ℕ
empty b = complement (occupied b)
