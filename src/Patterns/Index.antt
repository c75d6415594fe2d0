-- ===== src/Patterns/Index.antt =====
-- src/evaluation_patterns.cpp: the index of a pattern, a number in base three with a digit for
-- the state of each square.
use vibe_othello_engine.Base.{ℕ, ◌+◌, ◌*◌, bit_and, List, [], ◌∷◌, ◌==◌, not, if◌then◌else◌}
use vibe_othello_engine.Base.Int.{ℤ}
use vibe_othello_engine.Bits.U64.{single}
use vibe_othello_engine.Board.{Side, opponent, Board, discs}
use vibe_othello_engine.Patterns.Corners.{
  Corner2x3PatternCorner, corner_2x3_pattern_spec, Corner3x3PatternCorner, corner_3x3_pattern_spec,
  Corner2x4PatternCorner, corner_2x4_pattern_spec,
}
use vibe_othello_engine.Patterns.Lines.{
  Edge8PatternEdge, edge_8_pattern_spec, EdgeX10PatternEdge, edge_x_10_pattern_spec, Row8PatternRow,
  row_8_pattern_spec, Column8PatternColumn, column_8_pattern_spec, InnerRow8PatternLine,
  inner_row_8_pattern_spec,
}
use vibe_othello_engine.Patterns.Diagonals.{
  indexed_pattern_spec, first_diagonal_4, diagonal_4_pattern_specs, first_diagonal_5,
  diagonal_5_pattern_specs, first_diagonal_6, diagonal_6_pattern_specs, first_diagonal_7,
  diagonal_7_pattern_specs, Diagonal8PatternDiagonal, diagonal_8_pattern_spec,
}

pub record PatternIndexContext : Type 0 where
  pub own : ℕ
  pub opponent_discs : ℕ

-- The state of a square: 0 if it is empty, 1 if it is the player's, 2 if it is the opponent's.
unfoldable pub square_state : PatternIndexContext → ℕ → ℕ
square_state context square_index =
    if not (bit_and context.own (single square_index) == 0)
    then 1
    else if not (bit_and context.opponent_discs (single square_index) == 0)
    then 2
    else 0

unfoldable pub index_loop : PatternIndexContext → List ℕ → ℕ → ℕ → ℕ
index_loop context [] index place_value = index
index_loop context (square_index ∷ square_indexes) index place_value =
    index_loop context square_indexes (index + square_state context square_index * place_value)
      (place_value * 3)

unfoldable pub pattern_index_for_squares : PatternIndexContext → List ℕ → ℕ
pattern_index_for_squares context square_indexes = index_loop context square_indexes 0 1

unfoldable pub pattern_index_context : Board → Side → PatternIndexContext
pattern_index_context board side = record {
  own = discs board side;
  opponent_discs = discs board (opponent side);
}

unfoldable pub players_context : ℕ → ℕ → PatternIndexContext
players_context player opponent_discs = record { own = player; opponent_discs = opponent_discs }

unfoldable pub board_pattern_index : Board → Side → List ℕ → ℕ
board_pattern_index board side square_indexes =
    pattern_index_for_squares (pattern_index_context board side) square_indexes

unfoldable pub corner_2x3_pattern_index : Board → Side → Corner2x3PatternCorner → ℕ
corner_2x3_pattern_index board side corner =
    board_pattern_index board side ((corner_2x3_pattern_spec corner).square_indexes)

unfoldable pub corner_3x3_pattern_index : Board → Side → Corner3x3PatternCorner → ℕ
corner_3x3_pattern_index board side corner =
    board_pattern_index board side ((corner_3x3_pattern_spec corner).square_indexes)

unfoldable pub edge_8_pattern_index : Board → Side → Edge8PatternEdge → ℕ
edge_8_pattern_index board side edge =
    board_pattern_index board side ((edge_8_pattern_spec edge).square_indexes)

unfoldable pub edge_x_10_pattern_index : Board → Side → EdgeX10PatternEdge → ℕ
edge_x_10_pattern_index board side edge =
    board_pattern_index board side ((edge_x_10_pattern_spec edge).square_indexes)

unfoldable pub row_8_pattern_index : Board → Side → Row8PatternRow → ℕ
row_8_pattern_index board side row =
    board_pattern_index board side ((row_8_pattern_spec row).square_indexes)

unfoldable pub column_8_pattern_index : Board → Side → Column8PatternColumn → ℕ
column_8_pattern_index board side column =
    board_pattern_index board side ((column_8_pattern_spec column).square_indexes)

unfoldable pub diagonal_8_pattern_index : Board → Side → Diagonal8PatternDiagonal → ℕ
diagonal_8_pattern_index board side diagonal =
    board_pattern_index board side ((diagonal_8_pattern_spec diagonal).square_indexes)

unfoldable pub inner_row_8_pattern_index : Board → Side → InnerRow8PatternLine → ℕ
inner_row_8_pattern_index board side line =
    board_pattern_index board side ((inner_row_8_pattern_spec line).square_indexes)

unfoldable pub corner_2x4_pattern_index : Board → Side → Corner2x4PatternCorner → ℕ
corner_2x4_pattern_index board side corner =
    board_pattern_index board side ((corner_2x4_pattern_spec corner).square_indexes)

unfoldable pub diagonal_4_pattern_index : Board → Side → ℤ → ℕ
diagonal_4_pattern_index board side instance_index =
    board_pattern_index board side (
      (indexed_pattern_spec diagonal_4_pattern_specs first_diagonal_4
        instance_index).square_indexes)

unfoldable pub diagonal_5_pattern_index : Board → Side → ℤ → ℕ
diagonal_5_pattern_index board side instance_index =
    board_pattern_index board side (
      (indexed_pattern_spec diagonal_5_pattern_specs first_diagonal_5
        instance_index).square_indexes)

unfoldable pub diagonal_6_pattern_index : Board → Side → ℤ → ℕ
diagonal_6_pattern_index board side instance_index =
    board_pattern_index board side (
      (indexed_pattern_spec diagonal_6_pattern_specs first_diagonal_6
        instance_index).square_indexes)

unfoldable pub diagonal_7_pattern_index : Board → Side → ℤ → ℕ
diagonal_7_pattern_index board side instance_index =
    board_pattern_index board side (
      (indexed_pattern_spec diagonal_7_pattern_specs first_diagonal_7
        instance_index).square_indexes)
