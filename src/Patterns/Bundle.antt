-- ===== src/Patterns/Bundle.antt =====
-- include/othello/evaluation_patterns.hpp and src/evaluation_patterns.cpp: the tables that a
-- configuration gives for the families of patterns.
use vibe_othello_engine.Base.{ℕ, Bool, true, List, [], ◌∷◌, get_or, if◌then◌else◌}
use vibe_othello_engine.Base.Int.{ℤ, pos, ◌+ℤ◌}
use vibe_othello_engine.Board.{Side, Board}
use vibe_othello_engine.Patterns.Index.{
  PatternIndexContext, pattern_index_for_squares, pattern_index_context, players_context,
}
use vibe_othello_engine.Patterns.Squares.{
  corner_2x3_squares, corner_3x3_squares, edge_8_squares, edge_x_10_squares, row_8_squares,
  column_8_squares, diagonal_4_squares, diagonal_5_squares, diagonal_6_squares, diagonal_7_squares,
  diagonal_8_squares, inner_row_8_squares, corner_2x4_squares,
}

pub record PatternTableActiveFamilies : Type 0 where
  pub corner_2x3 : Bool
  pub corner_3x3 : Bool
  pub edge_8 : Bool
  pub edge_x_10 : Bool
  pub row_8 : Bool
  pub column_8 : Bool
  pub diagonal_4 : Bool
  pub diagonal_5 : Bool
  pub diagonal_6 : Bool
  pub diagonal_7 : Bool
  pub diagonal_8 : Bool
  pub inner_row_8 : Bool
  pub corner_2x4 : Bool

unfoldable pub all_pattern_table_families_active : PatternTableActiveFamilies
all_pattern_table_families_active = record {
  corner_2x3 = true;
  corner_3x3 = true;
  edge_8 = true;
  edge_x_10 = true;
  row_8 = true;
  column_8 = true;
  diagonal_4 = true;
  diagonal_5 = true;
  diagonal_6 = true;
  diagonal_7 = true;
  diagonal_8 = true;
  inner_row_8 = true;
  corner_2x4 = true;
}

-- The tables hold integers of 16 bits.
pub record PatternTableBundle : Type 0 where
  pub active_families : PatternTableActiveFamilies
  pub corner_2x3 : List ℤ
  pub corner_3x3 : List ℤ
  pub edge_8 : List ℤ
  pub edge_x_10 : List ℤ
  pub row_8 : List ℤ
  pub column_8 : List ℤ
  pub diagonal_4 : List ℤ
  pub diagonal_5 : List ℤ
  pub diagonal_6 : List ℤ
  pub diagonal_7 : List ℤ
  pub diagonal_8 : List ℤ
  pub inner_row_8 : List ℤ
  pub corner_2x4 : List ℤ

unfoldable pub sum_patterns : List ℤ → PatternIndexContext → List (List ℕ) → ℤ → ℤ
sum_patterns table context [] value = value
sum_patterns table context (squares ∷ patterns) value =
    sum_patterns table context patterns
      (value +ℤ get_or table (pattern_index_for_squares context squares) (pos 0))

unfoldable pub add_family : Bool → List ℤ → PatternIndexContext → List (List ℕ) → ℤ → ℤ
add_family active table context patterns value =
    if active then sum_patterns table context patterns value else value

-- The body that the two functions on a board and on the bitboards share.
unfoldable pub pattern_tables_value : PatternIndexContext → PatternTableBundle → ℤ
pattern_tables_value context tables =
    let active = tables.active_families in
    let value0 =
      add_family (active.corner_2x3) (tables.corner_2x3) context corner_2x3_squares (pos 0) in
    let value1 =
      add_family (active.corner_3x3) (tables.corner_3x3) context corner_3x3_squares (value0) in
    let value2 = add_family (active.edge_8) (tables.edge_8) context edge_8_squares (value1) in
    let value3 =
      add_family (active.edge_x_10) (tables.edge_x_10) context edge_x_10_squares (value2) in
    let value4 = add_family (active.row_8) (tables.row_8) context row_8_squares (value3) in
    let value5 = add_family (active.column_8) (tables.column_8) context column_8_squares (value4) in
    let value6 =
      add_family (active.diagonal_4) (tables.diagonal_4) context diagonal_4_squares (value5) in
    let value7 =
      add_family (active.diagonal_5) (tables.diagonal_5) context diagonal_5_squares (value6) in
    let value8 =
      add_family (active.diagonal_6) (tables.diagonal_6) context diagonal_6_squares (value7) in
    let value9 =
      add_family (active.diagonal_7) (tables.diagonal_7) context diagonal_7_squares (value8) in
    let value10 =
      add_family (active.diagonal_8) (tables.diagonal_8) context diagonal_8_squares (value9) in
    let value11 =
      add_family (active.inner_row_8) (tables.inner_row_8) context inner_row_8_squares (value10) in
    add_family (active.corner_2x4) (tables.corner_2x4) context corner_2x4_squares value11

unfoldable pub evaluation_pattern_table_value : Board → Side → PatternTableBundle → ℤ
evaluation_pattern_table_value board side tables =
    pattern_tables_value (pattern_index_context board side) tables

unfoldable pub evaluation_pattern_table_score : ℕ → ℕ → PatternTableBundle → ℤ
evaluation_pattern_table_score player opponent_discs tables =
    pattern_tables_value (players_context player opponent_discs) tables
