-- ===== src/Patterns/Squares.antt =====
-- The squares of the patterns of each family.
use vibe_othello_engine.Base.{ℕ, List, map}
use vibe_othello_engine.Patterns.Corners
use vibe_othello_engine.Patterns.Lines
use vibe_othello_engine.Patterns.Diagonals

abbrev pub corner_2x3_squares : List (List ℕ)
corner_2x3_squares =
    map (λ (spec : Corners.Corner2x3PatternSpec). spec.square_indexes)
      Corners.corner_2x3_pattern_specs

abbrev pub corner_3x3_squares : List (List ℕ)
corner_3x3_squares =
    map (λ (spec : Corners.Corner3x3PatternSpec). spec.square_indexes)
      Corners.corner_3x3_pattern_specs

abbrev pub edge_8_squares : List (List ℕ)
edge_8_squares =
    map (λ (spec : Lines.Edge8PatternSpec). spec.square_indexes) Lines.edge_8_pattern_specs

abbrev pub edge_x_10_squares : List (List ℕ)
edge_x_10_squares =
    map (λ (spec : Lines.EdgeX10PatternSpec). spec.square_indexes) Lines.edge_x_10_pattern_specs

abbrev pub row_8_squares : List (List ℕ)
row_8_squares =
    map (λ (spec : Lines.Row8PatternSpec). spec.square_indexes) Lines.row_8_pattern_specs

abbrev pub column_8_squares : List (List ℕ)
column_8_squares =
    map (λ (spec : Lines.Column8PatternSpec). spec.square_indexes) Lines.column_8_pattern_specs

abbrev pub diagonal_4_squares : List (List ℕ)
diagonal_4_squares =
    map (λ (spec : Diagonals.IndexedPatternSpec). spec.square_indexes)
      Diagonals.diagonal_4_pattern_specs

abbrev pub diagonal_5_squares : List (List ℕ)
diagonal_5_squares =
    map (λ (spec : Diagonals.IndexedPatternSpec). spec.square_indexes)
      Diagonals.diagonal_5_pattern_specs

abbrev pub diagonal_6_squares : List (List ℕ)
diagonal_6_squares =
    map (λ (spec : Diagonals.IndexedPatternSpec). spec.square_indexes)
      Diagonals.diagonal_6_pattern_specs

abbrev pub diagonal_7_squares : List (List ℕ)
diagonal_7_squares =
    map (λ (spec : Diagonals.IndexedPatternSpec). spec.square_indexes)
      Diagonals.diagonal_7_pattern_specs

abbrev pub diagonal_8_squares : List (List ℕ)
diagonal_8_squares =
    map (λ (spec : Diagonals.Diagonal8PatternSpec). spec.square_indexes)
      Diagonals.diagonal_8_pattern_specs

abbrev pub inner_row_8_squares : List (List ℕ)
inner_row_8_squares =
    map (λ (spec : Lines.InnerRow8PatternSpec). spec.square_indexes) Lines.inner_row_8_pattern_specs

abbrev pub corner_2x4_squares : List (List ℕ)
corner_2x4_squares =
    map (λ (spec : Corners.Corner2x4PatternSpec). spec.square_indexes)
      Corners.corner_2x4_pattern_specs
