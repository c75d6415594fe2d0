-- ===== src/Patterns/Tables.antt =====
-- include/othello/evaluation_patterns.hpp and src/evaluation_patterns.cpp: the tables of the
-- rules, the tables that a configuration gives, and the scores of a position.
use vibe_othello_engine.Base.{ℕ, zero, suc, List, [], ◌∷◌, get_or, leb, if◌then◌else◌}
use vibe_othello_engine.Base.Int.{ℤ, pos, negsuc, ◌+ℤ◌}
use vibe_othello_engine.Board.{Side, Board}
use vibe_othello_engine.Patterns.Corners
use vibe_othello_engine.Patterns.Lines
use vibe_othello_engine.Patterns.Index.{
  PatternIndexContext, pattern_index_for_squares, players_context, corner_2x3_pattern_index,
  edge_8_pattern_index,
}
use vibe_othello_engine.Patterns.Squares.{corner_2x3_squares, edge_8_squares}
use vibe_othello_engine.Patterns.Rules.{corner_2x3_rule_value, edge_8_rule_value}

abbrev pub corner_2x3_pattern_table_size : ℕ
corner_2x3_pattern_table_size = 729

abbrev pub corner_3x3_pattern_table_size : ℕ
corner_3x3_pattern_table_size = 19683

abbrev pub edge_8_pattern_table_size : ℕ
edge_8_pattern_table_size = 6561

abbrev pub edge_x_10_pattern_table_size : ℕ
edge_x_10_pattern_table_size = 59049

abbrev pub row_8_pattern_table_size : ℕ
row_8_pattern_table_size = 6561

abbrev pub column_8_pattern_table_size : ℕ
column_8_pattern_table_size = 6561

abbrev pub diagonal_4_pattern_table_size : ℕ
diagonal_4_pattern_table_size = 81

abbrev pub diagonal_5_pattern_table_size : ℕ
diagonal_5_pattern_table_size = 243

abbrev pub diagonal_6_pattern_table_size : ℕ
diagonal_6_pattern_table_size = 729

abbrev pub diagonal_7_pattern_table_size : ℕ
diagonal_7_pattern_table_size = 2187

abbrev pub diagonal_8_pattern_table_size : ℕ
diagonal_8_pattern_table_size = 6561

abbrev pub inner_row_8_pattern_table_size : ℕ
inner_row_8_pattern_table_size = 6561

abbrev pub corner_2x4_pattern_table_size : ℕ
corner_2x4_pattern_table_size = 6561

-- The loop that fills a table from the index on.
unfoldable pub fill_table : (ℕ → ℤ) → ℕ → ℕ → List ℤ
fill_table rule_value zero index = []
fill_table rule_value (suc count) index = rule_value index ∷ fill_table rule_value count (suc index)

unfoldable pub make_corner_2x3_pattern_table : List ℤ
make_corner_2x3_pattern_table = fill_table corner_2x3_rule_value corner_2x3_pattern_table_size 0

unfoldable pub make_edge_8_pattern_table : List ℤ
make_edge_8_pattern_table = fill_table edge_8_rule_value edge_8_pattern_table_size 0

-- A read of an array at an index that is checked.
unfoldable pub checked_value : List ℤ → ℕ → ℤ → ℤ
checked_value table size (negsuc n) = pos 0
checked_value table size (pos index) = if leb size index then pos 0 else get_or table index (pos 0)

unfoldable pub corner_2x3_pattern_table_value : ℤ → ℤ
corner_2x3_pattern_table_value index =
    checked_value make_corner_2x3_pattern_table corner_2x3_pattern_table_size index

unfoldable pub edge_8_pattern_table_value : ℤ → ℤ
edge_8_pattern_table_value index =
    checked_value make_edge_8_pattern_table edge_8_pattern_table_size index

unfoldable pub corner_2x3_sum : Board → Side → List Corners.Corner2x3PatternSpec → ℤ → ℤ
corner_2x3_sum board side [] value = value
corner_2x3_sum board side (spec ∷ specs) value = corner_2x3_sum board side specs (
    value +ℤ corner_2x3_pattern_table_value (pos (corner_2x3_pattern_index board side spec.corner)))

unfoldable pub corner_2x3_pattern_value : Board → Side → ℤ
corner_2x3_pattern_value board side =
    corner_2x3_sum board side Corners.corner_2x3_pattern_specs (pos 0)

unfoldable pub edge_8_sum : Board → Side → List Lines.Edge8PatternSpec → ℤ → ℤ
edge_8_sum board side [] value = value
edge_8_sum board side (spec ∷ specs) value =
    edge_8_sum board side specs
      (value +ℤ edge_8_pattern_table_value (pos (edge_8_pattern_index board side spec.edge)))

unfoldable pub edge_8_pattern_value : Board → Side → ℤ
edge_8_pattern_value board side = edge_8_sum board side Lines.edge_8_pattern_specs (pos 0)

-- The sum of a rule's values at the patterns, for the bitboards of the two players.
unfoldable pub sum_rule : (ℤ → ℤ) → PatternIndexContext → List (List ℕ) → ℤ → ℤ
sum_rule table_value context [] value = value
sum_rule table_value context (squares ∷ patterns) value =
    sum_rule table_value context patterns
      (value +ℤ table_value (pos (pattern_index_for_squares context squares)))

unfoldable pub corner_2x3_pattern_score : ℕ → ℕ → ℤ
corner_2x3_pattern_score player opponent_discs =
    sum_rule corner_2x3_pattern_table_value (players_context player opponent_discs)
      corner_2x3_squares (pos 0)

unfoldable pub edge_8_pattern_score : ℕ → ℕ → ℤ
edge_8_pattern_score player opponent_discs =
    sum_rule edge_8_pattern_table_value (players_context player opponent_discs) edge_8_squares
      (pos 0)
