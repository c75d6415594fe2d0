-- ===== src/Tests/Evaluation.antt =====
-- The theorems on the evaluation and the patterns, at the opening.
use vibe_othello_engine.Base.{ℕ, ◌≡◌, ◌<◌, refl, ◌^◌, List, [], ◌∷◌, map, length, false}
use vibe_othello_engine.Bits.U64.{single, shift_left}
use vibe_othello_engine.Board.{Side, opponent, initial}
use vibe_othello_engine.Rules.Game.{initial-IsBoard}
use vibe_othello_engine.Rules.Moves.{is_game_over}
use vibe_othello_engine.Patterns.Index.{
  PatternIndexContext, square_state, index_loop, pattern_index_for_squares,
}
use vibe_othello_engine.Patterns.Digits.{
  digits, Reads, pattern_index_for_squares-digits, pattern_tables-Reads,
}
use vibe_othello_engine.Patterns.RuleSides.{opposite}
use vibe_othello_engine.Patterns.Squares.{
  corner_2x3_squares, corner_3x3_squares, edge_8_squares, edge_x_10_squares, row_8_squares,
  column_8_squares, diagonal_4_squares, diagonal_5_squares, diagonal_6_squares, diagonal_7_squares,
  diagonal_8_squares, inner_row_8_squares, corner_2x4_squares,
}
use vibe_othello_engine.Patterns.Tables.{
  corner_2x3_pattern_table_size, corner_3x3_pattern_table_size, edge_8_pattern_table_size,
  edge_x_10_pattern_table_size, row_8_pattern_table_size, column_8_pattern_table_size,
  diagonal_4_pattern_table_size, diagonal_5_pattern_table_size, diagonal_6_pattern_table_size,
  diagonal_7_pattern_table_size, diagonal_8_pattern_table_size, inner_row_8_pattern_table_size,
  corner_2x4_pattern_table_size,
}
use vibe_othello_engine.Evaluation.Config.{default_evaluation_config}
use vibe_othello_engine.Evaluation.Features.{board_evaluation_scratch}
use vibe_othello_engine.Evaluation.Terms.{has_pattern_table_feature_surface, is_nonzero, is_present}
use vibe_othello_engine.Evaluation.Evaluate.{
  evaluate_bitboards, evaluate_slow, evaluate_with_config, evaluate_basic_breakdown,
}
use vibe_othello_engine.Evaluation.Agree.{
  evaluate_bitboards-evaluate_slow, evaluate_basic_breakdown-total,
}
use vibe_othello_engine.Evaluation.Over.{evaluation_scratch-game_over}
use vibe_othello_engine.Evaluation.Sides.{evaluate_with_config-opponent}
use vibe_othello_engine.Tests.Program.{opened}

no_tables_by_default : has_pattern_table_feature_surface default_evaluation_config ≡ false
unfolding has_pattern_table_feature_surface default_evaluation_config is_nonzero is_present
no_tables_by_default = refl

evaluate_bitboards-evaluate_slow_example :
    evaluate_bitboards opened.black opened.white default_evaluation_config
    ≡ evaluate_slow opened.black opened.white default_evaluation_config
evaluate_bitboards-evaluate_slow_example =
    evaluate_bitboards-evaluate_slow opened.black opened.white default_evaluation_config

evaluate_with_config-opponent_example :
    evaluate_with_config initial (opponent Side.black) default_evaluation_config
    ≡ opposite (evaluate_with_config initial Side.black default_evaluation_config)
evaluate_with_config-opponent_example =
    evaluate_with_config-opponent initial Side.black default_evaluation_config initial-IsBoard
      no_tables_by_default

evaluate_basic_breakdown-total_example :
    (evaluate_basic_breakdown opened Side.white default_evaluation_config).total
    ≡ evaluate_with_config opened Side.white default_evaluation_config
evaluate_basic_breakdown-total_example =
    evaluate_basic_breakdown-total opened Side.white default_evaluation_config

evaluation_scratch-game_over_example :
    (board_evaluation_scratch opened Side.black).game_over ≡ is_game_over opened
evaluation_scratch-game_over_example = evaluation_scratch-game_over opened Side.black

-- Black on a1, White on b1.
abbrev two_discs : PatternIndexContext
two_discs = record { own = 1; opponent_discs = 2 }

abbrev first_squares : List ℕ
first_squares = 0 ∷ 1 ∷ 2 ∷ []

small_index : pattern_index_for_squares two_discs first_squares ≡ 7
unfolding pattern_index_for_squares index_loop square_state single shift_left
small_index = refl

pattern_index_for_squares-digits_example :
    (pattern_index_for_squares two_discs first_squares < 3 ^ length first_squares)
    × (digits (length first_squares) (pattern_index_for_squares two_discs first_squares)
        ≡ map (square_state two_discs) first_squares)
pattern_index_for_squares-digits_example = pattern_index_for_squares-digits two_discs first_squares

pattern_tables-Reads_example :
    Reads two_discs corner_2x3_pattern_table_size corner_2x3_squares
    × Reads two_discs corner_3x3_pattern_table_size corner_3x3_squares
    × Reads two_discs edge_8_pattern_table_size edge_8_squares
    × Reads two_discs edge_x_10_pattern_table_size edge_x_10_squares
    × Reads two_discs row_8_pattern_table_size row_8_squares
    × Reads two_discs column_8_pattern_table_size column_8_squares
    × Reads two_discs diagonal_4_pattern_table_size diagonal_4_squares
    × Reads two_discs diagonal_5_pattern_table_size diagonal_5_squares
    × Reads two_discs diagonal_6_pattern_table_size diagonal_6_squares
    × Reads two_discs diagonal_7_pattern_table_size diagonal_7_squares
    × Reads two_discs diagonal_8_pattern_table_size diagonal_8_squares
    × Reads two_discs inner_row_8_pattern_table_size inner_row_8_squares
    × Reads two_discs corner_2x4_pattern_table_size corner_2x4_squares
pattern_tables-Reads_example = pattern_tables-Reads two_discs
