-- ===== src/Evaluation/Config.antt =====
-- include/othello/evaluation.hpp and include/othello/evaluation_feature_specs.hpp: weights,
-- configurations, breakdowns, and the list of features. A shared pointer to tables is the tables
-- or none. The keys of the features, which only the readers of configurations use, are left out.
use vibe_othello_engine.Base.{Bool, false, Option, none}
use vibe_othello_engine.Base.Int.{ℤ, pos}
use vibe_othello_engine.Patterns.Bundle.{PatternTableBundle}

pub data EvaluationPhase : Type 0 where
  opening midgame late : EvaluationPhase

pub record EvaluationFeatureWeights : Type 0 where
  pub disc_difference : ℤ
  pub mobility : ℤ
  pub potential_mobility : ℤ
  pub corner_occupancy : ℤ
  pub corner_access : ℤ
  pub x_square_danger : ℤ
  pub frontier : ℤ
  pub corner_local_2x3 : ℤ
  pub corner_2x3_pattern : ℤ
  pub edge_stability_lite : ℤ
  pub edge_8_pattern : ℤ
  pub pattern_table : ℤ

abbrev pub opening_weights : EvaluationFeatureWeights
opening_weights = record {
  disc_difference = pos 0;
  mobility = pos 8;
  potential_mobility = pos 4;
  corner_occupancy = pos 35;
  corner_access = pos 30;
  x_square_danger = pos 25;
  frontier = pos 5;
  corner_local_2x3 = pos 0;
  corner_2x3_pattern = pos 4;
  edge_stability_lite = pos 2;
  edge_8_pattern = pos 2;
  pattern_table = pos 0;
}

abbrev pub midgame_weights : EvaluationFeatureWeights
midgame_weights = record {
  disc_difference = pos 1;
  mobility = pos 10;
  potential_mobility = pos 5;
  corner_occupancy = pos 40;
  corner_access = pos 35;
  x_square_danger = pos 30;
  frontier = pos 6;
  corner_local_2x3 = pos 0;
  corner_2x3_pattern = pos 6;
  edge_stability_lite = pos 4;
  edge_8_pattern = pos 4;
  pattern_table = pos 0;
}

abbrev pub late_weights : EvaluationFeatureWeights
late_weights = record {
  disc_difference = pos 4;
  mobility = pos 6;
  potential_mobility = pos 2;
  corner_occupancy = pos 45;
  corner_access = pos 20;
  x_square_danger = pos 20;
  frontier = pos 3;
  corner_local_2x3 = pos 0;
  corner_2x3_pattern = pos 4;
  edge_stability_lite = pos 8;
  edge_8_pattern = pos 6;
  pattern_table = pos 0;
}

pub record EvaluationConfig : Type 0 where
  pub opening : EvaluationFeatureWeights
  pub midgame : EvaluationFeatureWeights
  pub late : EvaluationFeatureWeights
  pub opening_max_occupied : ℤ
  pub midgame_max_occupied : ℤ
  pub pattern_tables : Option PatternTableBundle
  pub opening_pattern_tables : Option PatternTableBundle
  pub midgame_pattern_tables : Option PatternTableBundle
  pub late_pattern_tables : Option PatternTableBundle

unfoldable pub default_evaluation_config : EvaluationConfig
default_evaluation_config = record {
  opening = opening_weights;
  midgame = midgame_weights;
  late = late_weights;
  opening_max_occupied = pos 20;
  midgame_max_occupied = pos 44;
  pattern_tables = none;
  opening_pattern_tables = none;
  midgame_pattern_tables = none;
  late_pattern_tables = none;
}

pub record EvaluationBreakdown : Type 0 where
  pub phase : EvaluationPhase
  pub occupied_count : ℤ
  pub empty_count : ℤ
  pub disc_difference : ℤ
  pub disc_difference_weight : ℤ
  pub disc_difference_score : ℤ
  pub mobility : ℤ
  pub mobility_weight : ℤ
  pub mobility_score : ℤ
  pub corner_occupancy : ℤ
  pub corner_occupancy_weight : ℤ
  pub corner_occupancy_score : ℤ
  pub potential_mobility : ℤ
  pub potential_mobility_weight : ℤ
  pub potential_mobility_score : ℤ
  pub corner_access : ℤ
  pub corner_access_weight : ℤ
  pub corner_access_score : ℤ
  pub x_square_danger : ℤ
  pub x_square_danger_weight : ℤ
  pub x_square_danger_score : ℤ
  pub frontier : ℤ
  pub frontier_weight : ℤ
  pub frontier_score : ℤ
  pub corner_local_2x3 : ℤ
  pub corner_local_2x3_weight : ℤ
  pub corner_local_2x3_score : ℤ
  pub corner_2x3_pattern : ℤ
  pub corner_2x3_pattern_weight : ℤ
  pub corner_2x3_pattern_score : ℤ
  pub edge_stability_lite : ℤ
  pub edge_stability_lite_weight : ℤ
  pub edge_stability_lite_score : ℤ
  pub edge_8_pattern : ℤ
  pub edge_8_pattern_weight : ℤ
  pub edge_8_pattern_score : ℤ
  pub pattern_table : ℤ
  pub pattern_table_weight : ℤ
  pub pattern_table_score : ℤ
  pub terminal : Bool
  pub terminal_disc_difference : ℤ
  pub terminal_score_weight : ℤ
  pub terminal_score : ℤ
  pub total : ℤ

-- The initial values of the members.
unfoldable pub no_breakdown : EvaluationBreakdown
no_breakdown = record {
  phase = EvaluationPhase.opening;
  occupied_count = pos 0;
  empty_count = pos 64;
  disc_difference = pos 0;
  disc_difference_weight = pos 0;
  disc_difference_score = pos 0;
  mobility = pos 0;
  mobility_weight = pos 0;
  mobility_score = pos 0;
  corner_occupancy = pos 0;
  corner_occupancy_weight = pos 0;
  corner_occupancy_score = pos 0;
  potential_mobility = pos 0;
  potential_mobility_weight = pos 0;
  potential_mobility_score = pos 0;
  corner_access = pos 0;
  corner_access_weight = pos 0;
  corner_access_score = pos 0;
  x_square_danger = pos 0;
  x_square_danger_weight = pos 0;
  x_square_danger_score = pos 0;
  frontier = pos 0;
  frontier_weight = pos 0;
  frontier_score = pos 0;
  corner_local_2x3 = pos 0;
  corner_local_2x3_weight = pos 0;
  corner_local_2x3_score = pos 0;
  corner_2x3_pattern = pos 0;
  corner_2x3_pattern_weight = pos 0;
  corner_2x3_pattern_score = pos 0;
  edge_stability_lite = pos 0;
  edge_stability_lite_weight = pos 0;
  edge_stability_lite_score = pos 0;
  edge_8_pattern = pos 0;
  edge_8_pattern_weight = pos 0;
  edge_8_pattern_score = pos 0;
  pattern_table = pos 0;
  pattern_table_weight = pos 0;
  pattern_table_score = pos 0;
  terminal = false;
  terminal_disc_difference = pos 0;
  terminal_score_weight = pos 1000;
  terminal_score = pos 0;
  total = pos 0;
}
