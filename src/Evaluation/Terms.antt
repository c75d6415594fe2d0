-- ===== src/Evaluation/Terms.antt =====
-- src/evaluation.cpp: the phase, the weights and tables of a phase, and the sum of the features.
use vibe_othello_engine.Base.{
  ℕ, Bool, true, false, not, ◌&&◌, ◌||◌, Option, none, some, List, [], ◌∷◌, if◌then◌else◌,
}
use vibe_othello_engine.Base.Int.{ℤ, pos, ◌+ℤ◌, ◌*ℤ◌, ltb_ℤ, eqb_ℤ}
use vibe_othello_engine.Patterns.Bundle.{PatternTableBundle, evaluation_pattern_table_score}
use vibe_othello_engine.Patterns.Tables.{corner_2x3_pattern_score, edge_8_pattern_score}
use vibe_othello_engine.Evaluation.Config.{
  EvaluationPhase, EvaluationFeatureWeights, EvaluationConfig,
}
use vibe_othello_engine.Evaluation.Specs.{
  EvaluationFeatureComputation, EvaluationFeatureSpec, evaluation_feature_specs,
}
use vibe_othello_engine.Evaluation.Features.{EvaluationScratch}
use vibe_othello_engine.Evaluation.Edges.{
  disc_difference_score, mobility_score, potential_mobility_score, corner_occupancy_score,
  corner_access_score, x_square_danger_score, frontier_score, corner_local_2x3_score,
  edge_stability_lite_score,
}

abbrev pub terminal_score_weight : ℤ
terminal_score_weight = pos 1000

unfoldable pub phase_for_occupied_count : ℤ → EvaluationConfig → EvaluationPhase
phase_for_occupied_count occupied_count config =
    if not (ltb_ℤ config.opening_max_occupied occupied_count)
    then EvaluationPhase.opening
    else if not (ltb_ℤ config.midgame_max_occupied occupied_count)
    then EvaluationPhase.midgame
    else EvaluationPhase.late

unfoldable pub weights_for_phase : EvaluationConfig → EvaluationPhase → EvaluationFeatureWeights
weights_for_phase config EvaluationPhase.opening = config.opening
weights_for_phase config EvaluationPhase.midgame = config.midgame
weights_for_phase config EvaluationPhase.late = config.late

unfoldable pub or_else :
    Option PatternTableBundle → Option PatternTableBundle → Option PatternTableBundle
or_else none fallback = fallback
or_else (some tables) fallback = some tables

unfoldable pub pattern_tables_for_phase :
    EvaluationConfig → EvaluationPhase → Option PatternTableBundle
pattern_tables_for_phase config EvaluationPhase.opening =
    or_else config.opening_pattern_tables config.pattern_tables
pattern_tables_for_phase config EvaluationPhase.midgame =
    or_else config.midgame_pattern_tables config.pattern_tables
pattern_tables_for_phase config EvaluationPhase.late =
    or_else config.late_pattern_tables config.pattern_tables

unfoldable pub is_present : Option PatternTableBundle → Bool
is_present none = false
is_present (some tables) = true

unfoldable pub is_nonzero : ℤ → Bool
is_nonzero a = not (eqb_ℤ a (pos 0))

unfoldable pub has_pattern_table_feature_surface : EvaluationConfig → Bool
has_pattern_table_feature_surface config =
    is_nonzero (config.opening.pattern_table)
    || (is_nonzero (config.midgame.pattern_table)
        || (is_nonzero (config.late.pattern_table)
            || (is_present config.pattern_tables
                || (is_present config.opening_pattern_tables
                    || (is_present config.midgame_pattern_tables
                        || is_present config.late_pattern_tables)))))

pub record PatternTableScoreOnlyFastPathPhases : Type 0 where
  pub opening : Bool
  pub midgame : Bool
  pub late : Bool

unfoldable pub no_phases : PatternTableScoreOnlyFastPathPhases
no_phases = record { opening = false; midgame = false; late = false }

unfoldable pub any_phase : PatternTableScoreOnlyFastPathPhases → Bool
any_phase phases = phases.opening || phases.midgame || phases.late

unfoldable pub phase_fast_path_enabled :
    PatternTableScoreOnlyFastPathPhases → EvaluationPhase → Bool
phase_fast_path_enabled phases EvaluationPhase.opening = phases.opening
phase_fast_path_enabled phases EvaluationPhase.midgame = phases.midgame
phase_fast_path_enabled phases EvaluationPhase.late = phases.late

-- The feature that the tables of the phase give, or 0 without tables.
unfoldable pub table_value : ℕ → ℕ → Option PatternTableBundle → ℤ
table_value player opponent_discs none = pos 0
table_value player opponent_discs (some tables) =
    evaluation_pattern_table_score player opponent_discs tables

unfoldable pub compute_feature_raw_value :
    EvaluationFeatureComputation
    → ℕ
    → ℕ
    → EvaluationScratch
    → EvaluationConfig
    → EvaluationPhase
    → ℤ
compute_feature_raw_value EvaluationFeatureComputation.disc_difference player opponent_discs scratch
      config phase =
    disc_difference_score scratch
compute_feature_raw_value EvaluationFeatureComputation.mobility player opponent_discs scratch config
      phase =
    mobility_score scratch
compute_feature_raw_value EvaluationFeatureComputation.potential_mobility player opponent_discs
      scratch config phase =
    potential_mobility_score scratch
compute_feature_raw_value EvaluationFeatureComputation.corner_occupancy player opponent_discs
      scratch config phase =
    corner_occupancy_score scratch
compute_feature_raw_value EvaluationFeatureComputation.corner_access player opponent_discs scratch
      config phase =
    corner_access_score scratch
compute_feature_raw_value EvaluationFeatureComputation.x_square_danger player opponent_discs scratch
      config phase =
    x_square_danger_score scratch
compute_feature_raw_value EvaluationFeatureComputation.frontier player opponent_discs scratch config
      phase =
    frontier_score scratch
compute_feature_raw_value EvaluationFeatureComputation.corner_local_2x3 player opponent_discs
      scratch config phase =
    corner_local_2x3_score scratch
compute_feature_raw_value EvaluationFeatureComputation.corner_2x3_pattern player opponent_discs
      scratch config phase =
    corner_2x3_pattern_score player opponent_discs
compute_feature_raw_value EvaluationFeatureComputation.edge_stability_lite player opponent_discs
      scratch config phase =
    edge_stability_lite_score scratch
compute_feature_raw_value EvaluationFeatureComputation.edge_8_pattern player opponent_discs scratch
      config phase =
    edge_8_pattern_score player opponent_discs
compute_feature_raw_value EvaluationFeatureComputation.pattern_table player opponent_discs scratch
      config phase =
    table_value player opponent_discs (pattern_tables_for_phase config phase)

pub data RawFeatureMode : Type 0 where
  score_only breakdown : RawFeatureMode

unfoldable pub is_breakdown : RawFeatureMode → Bool
is_breakdown RawFeatureMode.score_only = false
is_breakdown RawFeatureMode.breakdown = true

pub record FeatureValue : Type 0 where
  pub raw_value : ℤ
  pub weight : ℤ
  pub weighted_score : ℤ

pub record NonTerminalEvaluation : Type 0 where
  pub features : List FeatureValue
  pub total : ℤ

-- One round of the loop: a feature without weight is computed only for a breakdown that wants it.
unfoldable pub feature_value :
    EvaluationFeatureSpec
    → ℕ
    → ℕ
    → EvaluationScratch
    → EvaluationConfig
    → EvaluationPhase
    → RawFeatureMode
    → FeatureValue
feature_value spec player opponent_discs scratch config phase mode =
    let weight = spec.weight (weights_for_phase config phase) in
    let compute_unweighted = is_breakdown mode && spec.compute_when_unweighted_breakdown in
    let raw_value =
      compute_feature_raw_value spec.computation player opponent_discs scratch config phase in
    if eqb_ℤ weight (pos 0) && not compute_unweighted
    then record { raw_value = pos 0; weight = weight; weighted_score = pos 0 }
    else record { raw_value = raw_value; weight = weight; weighted_score = raw_value *ℤ weight }

-- The loop over the features, with the values so far and their sum.
unfoldable pub accumulate_features :
    List EvaluationFeatureSpec
    → ℕ
    → ℕ
    → EvaluationScratch
    → EvaluationConfig
    → EvaluationPhase
    → RawFeatureMode
    → ℤ
    → NonTerminalEvaluation
accumulate_features [] player opponent_discs scratch config phase mode total = record {
  features = [];
  total = total;
}
accumulate_features (spec ∷ specs) player opponent_discs scratch config phase mode total =
    let feature = feature_value spec player opponent_discs scratch config phase mode in
    let rest =
      accumulate_features specs player opponent_discs scratch config phase mode
        (total +ℤ feature.weighted_score) in
    record rest { features = feature ∷ rest.features }

unfoldable pub accumulate_non_terminal_evaluation :
    ℕ
    → ℕ
    → EvaluationScratch
    → EvaluationConfig
    → EvaluationPhase
    → RawFeatureMode
    → NonTerminalEvaluation
accumulate_non_terminal_evaluation player opponent_discs scratch config phase mode =
    accumulate_features evaluation_feature_specs player opponent_discs scratch config phase mode
      (pos 0)
