-- ===== src/Evaluation/Evaluate.antt =====
-- src/evaluation.cpp: the evaluation, its fast path, and the breakdown.
use vibe_othello_engine.Base.{
  ℕ, bit_or, Bool, true, false, not, ◌&&◌, ◌||◌, Option, none, some, List, [], ◌∷◌, if◌then◌else◌,
}
use vibe_othello_engine.Base.Int.{ℤ, pos, ◌-ℤ◌, ◌*ℤ◌, eqb_ℤ}
use vibe_othello_engine.Board.{Side, opponent, Board, discs}
use vibe_othello_engine.Patterns.Bundle.{PatternTableBundle, evaluation_pattern_table_score}
use vibe_othello_engine.Evaluation.Config.{
  EvaluationPhase, EvaluationFeatureWeights, EvaluationConfig, default_evaluation_config,
  EvaluationBreakdown, no_breakdown,
}
use vibe_othello_engine.Evaluation.Specs.{
  EvaluationFeatureComputation, EvaluationFeatureSpec, evaluation_feature_specs,
}
use vibe_othello_engine.Evaluation.Features.{
  EvaluationScratch, count, make_evaluation_scratch, board_evaluation_scratch,
  game_over_for_bitboards,
}
use vibe_othello_engine.Evaluation.Edges.{disc_difference_score}
use vibe_othello_engine.Evaluation.Terms.{
  terminal_score_weight, phase_for_occupied_count, weights_for_phase, pattern_tables_for_phase,
  has_pattern_table_feature_surface, PatternTableScoreOnlyFastPathPhases, no_phases, any_phase,
  phase_fast_path_enabled, RawFeatureMode, FeatureValue, accumulate_non_terminal_evaluation,
}

unfoldable pub is_pattern_table : EvaluationFeatureComputation → Bool
is_pattern_table EvaluationFeatureComputation.pattern_table = true
is_pattern_table _ = false

unfoldable pub only_tables_weighted : EvaluationFeatureWeights → List EvaluationFeatureSpec → Bool
only_tables_weighted weights [] = true
only_tables_weighted weights (spec ∷ specs) =
    (is_pattern_table spec.computation || eqb_ℤ (spec.weight weights) (pos 0))
    && only_tables_weighted weights specs

unfoldable pub can_use_pattern_table_score_only_fast_path :
    EvaluationConfig → EvaluationPhase → Bool
can_use_pattern_table_score_only_fast_path config phase =
    only_tables_weighted (weights_for_phase config phase) evaluation_feature_specs

unfoldable pub pattern_table_score_only_fast_path_phases :
    EvaluationConfig → PatternTableScoreOnlyFastPathPhases
pattern_table_score_only_fast_path_phases config = record {
  opening = can_use_pattern_table_score_only_fast_path config EvaluationPhase.opening;
  midgame = can_use_pattern_table_score_only_fast_path config EvaluationPhase.midgame;
  late = can_use_pattern_table_score_only_fast_path config EvaluationPhase.late;
}

unfoldable pub weighted_table_value : ℕ → ℕ → ℤ → Option PatternTableBundle → ℤ
weighted_table_value player opponent_discs weight none = pos 0
weighted_table_value player opponent_discs weight (some tables) =
    evaluation_pattern_table_score player opponent_discs tables *ℤ weight

unfoldable pub evaluate_pattern_table_score_only_fast_path :
    ℕ → ℕ → EvaluationConfig → EvaluationPhase → ℤ
evaluate_pattern_table_score_only_fast_path player opponent_discs config phase =
    let weight = (weights_for_phase config phase).pattern_table in
    if game_over_for_bitboards player opponent_discs
    then (count player -ℤ count opponent_discs) *ℤ terminal_score_weight
    else if eqb_ℤ weight (pos 0)
    then pos 0
    else weighted_table_value player opponent_discs weight (pattern_tables_for_phase config phase)

-- The part of `evaluate_score_only` after the fast path.
unfoldable pub evaluate_slow : ℕ → ℕ → EvaluationConfig → ℤ
evaluate_slow player opponent_discs config =
    let scratch = make_evaluation_scratch player opponent_discs in
    let phase = phase_for_occupied_count scratch.occupied_count config in
    if scratch.game_over
    then disc_difference_score scratch *ℤ terminal_score_weight
    else (accumulate_non_terminal_evaluation player opponent_discs scratch config phase
        RawFeatureMode.score_only).total

unfoldable pub evaluate_score_only :
    ℕ → ℕ → EvaluationConfig → PatternTableScoreOnlyFastPathPhases → ℤ
evaluate_score_only player opponent_discs config fast_path_phases =
    let phase = phase_for_occupied_count (count (bit_or player opponent_discs)) config in
    if any_phase fast_path_phases && phase_fast_path_enabled fast_path_phases phase
    then evaluate_pattern_table_score_only_fast_path player opponent_discs config phase
    else evaluate_slow player opponent_discs config

unfoldable pub evaluate_bitboards : ℕ → ℕ → EvaluationConfig → ℤ
evaluate_bitboards player opponent_discs config =
    if not (has_pattern_table_feature_surface config)
    then evaluate_score_only player opponent_discs config no_phases
    else evaluate_score_only player opponent_discs config
        (pattern_table_score_only_fast_path_phases config)

unfoldable pub evaluate_with_config : Board → Side → EvaluationConfig → ℤ
evaluate_with_config board side config =
    evaluate_bitboards (discs board side) (discs board (opponent side)) config

unfoldable pub evaluate_basic : Board → Side → ℤ
evaluate_basic board side = evaluate_with_config board side default_evaluation_config

unfoldable pub assign_breakdown_feature_weights :
    List EvaluationFeatureSpec
    → EvaluationFeatureWeights
    → EvaluationBreakdown
    → EvaluationBreakdown
assign_breakdown_feature_weights [] weights breakdown = breakdown
assign_breakdown_feature_weights (spec ∷ specs) weights breakdown =
    assign_breakdown_feature_weights specs weights
      (spec.breakdown_weight (spec.weight weights) breakdown)

unfoldable pub assign_breakdown_feature_values :
    List EvaluationFeatureSpec → List FeatureValue → EvaluationBreakdown → EvaluationBreakdown
assign_breakdown_feature_values [] features breakdown = breakdown
assign_breakdown_feature_values (spec ∷ specs) [] breakdown = breakdown
assign_breakdown_feature_values (spec ∷ specs) (feature ∷ features) breakdown =
    assign_breakdown_feature_values specs features
      (spec.weighted_score feature.weighted_score (spec.raw_value feature.raw_value breakdown))

-- The end of `evaluate_basic_breakdown`: the breakdown of a finished game, or the values.
unfoldable pub finish_breakdown :
    EvaluationScratch → EvaluationBreakdown → EvaluationBreakdown → ℤ → EvaluationBreakdown
finish_breakdown scratch breakdown valued total =
    let difference = disc_difference_score scratch in
    let terminal_score = difference *ℤ breakdown.terminal_score_weight in
    if scratch.game_over
    then record breakdown {
      terminal = true;
      terminal_disc_difference = difference;
      terminal_score = terminal_score;
      total = terminal_score;
    }
    else record valued { total = total }

unfoldable pub evaluate_basic_breakdown : Board → Side → EvaluationConfig → EvaluationBreakdown
evaluate_basic_breakdown board side config =
    let scratch = board_evaluation_scratch board side in
    let phase = phase_for_occupied_count scratch.occupied_count config in
    let started = record no_breakdown {
      phase = phase;
      occupied_count = scratch.occupied_count;
      empty_count = scratch.empty_count;
      terminal_score_weight = terminal_score_weight;
    } in
    let breakdown =
      assign_breakdown_feature_weights evaluation_feature_specs (weights_for_phase config phase)
        started in
    let features =
      accumulate_non_terminal_evaluation scratch.player scratch.opponent_discs scratch config phase
        RawFeatureMode.breakdown in
    let valued =
      assign_breakdown_feature_values evaluation_feature_specs features.features breakdown in
    finish_breakdown scratch breakdown valued features.total
