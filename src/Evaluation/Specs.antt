-- ===== src/Evaluation/Specs.antt =====
-- include/othello/evaluation_feature_specs.hpp: the list of features.
use vibe_othello_engine.Base.{Bool, true, false, List, [], ◌∷◌}
use vibe_othello_engine.Base.Int.{ℤ}
use vibe_othello_engine.Evaluation.Config.{EvaluationFeatureWeights, EvaluationBreakdown}

pub data EvaluationFeatureComputation : Type 0 where
  disc_difference mobility potential_mobility corner_occupancy corner_access x_square_danger
        frontier corner_local_2x3 corner_2x3_pattern edge_stability_lite edge_8_pattern
        pattern_table :
      EvaluationFeatureComputation

-- A pointer to a member that is read is a projection; one that is assigned is an update.
pub record EvaluationFeatureSpec : Type 0 where
  pub weight : EvaluationFeatureWeights → ℤ
  pub raw_value : ℤ → EvaluationBreakdown → EvaluationBreakdown
  pub breakdown_weight : ℤ → EvaluationBreakdown → EvaluationBreakdown
  pub weighted_score : ℤ → EvaluationBreakdown → EvaluationBreakdown
  pub computation : EvaluationFeatureComputation
  pub compute_when_unweighted_breakdown : Bool
  pub required_in_full_config : Bool

abbrev pub evaluation_feature_specs : List EvaluationFeatureSpec
evaluation_feature_specs =
    record {
      weight = λ w. w.disc_difference;
      raw_value = λ v b. record b { disc_difference = v };
      breakdown_weight = λ v b. record b { disc_difference_weight = v };
      weighted_score = λ v b. record b { disc_difference_score = v };
      computation = EvaluationFeatureComputation.disc_difference;
      compute_when_unweighted_breakdown = true;
      required_in_full_config = true;
    }
    ∷ record {
      weight = λ w. w.mobility;
      raw_value = λ v b. record b { mobility = v };
      breakdown_weight = λ v b. record b { mobility_weight = v };
      weighted_score = λ v b. record b { mobility_score = v };
      computation = EvaluationFeatureComputation.mobility;
      compute_when_unweighted_breakdown = true;
      required_in_full_config = true;
    }
    ∷ record {
      weight = λ w. w.potential_mobility;
      raw_value = λ v b. record b { potential_mobility = v };
      breakdown_weight = λ v b. record b { potential_mobility_weight = v };
      weighted_score = λ v b. record b { potential_mobility_score = v };
      computation = EvaluationFeatureComputation.potential_mobility;
      compute_when_unweighted_breakdown = true;
      required_in_full_config = true;
    }
    ∷ record {
      weight = λ w. w.corner_occupancy;
      raw_value = λ v b. record b { corner_occupancy = v };
      breakdown_weight = λ v b. record b { corner_occupancy_weight = v };
      weighted_score = λ v b. record b { corner_occupancy_score = v };
      computation = EvaluationFeatureComputation.corner_occupancy;
      compute_when_unweighted_breakdown = true;
      required_in_full_config = true;
    }
    ∷ record {
      weight = λ w. w.corner_access;
      raw_value = λ v b. record b { corner_access = v };
      breakdown_weight = λ v b. record b { corner_access_weight = v };
      weighted_score = λ v b. record b { corner_access_score = v };
      computation = EvaluationFeatureComputation.corner_access;
      compute_when_unweighted_breakdown = true;
      required_in_full_config = true;
    }
    ∷ record {
      weight = λ w. w.x_square_danger;
      raw_value = λ v b. record b { x_square_danger = v };
      breakdown_weight = λ v b. record b { x_square_danger_weight = v };
      weighted_score = λ v b. record b { x_square_danger_score = v };
      computation = EvaluationFeatureComputation.x_square_danger;
      compute_when_unweighted_breakdown = true;
      required_in_full_config = true;
    }
    ∷ record {
      weight = λ w. w.frontier;
      raw_value = λ v b. record b { frontier = v };
      breakdown_weight = λ v b. record b { frontier_weight = v };
      weighted_score = λ v b. record b { frontier_score = v };
      computation = EvaluationFeatureComputation.frontier;
      compute_when_unweighted_breakdown = true;
      required_in_full_config = true;
    }
    ∷ record {
      weight = λ w. w.corner_local_2x3;
      raw_value = λ v b. record b { corner_local_2x3 = v };
      breakdown_weight = λ v b. record b { corner_local_2x3_weight = v };
      weighted_score = λ v b. record b { corner_local_2x3_score = v };
      computation = EvaluationFeatureComputation.corner_local_2x3;
      compute_when_unweighted_breakdown = false;
      required_in_full_config = true;
    }
    ∷ record {
      weight = λ w. w.corner_2x3_pattern;
      raw_value = λ v b. record b { corner_2x3_pattern = v };
      breakdown_weight = λ v b. record b { corner_2x3_pattern_weight = v };
      weighted_score = λ v b. record b { corner_2x3_pattern_score = v };
      computation = EvaluationFeatureComputation.corner_2x3_pattern;
      compute_when_unweighted_breakdown = false;
      required_in_full_config = true;
    }
    ∷ record {
      weight = λ w. w.edge_stability_lite;
      raw_value = λ v b. record b { edge_stability_lite = v };
      breakdown_weight = λ v b. record b { edge_stability_lite_weight = v };
      weighted_score = λ v b. record b { edge_stability_lite_score = v };
      computation = EvaluationFeatureComputation.edge_stability_lite;
      compute_when_unweighted_breakdown = false;
      required_in_full_config = true;
    }
    ∷ record {
      weight = λ w. w.edge_8_pattern;
      raw_value = λ v b. record b { edge_8_pattern = v };
      breakdown_weight = λ v b. record b { edge_8_pattern_weight = v };
      weighted_score = λ v b. record b { edge_8_pattern_score = v };
      computation = EvaluationFeatureComputation.edge_8_pattern;
      compute_when_unweighted_breakdown = false;
      required_in_full_config = true;
    }
    ∷ record {
      weight = λ w. w.pattern_table;
      raw_value = λ v b. record b { pattern_table = v };
      breakdown_weight = λ v b. record b { pattern_table_weight = v };
      weighted_score = λ v b. record b { pattern_table_score = v };
      computation = EvaluationFeatureComputation.pattern_table;
      compute_when_unweighted_breakdown = false;
      required_in_full_config = false;
    }
    ∷ []
