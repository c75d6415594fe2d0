-- ===== src/Evaluation/Sides.antt =====
-- The evaluation with the two sides exchanged.
use vibe_othello_engine.Base.{
  ℕ, ◌≡◌, refl, ap, ◌∙◌, arith, bit_or, false, none, List, [], ◌∷◌, Bool-cases, inl, inr,
}
use vibe_othello_engine.Base.Int.{
  ℤ, pos, pos_part, neg_part, sub_ℕ, ◌+ℤ◌, ◌-ℤ◌, ◌*ℤ◌, eqb_ℤ, int_laws,
}
use vibe_othello_engine.Bits.Digit.{bit-or}
use vibe_othello_engine.Bits.U64.{IsWord}
use vibe_othello_engine.Hash.Xor.{bits_ext}
use vibe_othello_engine.Board.{Side, opponent, Board, discs, discs_of}
use vibe_othello_engine.Rules.Generate.{IsDisjoint}
use vibe_othello_engine.Rules.Play.{IsBoard, discs-IsDisjoint}
use vibe_othello_engine.Patterns.RuleSides.{opposite}
use vibe_othello_engine.Patterns.Sides.{
  corner_2x3_pattern_score-opposite, edge_8_pattern_score-opposite,
}
use vibe_othello_engine.Evaluation.Config.{EvaluationPhase, EvaluationConfig}
use vibe_othello_engine.Evaluation.Specs.{
  EvaluationFeatureComputation, EvaluationFeatureSpec, evaluation_feature_specs,
}
use vibe_othello_engine.Evaluation.Features.{
  EvaluationScratch, count, make_evaluation_scratch, game_over_for_bitboards,
}
use vibe_othello_engine.Evaluation.Edges.{
  disc_difference_score, mobility_score, potential_mobility_score, corner_occupancy_score,
  corner_access_score, x_square_danger_score, frontier_score, corner_local_2x3_score,
  edge_stability_lite_score,
}
use vibe_othello_engine.Evaluation.Terms.{
  terminal_score_weight, phase_for_occupied_count, weights_for_phase, pattern_tables_for_phase,
  table_value, is_present, has_pattern_table_feature_surface, or_else, compute_feature_raw_value,
  RawFeatureMode, is_breakdown, feature_value, accumulate_features,
  accumulate_non_terminal_evaluation,
}
use vibe_othello_engine.Evaluation.Evaluate.{
  evaluate_slow, evaluate_bitboards, evaluate_with_config,
}
use vibe_othello_engine.Evaluation.Agree.{evaluate_bitboards-evaluate_slow, slow_over, slow_running}

bit_or_comm : (a b : ℕ) → bit_or a b ≡ bit_or b a
bit_or_comm a b = bits_ext _ _ (λ i. simp bit-or (ground arith))

pos_part-opposite : (a : ℤ) → pos_part (opposite a) ≡ neg_part a
unfolding ◌-ℤ◌
pos_part-opposite a = ground arith

neg_part-opposite : (a : ℤ) → neg_part (opposite a) ≡ pos_part a
unfolding ◌-ℤ◌
neg_part-opposite a = ground arith

opposite-sub_ℕ : (x y x' y' : ℕ) → x' ≡ y → y' ≡ x → sub_ℕ x' y' ≡ opposite (sub_ℕ x y)
unfolding ◌-ℤ◌
opposite-sub_ℕ x y x' y' h k = ground (arith, h, k)

opposite-times : (a w : ℤ) → opposite a *ℤ w ≡ opposite (a *ℤ w)
unfolding ◌*ℤ◌
opposite-times a w =
    rw (pos_part-opposite a, neg_part-opposite a)
      (opposite-sub_ℕ _ _ _ _ (omega arith) (omega arith))

turned : (a b : ℤ) → a -ℤ b ≡ opposite (b -ℤ a)
turned a b = omega int_laws

opposite_sum : (a b : ℤ) → opposite a +ℤ opposite b ≡ opposite (a +ℤ b)
opposite_sum a b = omega int_laws

opposite_zero : pos 0 ≡ opposite (pos 0)
opposite_zero = omega int_laws

no_tables :
    (config : EvaluationConfig) (phase : EvaluationPhase)
    → has_pattern_table_feature_surface config ≡ false
    → pattern_tables_for_phase config phase ≡ none
unfolding has_pattern_table_feature_surface pattern_tables_for_phase or_else is_present
no_tables config EvaluationPhase.opening h = ground (arith, h)
no_tables config EvaluationPhase.midgame h = ground (arith, h)
no_tables config EvaluationPhase.late h = ground (arith, h)

module _ (p o : ℕ) (wp : IsWord p) (wo : IsWord o) (apart : IsDisjoint p o) where
  abbrev own : EvaluationScratch
  own = make_evaluation_scratch p o

  abbrev other : EvaluationScratch
  other = make_evaluation_scratch o p

  module _ (config : EvaluationConfig) (phase : EvaluationPhase)
      (none_here : pattern_tables_for_phase config phase ≡ none) where
    raw_value-opposite :
        (c : EvaluationFeatureComputation)
        → compute_feature_raw_value c o p other config phase
          ≡ opposite (compute_feature_raw_value c p o own config phase)
    unfolding compute_feature_raw_value make_evaluation_scratch disc_difference_score mobility_score
        potential_mobility_score corner_occupancy_score corner_access_score x_square_danger_score
        frontier_score corner_local_2x3_score edge_stability_lite_score table_value
    raw_value-opposite EvaluationFeatureComputation.disc_difference = turned _ _
    raw_value-opposite EvaluationFeatureComputation.mobility = turned _ _
    raw_value-opposite EvaluationFeatureComputation.potential_mobility =
        rw (bit_or_comm o p) (turned _ _)
    raw_value-opposite EvaluationFeatureComputation.corner_occupancy = turned _ _
    raw_value-opposite EvaluationFeatureComputation.corner_access = turned _ _
    raw_value-opposite EvaluationFeatureComputation.x_square_danger =
        rw (bit_or_comm o p) (turned _ _)
    raw_value-opposite EvaluationFeatureComputation.frontier = rw (bit_or_comm o p) (turned _ _)
    raw_value-opposite EvaluationFeatureComputation.corner_local_2x3 =
        rw (bit_or_comm o p) (turned _ _)
    raw_value-opposite EvaluationFeatureComputation.corner_2x3_pattern =
        corner_2x3_pattern_score-opposite p o wp wo apart
    raw_value-opposite EvaluationFeatureComputation.edge_stability_lite = turned _ _
    raw_value-opposite EvaluationFeatureComputation.edge_8_pattern =
        edge_8_pattern_score-opposite p o wp wo apart
    raw_value-opposite EvaluationFeatureComputation.pattern_table = rw none_here opposite_zero

    feature_value-opposite :
        (spec : EvaluationFeatureSpec)
        → (feature_value spec o p other config phase RawFeatureMode.score_only).weighted_score
          ≡ opposite
              (feature_value spec p o own config phase RawFeatureMode.score_only).weighted_score
    unfolding feature_value is_breakdown
    feature_value-opposite spec =
        elim (Bool-cases (eqb_ℤ (spec.weight (weights_for_phase config phase)) (pos 0))) [
          | inl h ↦ rw h opposite_zero
          | inr h ↦ rw (h, raw_value-opposite spec.computation) (opposite-times _ _)
        ]

    accumulate_features-opposite :
        (specs : List EvaluationFeatureSpec) (total : ℤ)
        → (accumulate_features specs o p other config phase RawFeatureMode.score_only
            (opposite total)).total
          ≡ opposite
              (accumulate_features specs p o own config phase RawFeatureMode.score_only total).total
    unfolding accumulate_features
    accumulate_features-opposite [] total = refl
    accumulate_features-opposite (spec ∷ specs) total =
        ap
          (λ t.
            (accumulate_features specs o p other config phase RawFeatureMode.score_only t).total)
          (rw (feature_value-opposite spec) (opposite_sum total _))
        ∙ accumulate_features-opposite specs _

  game_over_comm : game_over_for_bitboards o p ≡ game_over_for_bitboards p o
  unfolding game_over_for_bitboards
  game_over_comm = ground arith

  evaluate_slow-opposite :
      (config : EvaluationConfig)
      → has_pattern_table_feature_surface config ≡ false
      → evaluate_slow o p config ≡ opposite (evaluate_slow p o config)
  unfolding accumulate_non_terminal_evaluation
  evaluate_slow-opposite config h =
      let phase = phase_for_occupied_count (count (bit_or p o)) config in
      elim (Bool-cases (game_over_for_bitboards p o)) [
        | inl over ↦
            slow_over o p config (game_over_comm ∙ over)
            ∙ rw (slow_over p o config over) (
                ap (λ x. x *ℤ terminal_score_weight) (turned (count o) (count p))
                ∙ opposite-times _ _)
        | inr running ↦
            slow_running o p config (game_over_comm ∙ running)
            ∙ rw (slow_running p o config running, bit_or_comm o p)
                (ap
                    (λ t.
                      (accumulate_features evaluation_feature_specs o p other config phase
                        RawFeatureMode.score_only t).total)
                    opposite_zero
                  ∙ accumulate_features-opposite config phase (no_tables config phase h)
                      evaluation_feature_specs (pos 0))
      ]

exchanged :
    (p o : ℕ)
    → IsWord p
    → IsWord o
    → IsDisjoint p o
    → (config : EvaluationConfig) → has_pattern_table_feature_surface config ≡ false
    → evaluate_bitboards o p config ≡ opposite (evaluate_bitboards p o config)
exchanged p o wp wo apart config h =
    rw (evaluate_bitboards-evaluate_slow o p config, evaluate_bitboards-evaluate_slow p o config)
      (evaluate_slow-opposite p o wp wo apart config h)

-- Without tables the two sides see the same value with opposite signs.
pub evaluate_with_config-opponent :
    (b : Board) (side : Side) (config : EvaluationConfig)
    → IsBoard b
    → has_pattern_table_feature_surface config ≡ false
    → evaluate_with_config b (opponent side) config ≡ opposite (evaluate_with_config b side config)
unfolding evaluate_with_config discs discs_of opponent
evaluate_with_config-opponent b Side.black config v h =
    exchanged b.black b.white v.black_fits v.white_fits v.disjoint config h
evaluate_with_config-opponent b Side.white config v h =
    exchanged b.white b.black v.white_fits v.black_fits (discs-IsDisjoint b v Side.white) config h
