-- ===== src/Evaluation/Agree.antt =====
-- The fast path, the breakdown and the rules of the game against the evaluation.

use vibe_othello_engine.Base.{
  ℕ, ◌≡◌, refl, ap, sym, ◌∙◌, arith, bit_or, true, false, ◌&&◌, Option, none, some, List, [], ◌∷◌,
  if◌then◌else◌, Bool-cases, inl, inr,
}
use vibe_othello_engine.Base.Int.{ℤ, pos, ◌+ℤ◌, ◌-ℤ◌, ◌*ℤ◌, eqb_ℤ, int_laws}
use vibe_othello_engine.Board.{Side, opponent, Board, discs}
use vibe_othello_engine.Patterns.Bundle.{PatternTableBundle}
use vibe_othello_engine.Evaluation.Config.{
  EvaluationPhase, EvaluationFeatureWeights, EvaluationConfig, EvaluationBreakdown,
}
use vibe_othello_engine.Evaluation.Specs.{
  EvaluationFeatureComputation, EvaluationFeatureSpec, evaluation_feature_specs,
}
use vibe_othello_engine.Evaluation.Features.{
  EvaluationScratch, count, make_evaluation_scratch, board_evaluation_scratch,
  game_over_for_bitboards,
}
use vibe_othello_engine.Evaluation.Edges.{disc_difference_score}
use vibe_othello_engine.Evaluation.Terms.{
  terminal_score_weight, phase_for_occupied_count, weights_for_phase, pattern_tables_for_phase,
  table_value, has_pattern_table_feature_surface, no_phases, any_phase, compute_feature_raw_value,
  phase_fast_path_enabled, RawFeatureMode, is_breakdown, feature_value, accumulate_features,
  accumulate_non_terminal_evaluation,
}
use vibe_othello_engine.Evaluation.Evaluate.{
  is_pattern_table, only_tables_weighted, can_use_pattern_table_score_only_fast_path,
  pattern_table_score_only_fast_path_phases, weighted_table_value,
  evaluate_pattern_table_score_only_fast_path, evaluate_slow, evaluate_score_only,
  evaluate_bitboards, evaluate_with_config, finish_breakdown, assign_breakdown_feature_weights,
  evaluate_basic_breakdown,
}

eqb→eq : (a b : ℤ) → eqb_ℤ a b ≡ true → a ≡ b
eqb→eq a b h = ground (arith, h)

times_zero : (a : ℤ) → a *ℤ pos 0 ≡ pos 0
unfolding ◌*ℤ◌
times_zero a = ground arith

zero_times : (a : ℤ) → pos 0 *ℤ a ≡ pos 0
unfolding ◌*ℤ◌
zero_times a = ground arith

module _ (p o : ℕ) (scratch : EvaluationScratch) (config : EvaluationConfig)
    (phase : EvaluationPhase) where
  abbrev weights : EvaluationFeatureWeights
  weights = weights_for_phase config phase

  -- A feature without weight adds nothing, whether it is computed or not.
  unweighted :
      (spec : EvaluationFeatureSpec) (mode : RawFeatureMode)
      → eqb_ℤ (spec.weight weights) (pos 0) ≡ true
      → (feature_value spec p o scratch config phase mode).weighted_score ≡ pos 0
  unfolding feature_value
  unweighted spec mode h =
      let e = eqb→eq (spec.weight weights) (pos 0) h in
      elim (Bool-cases (is_breakdown mode && spec.compute_when_unweighted_breakdown)) [
        | inl t ↦ rw (h, t) (rw e (times_zero _))
        | inr f ↦ rw (h, f) refl
      ]

  weighted :
      (spec : EvaluationFeatureSpec) (mode : RawFeatureMode)
      → eqb_ℤ (spec.weight weights) (pos 0) ≡ false
      → (feature_value spec p o scratch config phase mode).weighted_score
        ≡ compute_feature_raw_value spec.computation p o scratch config phase *ℤ spec.weight weights
  unfolding feature_value
  weighted spec mode h = rw h refl

  feature_mode :
      (spec : EvaluationFeatureSpec)
      → (feature_value spec p o scratch config phase RawFeatureMode.breakdown).weighted_score
        ≡ (feature_value spec p o scratch config phase RawFeatureMode.score_only).weighted_score
  feature_mode spec = elim (Bool-cases (eqb_ℤ (spec.weight weights) (pos 0))) [
    | inl h ↦
        unweighted spec RawFeatureMode.breakdown h
        ∙ sym (unweighted spec RawFeatureMode.score_only h)
    | inr h ↦
        weighted spec RawFeatureMode.breakdown h ∙ sym (weighted spec RawFeatureMode.score_only h)
  ]

  -- What the feature of the tables adds.
  abbrev table_term : EvaluationFeatureSpec → ℤ
  table_term spec =
      if is_pattern_table spec.computation
      then (feature_value spec p o scratch config phase RawFeatureMode.score_only).weighted_score
      else pos 0

  abbrev table_sum : List EvaluationFeatureSpec → ℤ
  table_sum [] = pos 0
  table_sum (spec ∷ specs) = table_term spec +ℤ table_sum specs

  accumulate_features-table_sum :
      (specs : List EvaluationFeatureSpec) (total : ℤ)
      → only_tables_weighted weights specs ≡ true
      → (accumulate_features specs p o scratch config phase RawFeatureMode.score_only total).total
        ≡ total +ℤ table_sum specs
  unfolding accumulate_features only_tables_weighted
  accumulate_features-table_sum [] total h = omega int_laws
  accumulate_features-table_sum (spec ∷ specs) total h =
      accumulate_features-table_sum specs _ (ground (arith, h))
      ∙ elim (Bool-cases (is_pattern_table spec.computation)) [
        | inl t ↦ rw t (omega int_laws)
        | inr f ↦
            rw (f, unweighted spec RawFeatureMode.score_only (ground (arith, h, f)))
              (omega int_laws)
      ]

  -- The sum does not depend on the mode.
  accumulate_features-mode :
      (specs : List EvaluationFeatureSpec) (total : ℤ)
      → (accumulate_features specs p o scratch config phase RawFeatureMode.breakdown total).total
        ≡ (accumulate_features specs p o scratch config phase RawFeatureMode.score_only total).total
  unfolding accumulate_features
  accumulate_features-mode [] total = refl
  accumulate_features-mode (spec ∷ specs) total =
      let same = feature_mode spec in rw same (accumulate_features-mode specs _)

table_value-times :
    (p o : ℕ) (weight : ℤ) (tables : Option PatternTableBundle)
    → table_value p o tables *ℤ weight ≡ weighted_table_value p o weight tables
unfolding table_value weighted_table_value
table_value-times p o weight none = zero_times weight
table_value-times p o weight (some tables) = refl

-- The feature of the tables, in the terms of the fast path.
last_term :
    (p o : ℕ) (scratch : EvaluationScratch) (config : EvaluationConfig) (phase : EvaluationPhase)
    (spec : EvaluationFeatureSpec)
    → spec.computation ≡ EvaluationFeatureComputation.pattern_table
    → (feature_value spec p o scratch config phase RawFeatureMode.score_only).weighted_score ≡ (
        if eqb_ℤ (spec.weight (weights_for_phase config phase)) (pos 0)
        then pos 0
        else weighted_table_value p o
            (spec.weight (weights_for_phase config phase))
            (pattern_tables_for_phase config phase))
unfolding compute_feature_raw_value
last_term p o scratch config phase spec e =
    elim (Bool-cases (eqb_ℤ (spec.weight (weights_for_phase config phase)) (pos 0))) [
      | inl h ↦ rw h (unweighted p o scratch config phase spec RawFeatureMode.score_only h)
      | inr h ↦ rw h (
          weighted p o scratch config phase spec RawFeatureMode.score_only h
          ∙ ap
              (λ c.
                compute_feature_raw_value c p o scratch config phase
                *ℤ spec.weight (weights_for_phase config phase))
              e
          ∙ table_value-times p o (spec.weight (weights_for_phase config phase))
              (pattern_tables_for_phase config phase))
    ]

drop_zeros :
    (x : ℤ)
    → pos 0
        +ℤ (pos 0
            +ℤ (pos 0
                +ℤ (pos 0
                    +ℤ (pos 0
                        +ℤ (pos 0
                            +ℤ (pos 0
                                +ℤ (pos 0 +ℤ (pos 0 +ℤ (pos 0 +ℤ (pos 0 +ℤ (x +ℤ pos 0)))))))))))
      ≡ x
drop_zeros x = omega int_laws

-- The last feature, alone.
table_feature :
    (p o : ℕ) (scratch : EvaluationScratch) (config : EvaluationConfig) (phase : EvaluationPhase)
    → table_sum p o scratch config phase evaluation_feature_specs ≡ (
        if eqb_ℤ (weights_for_phase config phase).pattern_table (pos 0)
        then pos 0
        else weighted_table_value p o
            (weights_for_phase config phase).pattern_table
            (pattern_tables_for_phase config phase))
unfolding is_pattern_table
table_feature p o scratch config phase = drop_zeros _ ∙ last_term p o scratch config phase _ refl

zero_plus : (x : ℤ) → x ≡ pos 0 +ℤ x
zero_plus x = omega int_laws

pub slow_over :
    (p o : ℕ) (config : EvaluationConfig)
    → game_over_for_bitboards p o ≡ true
    → evaluate_slow p o config ≡ (count p -ℤ count o) *ℤ terminal_score_weight
unfolding evaluate_slow make_evaluation_scratch game_over_for_bitboards disc_difference_score
slow_over p o config over = rw over refl

pub slow_running :
    (p o : ℕ) (config : EvaluationConfig)
    → game_over_for_bitboards p o ≡ false
    → evaluate_slow p o config
      ≡ (accumulate_non_terminal_evaluation p o
          (make_evaluation_scratch p o)
          config
          (phase_for_occupied_count (count (bit_or p o)) config)
          RawFeatureMode.score_only).total
unfolding evaluate_slow make_evaluation_scratch game_over_for_bitboards
slow_running p o config running = rw running refl

fast_path-slow :
    (p o : ℕ) (config : EvaluationConfig)
    → can_use_pattern_table_score_only_fast_path config
        (phase_for_occupied_count (count (bit_or p o)) config)
      ≡ true
    → evaluate_pattern_table_score_only_fast_path p o config
        (phase_for_occupied_count (count (bit_or p o)) config)
      ≡ evaluate_slow p o config
unfolding evaluate_pattern_table_score_only_fast_path can_use_pattern_table_score_only_fast_path
    accumulate_non_terminal_evaluation
fast_path-slow p o config h =
    let scratch = make_evaluation_scratch p o in
    let phase = phase_for_occupied_count (count (bit_or p o)) config in
    elim (Bool-cases (game_over_for_bitboards p o)) [
      | inl over ↦ rw over (sym (slow_over p o config over))
      | inr running ↦ rw running (
          sym (table_feature p o scratch config phase)
          ∙ zero_plus _
          ∙ sym (
              accumulate_features-table_sum p o scratch config phase evaluation_feature_specs
                (pos 0) h)
          ∙ sym (slow_running p o config running))
    ]

enabled :
    (config : EvaluationConfig) (phase : EvaluationPhase)
    → phase_fast_path_enabled (pattern_table_score_only_fast_path_phases config) phase
      ≡ can_use_pattern_table_score_only_fast_path config phase
unfolding phase_fast_path_enabled pattern_table_score_only_fast_path_phases
enabled config EvaluationPhase.opening = refl
enabled config EvaluationPhase.midgame = refl
enabled config EvaluationPhase.late = refl

score_only-slow :
    (p o : ℕ) (config : EvaluationConfig)
    → evaluate_score_only p o config (pattern_table_score_only_fast_path_phases config)
      ≡ evaluate_slow p o config
unfolding evaluate_score_only
score_only-slow p o config =
    let phases = pattern_table_score_only_fast_path_phases config in
    let phase = phase_for_occupied_count (count (bit_or p o)) config in
    elim (Bool-cases (any_phase phases && phase_fast_path_enabled phases phase)) [
      | inl fast ↦
          rw fast (fast_path-slow p o config (sym (enabled config phase) ∙ ground (arith, fast)))
      | inr slow ↦ rw slow refl
    ]

without_phases :
    (p o : ℕ) (config : EvaluationConfig)
    → evaluate_score_only p o config no_phases ≡ evaluate_slow p o config
unfolding evaluate_score_only any_phase no_phases
without_phases p o config = refl

-- The fast path does not change the evaluation.
pub evaluate_bitboards-evaluate_slow :
    (p o : ℕ) (config : EvaluationConfig) → evaluate_bitboards p o config ≡ evaluate_slow p o config
unfolding evaluate_bitboards
evaluate_bitboards-evaluate_slow p o config =
    elim (Bool-cases (has_pattern_table_feature_surface config)) [
      | inl t ↦ rw t (score_only-slow p o config)
      | inr f ↦ rw f (without_phases p o config)
    ]

-- The weights of the features leave the weight of a finished game alone.
terminal_weight_kept :
    (w : EvaluationFeatureWeights) (b : EvaluationBreakdown)
    → (assign_breakdown_feature_weights evaluation_feature_specs w b).terminal_score_weight
      ≡ b.terminal_score_weight
unfolding assign_breakdown_feature_weights
terminal_weight_kept _ b = refl

finish_breakdown-over :
    (scratch : EvaluationScratch) (b valued : EvaluationBreakdown) (total : ℤ)
    → scratch.game_over ≡ true
    → b.terminal_score_weight ≡ terminal_score_weight
    → (finish_breakdown scratch b valued total).total
      ≡ disc_difference_score scratch *ℤ terminal_score_weight
unfolding finish_breakdown
finish_breakdown-over scratch b valued total over kept = rw (over, kept) refl

finish_breakdown-running :
    (scratch : EvaluationScratch) (b valued : EvaluationBreakdown) (total : ℤ)
    → scratch.game_over ≡ false
    → (finish_breakdown scratch b valued total).total ≡ total
unfolding finish_breakdown
finish_breakdown-running scratch b valued total running = rw running refl

-- The total of the breakdown is the evaluation.
pub evaluate_basic_breakdown-total :
    (board : Board) (side : Side) (config : EvaluationConfig)
    → (evaluate_basic_breakdown board side config).total ≡ evaluate_with_config board side config
unfolding evaluate_basic_breakdown evaluate_with_config board_evaluation_scratch
    make_evaluation_scratch game_over_for_bitboards accumulate_non_terminal_evaluation
    disc_difference_score
evaluate_basic_breakdown-total board side config =
    let p = discs board side in
    let o = discs board (opponent side) in
    let scratch = make_evaluation_scratch p o in
    let phase = phase_for_occupied_count (count (bit_or p o)) config in
    elim (Bool-cases (game_over_for_bitboards p o)) [
      | inl over ↦
          finish_breakdown-over scratch _ _ _ over
            (terminal_weight_kept (weights_for_phase config phase) _)
          ∙ sym (evaluate_bitboards-evaluate_slow p o config ∙ slow_over p o config over)
      | inr running ↦
          finish_breakdown-running scratch _ _ _ running
          ∙ accumulate_features-mode p o scratch config phase evaluation_feature_specs (pos 0)
          ∙ sym (evaluate_bitboards-evaluate_slow p o config ∙ slow_running p o config running)
    ]
