-- ===== src/Evaluation/Edges.antt =====
-- src/evaluation_features.cpp: the rays along the edges, and the scores of all features.
use vibe_othello_engine.Base.{ℕ, zero, suc, bit_and, bit_or, ◌==◌, List, [], ◌∷◌, if◌then◌else◌}
use vibe_othello_engine.Base.Int.{ℤ, pos, negsuc, ◌+ℤ◌, ◌-ℤ◌}
use vibe_othello_engine.Bits.U64.{single}
use vibe_othello_engine.Board.{Side, Board}
use vibe_othello_engine.Rules.Moves
use vibe_othello_engine.Rules.Shift.{corner_squares}
use vibe_othello_engine.Evaluation.Features.{
  EvaluationScratch, count, board_evaluation_scratch, has_disc, dangerous_x_square_count,
  corner_local_2x3_value_for_discs,
}

pub record EdgeRaySpec : Type 0 where
  pub first_index : ℤ
  pub step : ℤ

pub record EdgeCornerSpec : Type 0 where
  pub corner_index : ℕ
  pub rays : List EdgeRaySpec

unfoldable pub ray : ℤ → ℤ → EdgeRaySpec
ray first_index step = record { first_index = first_index; step = step }

unfoldable pub edge_corner_specs : List EdgeCornerSpec
edge_corner_specs =
    record { corner_index = 0; rays = ray (pos 1) (pos 1) ∷ ray (pos 8) (pos 8) ∷ [] }
    ∷ record { corner_index = 7; rays = ray (pos 6) (negsuc 0) ∷ ray (pos 15) (pos 8) ∷ [] }
    ∷ record { corner_index = 56; rays = ray (pos 57) (pos 1) ∷ ray (pos 48) (negsuc 7) ∷ [] }
    ∷ record { corner_index = 63; rays = ray (pos 62) (negsuc 0) ∷ ray (pos 55) (negsuc 7) ∷ [] }
    ∷ []

-- `square_bit` of an index that is an `int`. The seven squares of a ray are on the board, so no
-- index that is read is negative.
unfoldable pub index_bit : ℤ → ℕ
index_bit (pos n) = single n
index_bit (negsuc n) = 0

unfoldable pub ray_loop : ℕ → ℕ → ℤ → ℤ → ℕ → ℕ
ray_loop zero discs index step squares = squares
ray_loop (suc left) discs index step squares =
    let rest = ray_loop left discs (index +ℤ step) step (bit_or squares (index_bit index)) in
    if bit_and discs (index_bit index) == 0 then squares else rest

unfoldable pub anchored_edge_ray_squares : ℕ → EdgeRaySpec → ℕ
anchored_edge_ray_squares discs ray = ray_loop 7 discs ray.first_index ray.step 0

unfoldable pub add_rays : ℕ → List EdgeRaySpec → ℕ → ℕ
add_rays discs [] stable = stable
add_rays discs (ray ∷ rays) stable =
    add_rays discs rays (bit_or stable (anchored_edge_ray_squares discs ray))

unfoldable pub stable_loop : ℕ → List EdgeCornerSpec → ℕ → ℕ
stable_loop discs [] stable = stable
stable_loop discs (spec ∷ specs) stable =
    stable_loop discs specs
      (if has_disc discs spec.corner_index then add_rays discs spec.rays stable else stable)

unfoldable pub edge_stability_lite_value_for_discs : ℕ → ℤ
edge_stability_lite_value_for_discs discs = count (stable_loop discs edge_corner_specs 0)

unfoldable pub disc_difference_score : EvaluationScratch → ℤ
disc_difference_score scratch = count scratch.player -ℤ count scratch.opponent_discs

unfoldable pub mobility_score : EvaluationScratch → ℤ
mobility_score scratch = scratch.own_mobility -ℤ scratch.opp_mobility

unfoldable pub corner_occupancy_score : EvaluationScratch → ℤ
corner_occupancy_score scratch =
    count (bit_and scratch.player corner_squares)
    -ℤ count (bit_and scratch.opponent_discs corner_squares)

unfoldable pub potential_mobility_score : EvaluationScratch → ℤ
potential_mobility_score scratch =
    count scratch.opp_adjacent_empty -ℤ count scratch.own_adjacent_empty

unfoldable pub corner_access_score : EvaluationScratch → ℤ
corner_access_score scratch =
    count (bit_and scratch.own_moves corner_squares)
    -ℤ count (bit_and scratch.opp_moves corner_squares)

unfoldable pub x_square_danger_score : EvaluationScratch → ℤ
x_square_danger_score scratch =
    dangerous_x_square_count scratch.opponent_discs scratch.occupied
    -ℤ dangerous_x_square_count scratch.player scratch.occupied

unfoldable pub frontier_score : EvaluationScratch → ℤ
frontier_score scratch =
    count (bit_and scratch.opponent_discs scratch.adjacent_empty)
    -ℤ count (bit_and scratch.player scratch.adjacent_empty)

unfoldable pub corner_local_2x3_score : EvaluationScratch → ℤ
corner_local_2x3_score scratch =
    corner_local_2x3_value_for_discs scratch.player scratch.occupied
    -ℤ corner_local_2x3_value_for_discs scratch.opponent_discs scratch.occupied

unfoldable pub edge_stability_lite_score : EvaluationScratch → ℤ
edge_stability_lite_score scratch =
    edge_stability_lite_value_for_discs scratch.player
    -ℤ edge_stability_lite_value_for_discs scratch.opponent_discs

unfoldable pub evaluate_disc_difference : Board → Side → ℤ
evaluate_disc_difference board side = Moves.score board side

unfoldable pub evaluate_mobility : Board → Side → ℤ
evaluate_mobility board side = mobility_score (board_evaluation_scratch board side)

unfoldable pub board_corner_occupancy_score : Board → Side → ℤ
board_corner_occupancy_score board side =
    corner_occupancy_score (board_evaluation_scratch board side)

unfoldable pub board_potential_mobility_score : Board → Side → ℤ
board_potential_mobility_score board side =
    potential_mobility_score (board_evaluation_scratch board side)

unfoldable pub board_corner_access_score : Board → Side → ℤ
board_corner_access_score board side = corner_access_score (board_evaluation_scratch board side)

unfoldable pub board_x_square_danger_score : Board → Side → ℤ
board_x_square_danger_score board side = x_square_danger_score (board_evaluation_scratch board side)

unfoldable pub board_frontier_score : Board → Side → ℤ
board_frontier_score board side = frontier_score (board_evaluation_scratch board side)

unfoldable pub board_corner_local_2x3_score : Board → Side → ℤ
board_corner_local_2x3_score board side =
    corner_local_2x3_score (board_evaluation_scratch board side)

unfoldable pub board_edge_stability_lite_score : Board → Side → ℤ
board_edge_stability_lite_score board side =
    edge_stability_lite_score (board_evaluation_scratch board side)
