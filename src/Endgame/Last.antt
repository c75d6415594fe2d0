-- ===== src/Endgame/Last.antt =====
-- src/endgame_last_n.hpp: the solvers of positions with at most four empty squares.
use vibe_othello_engine.Base.{
  ℕ, zero, suc, Bool, false, not, ◌||◌, ◌==◌, Option, none, some, List, [], ◌∷◌, if◌then◌else◌,
}
use vibe_othello_engine.Base.Int.{ℤ, pos, ◌-ℤ◌, ltb_ℤ}
use vibe_othello_engine.Bits.Scan.{countr_zero, clear_lowest}
use vibe_othello_engine.Board.Square.{Square, from_index, square_bit}
use vibe_othello_engine.Search.Line.{
  PrincipalVariation, NodeResult, no_variation, is_better_best_move, principal_variation_with_move,
  principal_variation_single_move,
}
use vibe_othello_engine.Search.Position.{
  SearchPosition, empty, flips_for_known_empty_move, position_after_move, position_after_pass,
  score_for_player,
}
use vibe_othello_engine.Endgame.Table.{ExactEndgameStats, increment}

unfoldable pub negate : ℤ → ℤ
negate a = pos 0 -ℤ a

unfoldable pub larger : ℤ → ℤ → ℤ
larger a b = if ltb_ℤ a b then b else a

unfoldable pub count_node : ExactEndgameStats → ExactEndgameStats
count_node stats = record stats { nodes = increment stats.nodes }

-- `NodeResult{.score = score}`.
unfoldable pub score_result : ℤ → NodeResult
score_result score = record { best_move = none; score = score; principal_variation = no_variation }

unfoldable pub solve_last_0 : SearchPosition → ExactEndgameStats → NodeResult × ExactEndgameStats
solve_last_0 position stats = (score_result (score_for_player position), count_node stats)

unfoldable pub first_empty_square : ℕ → Option Square
first_empty_square empty_squares =
    if empty_squares == 0 then none else from_index (pos (countr_zero empty_squares))

unfoldable pub flips_for_empty_square : SearchPosition → Square → ℕ
flips_for_empty_square position square = flips_for_known_empty_move position (square_bit square)

-- `solve_last_1` once the empty square is known.
unfoldable pub solve_square :
    SearchPosition → Square → ExactEndgameStats → NodeResult × ExactEndgameStats
solve_square position square stats =
    let current_flips = flips_for_empty_square position square in
    let after_pass = position_after_pass position in
    let opponent_flips = flips_for_empty_square after_pass square in
    if not (current_flips == 0)
    then (
      record {
        best_move = some square;
        score = negate (score_for_player (position_after_move position square current_flips));
        principal_variation = principal_variation_single_move square;
      },
      count_node stats,
    )
    else if opponent_flips == 0
    then (score_result (score_for_player position), stats)
    else (
      record {
        best_move = none;
        score = score_for_player (position_after_move after_pass square opponent_flips);
        principal_variation = principal_variation_single_move square;
      },
      count_node (count_node stats),
    )

unfoldable pub solve_last_1 : SearchPosition → ExactEndgameStats → NodeResult × ExactEndgameStats
solve_last_1 position stats = elim (first_empty_square (empty position)) [
  | none ↦ (score_result (score_for_player position), count_node stats)
  | some square ↦ solve_square position square (count_node stats)
]

-- The lowest n squares of the word, for a word that has as many.
unfoldable pub last_empty_squares : ℕ → ℕ → List Square
last_empty_squares zero empty_squares = []
last_empty_squares (suc n) empty_squares =
    record { index = countr_zero empty_squares } ∷ last_empty_squares n (clear_lowest empty_squares)

unfoldable pub last_empty_squares_without : List Square → ℕ → List Square
last_empty_squares_without [] removed_index = []
last_empty_squares_without (square ∷ squares) zero = squares
last_empty_squares_without (square ∷ squares) (suc removed_index) =
    square ∷ last_empty_squares_without squares removed_index

unfoldable pub has_move_on_any_last_empty : SearchPosition → List Square → Bool
has_move_on_any_last_empty position [] = false
has_move_on_any_last_empty position (square ∷ squares) =
    not (flips_for_empty_square position square == 0) || has_move_on_any_last_empty position squares

-- The best move so far.
pub record Best : Type 0 where
  pub best_score : Option ℤ
  pub best_move : Option Square
  pub best_principal_variation : PrincipalVariation

unfoldable pub no_best : Best
no_best = record { best_score = none; best_move = none; best_principal_variation = no_variation }

-- The solver of the position after a move, with the squares that are left.
abbrev pub Solver : Type 0
Solver = SearchPosition → List Square → ℤ → ℤ → ExactEndgameStats → NodeResult × ExactEndgameStats

unfoldable pub better : Best → ℤ → Square → PrincipalVariation → Best
better best candidate_score square child_variation =
    if is_better_best_move candidate_score square best.best_score best.best_move
    then record {
      best_score = some candidate_score;
      best_move = some square;
      best_principal_variation = principal_variation_with_move square child_variation;
    }
    else best

-- The loop over the squares from the index on.
unfoldable pub search_squares :
    Solver
    → SearchPosition
    → List Square
    → List Square
    → ℕ
    → ℤ
    → ℤ
    → Best
    → ExactEndgameStats
    → Best × ExactEndgameStats
search_squares child position squares [] index alpha beta best stats = (best, stats)
search_squares child position squares (square ∷ rest) index alpha beta best stats =
    let flips = flips_for_empty_square position square in
    let (result, counted) =
      child (position_after_move position square flips) (last_empty_squares_without squares index)
        (negate beta) (negate alpha) stats in
    let candidate_score = negate result.score in
    let moved = not (flips == 0) in
    let next_best =
      if moved then better best candidate_score square result.principal_variation else best in
    let next_alpha = if moved then larger alpha candidate_score else alpha in
    let next_stats = if moved then counted else stats in
    let remaining =
      search_squares child position squares rest (suc index) next_alpha beta next_best next_stats in
    if moved
    then (if ltb_ℤ next_alpha beta then remaining else (next_best, next_stats))
    else remaining

unfoldable pub best_result : SearchPosition → Best → NodeResult
best_result position best = record {
  best_move = best.best_move;
  score = elim best.best_score [ none ↦ score_for_player position | some score ↦ score ];
  principal_variation = best.best_principal_variation;
}

unfoldable pub passed_result : NodeResult → NodeResult
passed_result child = record {
  best_move = none;
  score = negate child.score;
  principal_variation = child.principal_variation;
}

-- The body that `solve_last_2_with_squares` and `solve_last_fixed_with_squares` share. It calls
-- itself after a pass, and a second pass never follows, so two turns are enough.
unfoldable pub solve_with_squares : ℕ → Solver → Solver
solve_with_squares zero child position squares alpha beta stats =
    (score_result (score_for_player position), stats)
solve_with_squares (suc turns) child position squares alpha beta stats =
    let after_pass = position_after_pass position in
    let (passed, passed_stats) =
      solve_with_squares turns child after_pass squares (negate beta) (negate alpha)
        (count_node stats) in
    let (best, searched_stats) =
      search_squares child position squares squares 0 alpha beta no_best (count_node stats) in
    if has_move_on_any_last_empty position squares
    then (best_result position best, searched_stats)
    else if has_move_on_any_last_empty after_pass squares
    then (passed_result passed, passed_stats)
    else (score_result (score_for_player position), count_node stats)

unfoldable pub solve_after_2 : Solver
solve_after_2 position squares alpha beta stats = solve_last_1 position stats

unfoldable pub solve_last_2_with_squares : Solver
solve_last_2_with_squares = solve_with_squares 2 solve_after_2

unfoldable pub solve_last_3_with_squares : Solver
solve_last_3_with_squares = solve_with_squares 2 solve_last_2_with_squares

unfoldable pub solve_last_4_with_squares : Solver
solve_last_4_with_squares = solve_with_squares 2 solve_last_3_with_squares

unfoldable pub solve_last_2 :
    SearchPosition → ℤ → ℤ → ExactEndgameStats → NodeResult × ExactEndgameStats
solve_last_2 position = solve_last_2_with_squares position (last_empty_squares 2 (empty position))

unfoldable pub solve_last_3 :
    SearchPosition → ℤ → ℤ → ExactEndgameStats → NodeResult × ExactEndgameStats
solve_last_3 position = solve_last_3_with_squares position (last_empty_squares 3 (empty position))

unfoldable pub solve_last_4 :
    SearchPosition → ℤ → ℤ → ExactEndgameStats → NodeResult × ExactEndgameStats
solve_last_4 position = solve_last_4_with_squares position (last_empty_squares 4 (empty position))

unfoldable pub solve_last_n_dispatch :
    SearchPosition → ℤ → ℤ → ExactEndgameStats → ℕ → NodeResult × ExactEndgameStats
solve_last_n_dispatch position alpha beta stats empties =
    if empties == 0
    then solve_last_0 position stats
    else if empties == 1
    then solve_last_1 position stats
    else if empties == 2
    then solve_last_2 position alpha beta stats
    else if empties == 3
    then solve_last_3 position alpha beta stats
    else if empties == 4
    then solve_last_4 position alpha beta stats
    else (score_result (score_for_player position), stats)
