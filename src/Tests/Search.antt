-- ===== src/Tests/Search.antt =====
-- The theorems on the search's positions, moves, bounds and variations, at small inputs.
use vibe_othello_engine.Base.{ℕ, ◌*◌, ◌/◌, ◌^◌, ◌≡◌, refl, ◌≤◌, ◌<◌, arith, true, some}
use vibe_othello_engine.Base.Int.{pos, negsuc}
use vibe_othello_engine.Board.{initial}
use vibe_othello_engine.Board.Square.{Square, square_bit}
use vibe_othello_engine.Rules.Game.{initial-IsBoard}
use vibe_othello_engine.Search.Agree.{position_after_move-apply_move}
use vibe_othello_engine.Search.Bound.{BoundKind, bucket_count_for_entry_count, proves_cutoff}
use vibe_othello_engine.Search.Cutoff.{bucket_count_for_entry_count-least}
use vibe_othello_engine.Search.Line.{is_better_best_move}
use vibe_othello_engine.Search.Position.{
  from_board, position_after_move, flips_for_known_empty_move,
}
use vibe_othello_engine.Tests.Program.{d3, opened, opening}

abbrev c4 : Square
c4 = record { index = 26 }

abbrev f5 : Square
f5 = record { index = 37 }

lower_cutoff : proves_cutoff BoundKind.lower (pos 4) (negsuc 0) (pos 4) ≡ true
unfolding proves_cutoff
lower_cutoff = refl

least_square : is_better_best_move (pos 2) d3 (some (pos 2)) (some c4) ≡ true
unfolding is_better_best_move
least_square = refl

higher_score : is_better_best_move (pos 2) c4 (some (negsuc 5)) (some f5) ≡ true
unfolding is_better_best_move
higher_score = refl

position_after_move-apply_move_example :
    position_after_move
      (from_board initial)
      d3
      (flips_for_known_empty_move (from_board initial) (square_bit d3))
    ≡ from_board opened
position_after_move-apply_move_example =
    position_after_move-apply_move initial opened d3 initial-IsBoard (omega arith) opening

bucket_count_for_entry_count-least_example :
    let count = bucket_count_for_entry_count 17 4 in
    ((k : ℕ) × (count ≡ 2 ^ k)) × (count ≤ 2 ^ 63) × (17 ≤ 4 * count) × (4 * (count / 2) < 17)
bucket_count_for_entry_count-least_example =
    bucket_count_for_entry_count-least 17 4 (omega arith) (omega arith) (omega arith) (omega arith)
