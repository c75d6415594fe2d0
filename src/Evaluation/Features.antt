-- ===== src/Evaluation/Features.antt =====
-- src/evaluation_internal.hpp and src/evaluation_features.cpp: what is computed once for a
-- position, and the features that are read from it.
use vibe_othello_engine.Base.{
  ℕ, zero, suc, bit_and, bit_or, Bool, not, ◌&&◌, ◌==◌, List, [], ◌∷◌, if◌then◌else◌,
}
use vibe_othello_engine.Base.Int.{ℤ, pos, negsuc, ◌+ℤ◌, ◌-ℤ◌}
use vibe_othello_engine.Bits.U64.{complement, single}
use vibe_othello_engine.Bits.Scan.{popcount}
use vibe_othello_engine.Board.{Side, opponent, Board, discs}
use vibe_othello_engine.Rules.Shift.{
  shift_east, shift_west, shift_north, shift_south, shift_northeast, shift_northwest,
  shift_southeast, shift_southwest, adjacent_squares, is_x_square_next_to_empty_corner,
}

pub record EvaluationScratch : Type 0 where
  pub player : ℕ
  pub opponent_discs : ℕ
  pub occupied : ℕ
  pub empty : ℕ
  pub own_moves : ℕ
  pub opp_moves : ℕ
  pub adjacent_empty : ℕ
  pub own_adjacent_empty : ℕ
  pub opp_adjacent_empty : ℕ
  pub own_mobility : ℤ
  pub opp_mobility : ℤ
  pub occupied_count : ℤ
  pub empty_count : ℤ
  pub game_over : Bool

unfoldable pub count : ℕ → ℤ
count squares = pos (popcount squares)

-- The file's own move generator: `legal_moves_in_direction` and the union over the directions.
unfoldable pub extend : (ℕ → ℕ) → ℕ → ℕ → ℕ → ℕ
extend shift zero opponent_discs captured = captured
extend shift (suc rounds) opponent_discs captured =
    extend shift rounds opponent_discs (bit_or captured (bit_and (shift captured) opponent_discs))

unfoldable pub moves_in_direction : (ℕ → ℕ) → ℕ → ℕ → ℕ → ℕ
moves_in_direction shift player opponent_discs empty_squares =
    bit_and (shift (extend shift 5 opponent_discs (bit_and (shift player) opponent_discs)))
      empty_squares

unfoldable pub legal_moves_for_bitboards : ℕ → ℕ → ℕ
legal_moves_for_bitboards player opponent_discs =
    let empty_squares = complement (bit_or player opponent_discs) in
    let east = moves_in_direction shift_east player opponent_discs empty_squares in
    let west = moves_in_direction shift_west player opponent_discs empty_squares in
    let north = moves_in_direction shift_north player opponent_discs empty_squares in
    let south = moves_in_direction shift_south player opponent_discs empty_squares in
    let northeast = moves_in_direction shift_northeast player opponent_discs empty_squares in
    let northwest = moves_in_direction shift_northwest player opponent_discs empty_squares in
    let southeast = moves_in_direction shift_southeast player opponent_discs empty_squares in
    let southwest = moves_in_direction shift_southwest player opponent_discs empty_squares in
    bit_or
      (bit_or (bit_or (bit_or (bit_or (bit_or (bit_or east west) north) south) northeast) northwest)
        southeast)
      southwest

unfoldable pub make_evaluation_scratch : ℕ → ℕ → EvaluationScratch
make_evaluation_scratch player opponent_discs =
    let occupied = bit_or player opponent_discs in
    let empty = complement occupied in
    let own_moves = legal_moves_for_bitboards player opponent_discs in
    let opp_moves = legal_moves_for_bitboards opponent_discs player in
    record {
      player = player;
      opponent_discs = opponent_discs;
      occupied = occupied;
      empty = empty;
      own_moves = own_moves;
      opp_moves = opp_moves;
      adjacent_empty = adjacent_squares empty;
      own_adjacent_empty = bit_and (adjacent_squares player) empty;
      opp_adjacent_empty = bit_and (adjacent_squares opponent_discs) empty;
      own_mobility = count own_moves;
      opp_mobility = count opp_moves;
      occupied_count = count occupied;
      empty_count = pos 64 -ℤ count occupied;
      game_over = own_moves == 0 && opp_moves == 0;
    }

unfoldable pub board_evaluation_scratch : Board → Side → EvaluationScratch
board_evaluation_scratch board side =
    make_evaluation_scratch (discs board side) (discs board (opponent side))

unfoldable pub game_over_for_bitboards : ℕ → ℕ → Bool
game_over_for_bitboards player opponent_discs =
    legal_moves_for_bitboards player opponent_discs == 0
    && legal_moves_for_bitboards opponent_discs player == 0

-- `(discs & square_bit(index)) != 0`.
unfoldable pub has_disc : ℕ → ℕ → Bool
has_disc squares index = not (bit_and squares (single index) == 0)

unfoldable pub count_if_dangerous : ℕ → ℕ → ℕ → ℤ → ℤ
count_if_dangerous squares occupied x_square_index count =
    if has_disc squares x_square_index && is_x_square_next_to_empty_corner x_square_index occupied
    then count +ℤ pos 1
    else count

unfoldable pub dangerous_x_square_count : ℕ → ℕ → ℤ
dangerous_x_square_count squares occupied = count_if_dangerous squares occupied 54 (
    count_if_dangerous squares occupied 49
      (count_if_dangerous squares occupied 14 (count_if_dangerous squares occupied 9 (pos 0))))

pub record CornerLocalSpec : Type 0 where
  pub corner_index : ℕ
  pub x_square_index : ℕ
  pub c_square_indexes : List ℕ

abbrev pub corner_local_specs : List CornerLocalSpec
corner_local_specs =
    record { corner_index = 0; x_square_index = 9; c_square_indexes = 1 ∷ 8 ∷ [] }
    ∷ record { corner_index = 7; x_square_index = 14; c_square_indexes = 6 ∷ 15 ∷ [] }
    ∷ record { corner_index = 56; x_square_index = 49; c_square_indexes = 57 ∷ 48 ∷ [] }
    ∷ record { corner_index = 63; x_square_index = 54; c_square_indexes = 62 ∷ 55 ∷ [] }
    ∷ []

-- The loop over the C-squares, which adds the step for each that is the player's.
unfoldable pub add_c_squares : ℕ → ℤ → List ℕ → ℤ → ℤ
add_c_squares squares step [] value = value
add_c_squares squares step (index ∷ indexes) value =
    add_c_squares squares step indexes (if has_disc squares index then value +ℤ step else value)

unfoldable pub corner_local_value : ℕ → ℕ → CornerLocalSpec → ℤ → ℤ
corner_local_value squares occupied spec value =
    let away = if has_disc squares spec.x_square_index then value -ℤ pos 2 else value in
    if not (has_disc occupied spec.corner_index)
    then add_c_squares squares (negsuc 0) spec.c_square_indexes away
    else if has_disc squares spec.corner_index
    then add_c_squares squares (pos 1) spec.c_square_indexes value
    else value

unfoldable pub corner_local_loop : ℕ → ℕ → List CornerLocalSpec → ℤ → ℤ
corner_local_loop squares occupied [] value = value
corner_local_loop squares occupied (spec ∷ specs) value =
    corner_local_loop squares occupied specs (corner_local_value squares occupied spec value)

unfoldable pub corner_local_2x3_value_for_discs : ℕ → ℕ → ℤ
corner_local_2x3_value_for_discs squares occupied =
    corner_local_loop squares occupied corner_local_specs (pos 0)
