-- ===== src/Tests/Program.antt =====
-- What a run of the rules unfolds, and boards that the tests share.
use vibe_othello_engine.Base.{◌+◌, ◌^◌, ◌≡◌, refl, some, none}
use vibe_othello_engine.Bits.Digit.{bit}
use vibe_othello_engine.Bits.U64.{complement, shift_left, shift_right, single, minus_one}
use vibe_othello_engine.Bits.Scan.{
  countr_zero, countr_zero_from, popcount, popcount_from, clear_lowest, each_bit,
}
use vibe_othello_engine.Board.{Side, opponent, Board, discs, discs_of, occupied, empty, initial}
use vibe_othello_engine.Board.Square.{Square, square_bit, from_index}
use vibe_othello_engine.Rules.Shift.{
  not_a_file, not_h_file, shift_east, shift_west, shift_north, shift_south, shift_northeast,
  shift_northwest, shift_southeast, shift_southwest,
}
use vibe_othello_engine.Rules.Moves.{
  extend_captured, legal_moves_in_direction, flips_loop, flips_in_direction, or_zero,
  legal_moves_for, flips_for_known_empty_move, flips_for_move_bit, flips_for_move_for, legal_moves,
  has_legal_move, flips_for_move, place, with_side, apply_move, pass_turn, is_game_over, disc_count,
  score,
}

unfoldable pub program : Unit {0}
unfolding bit complement shift_left shift_right single minus_one countr_zero countr_zero_from
    popcount popcount_from clear_lowest each_bit opponent discs discs_of occupied empty initial
    square_bit from_index not_a_file not_h_file shift_east shift_west shift_north shift_south
    shift_northeast shift_northwest shift_southeast shift_southwest extend_captured
    legal_moves_in_direction flips_loop flips_in_direction or_zero legal_moves_for
    flips_for_known_empty_move flips_for_move_bit flips_for_move_for legal_moves has_legal_move
    flips_for_move place with_side apply_move pass_turn is_game_over disc_count score
program = tt

abbrev pub d3 : Square
d3 = record { index = 19 }

-- The initial board after Black's move to d3.
abbrev pub opened : Board
opened = record {
  black = 2 ^ 19 + 2 ^ 27 + 2 ^ 28 + 2 ^ 35;
  white = 2 ^ 36;
  side_to_move = Side.white;
}

-- Black on a1 and b1, White on c1: Black can move, White cannot.
abbrev pub corner : Board
corner = record { black = 3; white = 4; side_to_move = Side.white }

opening_moves : legal_moves initial ≡ 2 ^ 19 + 2 ^ 26 + 2 ^ 37 + 2 ^ 44
unfolding program
opening_moves = refl

pub opening : apply_move initial d3 ≡ some opened
unfolding program
opening = refl

occupied_square : apply_move initial (record { index = 27 }) ≡ none
unfolding program
occupied_square = refl

pub passing : pass_turn corner ≡ some (record corner { side_to_move = Side.black })
unfolding program
passing = refl

corner_counts : disc_count corner Side.black ≡ 2
unfolding program
corner_counts = refl
