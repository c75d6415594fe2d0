-- ===== src/Rules/Moves.antt =====
-- src/bitboard_rules.hpp and src/rules.cpp: legal moves, flips, moves and passes.
use vibe_othello_engine.Base.{
  ℕ, zero, suc, bit_and, bit_or, Bool, false, not, ◌==◌, if◌then◌else◌, Option, none, some,
}
use vibe_othello_engine.Base.Int.{ℤ, pos, ◌-ℤ◌}
use vibe_othello_engine.Bits.U64.{complement}
use vibe_othello_engine.Bits.Scan.{popcount}
use vibe_othello_engine.Board.{Side, opponent, Board, discs, occupied}
use vibe_othello_engine.Board.Square.{Square, square_bit}
use vibe_othello_engine.Rules.Shift.{
  shift_east, shift_west, shift_north, shift_south, shift_northeast, shift_northwest,
  shift_southeast, shift_southwest,
}

unfoldable pub or_zero : Option ℕ → ℕ
or_zero none = 0
or_zero (some x) = x

-- The union of what `f` gives at each of the eight shifts, in the order of the source.
abbrev pub union_of_directions : ((ℕ → ℕ) → ℕ) → ℕ
union_of_directions f =
    bit_or
      (bit_or
        (bit_or
          (bit_or
            (bit_or (bit_or (bit_or (f shift_east) (f shift_west)) (f shift_north)) (f shift_south))
            (f shift_northeast))
          (f shift_northwest))
        (f shift_southeast))
      (f shift_southwest)

-- The template parameter `Shift` is the first argument.
module _ (shift : ℕ → ℕ) where
  -- `for (step = 0; step < 5; ++step) captured |= Shift(captured) & opponent`, by the rounds left.
  unfoldable pub extend_captured : ℕ → ℕ → ℕ → ℕ
  extend_captured zero opponent_discs captured = captured
  extend_captured (suc rounds) opponent_discs captured =
      extend_captured rounds opponent_discs
        (bit_or captured (bit_and (shift captured) opponent_discs))

  unfoldable pub legal_moves_in_direction : ℕ → ℕ → ℕ → ℕ
  legal_moves_in_direction player opponent_discs empty_squares =
      bit_and (shift (extend_captured 5 opponent_discs (bit_and (shift player) opponent_discs)))
        empty_squares

  -- The `while (captured != 0)` loop; `none` means that the fuel ran out.
  unfoldable pub flips_loop : ℕ → ℕ → ℕ → ℕ → ℕ → Option ℕ
  flips_loop zero player opponent_discs flips captured = none
  flips_loop (suc fuel) player opponent_discs flips captured =
      let flips' = bit_or flips captured in
      let next = shift captured in
      let rest = flips_loop fuel player opponent_discs flips' (bit_and next opponent_discs) in
      if captured == 0 then some 0 else if not (bit_and next player == 0) then some flips' else rest

  -- A bitboard leaves the board after at most 8 shifts, so the fuel lasts (Rules/Flips).
  unfoldable pub flips_in_direction : ℕ → ℕ → ℕ → ℕ
  flips_in_direction move_bit player opponent_discs =
      or_zero (flips_loop 8 player opponent_discs 0 (bit_and (shift move_bit) opponent_discs))

unfoldable pub legal_moves_for : ℕ → ℕ → ℕ
legal_moves_for player opponent_discs =
    let empty_squares = complement (bit_or player opponent_discs) in
    let along =
      λ (shift : ℕ → ℕ). legal_moves_in_direction shift player opponent_discs empty_squares in
    union_of_directions along

unfoldable pub flips_for_known_empty_move : ℕ → ℕ → ℕ → ℕ
flips_for_known_empty_move player opponent_discs move_bit =
    union_of_directions (λ shift. flips_in_direction shift move_bit player opponent_discs)

unfoldable pub flips_for_move_bit : ℕ → ℕ → ℕ → ℕ
flips_for_move_bit player opponent_discs move_bit =
    if not (bit_and (bit_or player opponent_discs) move_bit == 0)
    then 0
    else flips_for_known_empty_move player opponent_discs move_bit

unfoldable pub flips_for_move_for : ℕ → ℕ → Square → ℕ
flips_for_move_for player opponent_discs square =
    let move_bit = square_bit square in
    if not (bit_and (bit_or player opponent_discs) move_bit == 0)
    then 0
    else flips_for_known_empty_move player opponent_discs move_bit

unfoldable pub legal_moves : Board → ℕ
legal_moves board =
    legal_moves_for (discs board board.side_to_move) (discs board (opponent board.side_to_move))

unfoldable pub has_legal_move : Board → Bool
has_legal_move board = not (legal_moves board == 0)

unfoldable pub flips_for_move : Board → Square → ℕ
flips_for_move board square =
    flips_for_move_for (discs board board.side_to_move) (discs board (opponent board.side_to_move))
      square

-- `next.black |= move_bit | flips; next.white &= ~flips;` and the other way round.
unfoldable pub place : Board → Side → ℕ → ℕ → Board
place board Side.black move_bit flips = record board {
  black = bit_or board.black (bit_or move_bit flips);
  white = bit_and board.white (complement flips);
}
place board Side.white move_bit flips = record board {
  white = bit_or board.white (bit_or move_bit flips);
  black = bit_and board.black (complement flips);
}

unfoldable pub with_side : Board → Side → Board
with_side board side = record board { side_to_move = side }

unfoldable pub apply_move : Board → Square → Option Board
apply_move board square =
    let move_bit = square_bit square in
    let flips =
      flips_for_known_empty_move (discs board board.side_to_move)
        (discs board (opponent board.side_to_move)) move_bit in
    if not (bit_and (occupied board) move_bit == 0)
    then none
    else if flips == 0
    then none
    else some
        (with_side (place board board.side_to_move move_bit flips) (opponent board.side_to_move))

unfoldable pub pass_turn : Board → Option Board
pass_turn board =
    let next = with_side board (opponent board.side_to_move) in
    if has_legal_move board then none else if not (has_legal_move next) then none else some next

unfoldable pub is_game_over : Board → Bool
is_game_over board =
    if has_legal_move board
    then false
    else not (has_legal_move (with_side board (opponent board.side_to_move)))

unfoldable pub disc_count : Board → Side → ℕ
disc_count board side = popcount (discs board side)

unfoldable pub score : Board → Side → ℤ
score board side = pos (disc_count board side) -ℤ pos (disc_count board (opponent side))
