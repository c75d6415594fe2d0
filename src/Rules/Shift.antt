-- ===== src/Rules/Shift.antt =====
-- src/bitboard_ops.hpp: the eight shifts of a bitboard by one square.
use vibe_othello_engine.Base.{ℕ, bit_and, bit_or, ◌||◌, ◌%◌, ◌/◌, Bool, ◌==◌, false, if◌then◌else◌}
use vibe_othello_engine.Bits.U64.{complement, shift_left, shift_right, single}

abbrev pub a_file : ℕ
a_file = 0x0101010101010101

abbrev pub h_file : ℕ
h_file = 0x8080808080808080

unfoldable pub not_a_file : ℕ
not_a_file = complement a_file

unfoldable pub not_h_file : ℕ
not_h_file = complement h_file

unfoldable pub corner_squares : ℕ
corner_squares = bit_or (bit_or (bit_or (single 0) (single 7)) (single 56)) (single 63)

unfoldable pub shift_east : ℕ → ℕ
shift_east bits = shift_left (bit_and bits not_h_file) 1

unfoldable pub shift_west : ℕ → ℕ
shift_west bits = shift_right (bit_and bits not_a_file) 1

unfoldable pub shift_north : ℕ → ℕ
shift_north bits = shift_left bits 8

unfoldable pub shift_south : ℕ → ℕ
shift_south bits = shift_right bits 8

unfoldable pub shift_northeast : ℕ → ℕ
shift_northeast bits = shift_left (bit_and bits not_h_file) 9

unfoldable pub shift_northwest : ℕ → ℕ
shift_northwest bits = shift_left (bit_and bits not_a_file) 7

unfoldable pub shift_southeast : ℕ → ℕ
shift_southeast bits = shift_right (bit_and bits not_h_file) 7

unfoldable pub shift_southwest : ℕ → ℕ
shift_southwest bits = shift_right (bit_and bits not_a_file) 9

unfoldable pub adjacent_squares : ℕ → ℕ
adjacent_squares bits =
    bit_or
      (bit_or
        (bit_or
          (bit_or
            (bit_or (bit_or (bit_or (shift_east bits) (shift_west bits)) (shift_north bits))
              (shift_south bits))
            (shift_northeast bits))
          (shift_northwest bits))
        (shift_southeast bits))
      (shift_southwest bits)

unfoldable pub is_corner : ℕ → Bool
is_corner index = index == 0 || index == 7 || index == 56 || index == 63

unfoldable pub is_x_square : ℕ → Bool
is_x_square index = index == 9 || index == 14 || index == 49 || index == 54

unfoldable pub is_edge : ℕ → Bool
is_edge index =
    let file = index % 8 in let rank = index / 8 in file == 0 || file == 7 || rank == 0 || rank == 7

unfoldable pub is_x_square_next_to_empty_corner : ℕ → ℕ → Bool
is_x_square_next_to_empty_corner index occupied =
    if index == 9
    then bit_and occupied (single 0) == 0
    else if index == 14
    then bit_and occupied (single 7) == 0
    else if index == 49
    then bit_and occupied (single 56) == 0
    else if index == 54
    then bit_and occupied (single 63) == 0
    else false

unfoldable pub orthogonal_neighbors : ℕ → ℕ
orthogonal_neighbors index =
    let square = single index in
    bit_or (bit_or (bit_or (shift_east square) (shift_west square)) (shift_north square))
      (shift_south square)
