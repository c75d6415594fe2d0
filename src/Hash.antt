-- ===== src/Hash.antt =====
-- src/hash.cpp and src/hash_update.hpp: Zobrist hashes of boards, and their updates.
pub mod Xor
pub mod Sum
pub mod Update
use vibe_othello_engine.Base.{ℕ, zero, suc, ◌+◌, ◌*◌, ◌%◌, List, [], ◌∷◌, bit_xor, get_or, refl}
use vibe_othello_engine.Bits.U64.{word_mod, shift_right}
use vibe_othello_engine.Bits.Scan.{each_bit}
use vibe_othello_engine.Board.{Side, opponent, Board}

abbrev pub zobrist_seed : ℕ
zobrist_seed = 0x4F4F5448454C4C4F

abbrev pub square_count : ℕ
square_count = 64

-- The new state of the generator; the value that it yields.
unfoldable pub splitmix64_state : ℕ → ℕ
splitmix64_state state = (state + 0x9E3779B97F4A7C15) % word_mod

unfoldable pub splitmix64_value : ℕ → ℕ
splitmix64_value state =
    let a = bit_xor state (shift_right state 30) * 0xBF58476D1CE4E5B9 % word_mod in
    let b = bit_xor a (shift_right a 27) * 0x94D049BB133111EB % word_mod in
    bit_xor b (shift_right b 31)

unfoldable pub splitmix64_next : ℕ → record { value : ℕ; state : ℕ }
splitmix64_next state =
    let next = splitmix64_state state in record { value = splitmix64_value next; state = next }

-- n values in turn, and the state after them.
unfoldable pub draw : ℕ → ℕ → record { values : List ℕ; state : ℕ }
draw zero state = record { values = []; state = state }
draw (suc n) state =
    let first = splitmix64_next state in
    let rest = draw n first.state in
    record { values = first.value ∷ rest.values; state = rest.state }

unfoldable pub black_hashes : record { values : List ℕ; state : ℕ }
black_hashes = draw square_count zobrist_seed

unfoldable pub white_hashes : record { values : List ℕ; state : ℕ }
white_hashes = draw square_count black_hashes.state

-- The two values after the 128 of the piece table.
unfoldable pub side_hashes : record { values : List ℕ; state : ℕ }
side_hashes = draw 2 white_hashes.state

unfoldable pub zobrist_piece_hash : Side → ℕ → ℕ
zobrist_piece_hash Side.black square_index = get_or black_hashes.values square_index 0
zobrist_piece_hash Side.white square_index = get_or white_hashes.values square_index 0

unfoldable pub zobrist_side_hash : Side → ℕ
zobrist_side_hash Side.black = get_or side_hashes.values 0 0
zobrist_side_hash Side.white = get_or side_hashes.values 1 0

unfoldable pub piece_hash : ℕ → Side → ℕ
piece_hash bits color =
    each_bit 64 (λ square_index hash. bit_xor hash (zobrist_piece_hash color square_index)) bits 0

unfoldable pub zobrist_hash : Board → ℕ
zobrist_hash board =
    bit_xor (bit_xor (piece_hash board.black Side.black) (piece_hash board.white Side.white))
      (zobrist_side_hash board.side_to_move)

unfoldable pub hash_after_pass : ℕ → Side → ℕ
hash_after_pass hash side_to_move =
    bit_xor (bit_xor hash (zobrist_side_hash side_to_move))
      (zobrist_side_hash (opponent side_to_move))

unfoldable pub hash_after_move : ℕ → Side → ℕ → ℕ → ℕ
hash_after_move hash side_to_move square_index flips =
    let next_side = opponent side_to_move in
    let placed =
      bit_xor
        (bit_xor (bit_xor hash (zobrist_side_hash side_to_move)) (zobrist_side_hash next_side))
        (zobrist_piece_hash side_to_move square_index) in
    each_bit 64
      (λ flip_index h.
        bit_xor (bit_xor h (zobrist_piece_hash next_side flip_index))
          (zobrist_piece_hash side_to_move flip_index))
      flips placed
