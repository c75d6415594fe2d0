-- ===== src/Tests/Rules.antt =====
-- The theorems on the rules and the hashes, at the opening and at a pass.
use vibe_othello_engine.Base.{
  ℕ, ◌+◌, ◌≡◌, ◌≤◌, ◌<◌, arith, true, false, not, ◌&&◌, ◌||◌, ◌==◌, some, none, ◌⊎◌, bit_and, sym,
  ◌∙◌,
}
use vibe_othello_engine.Bits.Digit.{bit, bit-and}
use vibe_othello_engine.Bits.Word.{bit-zero}
use vibe_othello_engine.Bits.U64.{single}
use vibe_othello_engine.Bits.Scan.{popcount}
use vibe_othello_engine.Board.{Side, opponent, discs, initial}
use vibe_othello_engine.Board.Square.{Square, IsSquare}
use vibe_othello_engine.Hash.{zobrist_hash, hash_after_move}
use vibe_othello_engine.Hash.Update
use vibe_othello_engine.Player.{first_legal_move}
use vibe_othello_engine.Rules.Compass.{Direction, shift_of}
use vibe_othello_engine.Rules.Consistent.{legal_iff_flips}
use vibe_othello_engine.Rules.Flips.{flips_loop-captures, add_squares}
use vibe_othello_engine.Rules.Game.{
  Reached, start, move, initial-IsBoard, Reached-IsBoard, Reached-le,
}
use vibe_othello_engine.Rules.Legality.{bit-legal_moves_for, bit-flips_for_known_empty_move}
use vibe_othello_engine.Rules.Moved.{apply_move-is_some, apply_move-discs, disc_count-apply_move}
use vibe_othello_engine.Rules.Moves.{
  flips_loop, legal_moves, legal_moves_for, flips_for_known_empty_move, has_legal_move, apply_move,
  pass_turn, is_game_over, disc_count,
}
use vibe_othello_engine.Rules.Play.{IsBoard, is_some, own_discs, other_discs, move_flips}
use vibe_othello_engine.Rules.Rays.{captures, is_captured, is_bracketing}
use vibe_othello_engine.Rules.Turns.{CanMove, CannotMove, first_legal_move_lem, turn_cases}
use vibe_othello_engine.Tests.Program.{d3, opened, corner, opening}

abbrev black : ℕ
black = initial.black

abbrev white : ℕ
white = initial.white

bit-legal_moves_for_example :
    bit 19 (legal_moves_for black white)
    ≡ (not (bit 19 black || bit 19 white) && is_bracketing black white 19)
bit-legal_moves_for_example =
    bit-legal_moves_for black white initial-IsBoard.black_fits initial-IsBoard.white_fits
      initial-IsBoard.disjoint 19 (omega arith)

bit-flips_for_known_empty_move_example :
    bit 27 (flips_for_known_empty_move black white (single 19)) ≡ is_captured black white 19 27
bit-flips_for_known_empty_move_example =
    bit-flips_for_known_empty_move black white initial-IsBoard.black_fits initial-IsBoard.white_fits
      initial-IsBoard.disjoint 19 27 (omega arith)

legal_iff_flips_example : bit 19 (legal_moves_for black white) ≡ (
    not (bit 19 black || bit 19 white)
    && not (flips_for_known_empty_move black white (single 19) == 0))
legal_iff_flips_example =
    legal_iff_flips black white initial-IsBoard.black_fits initial-IsBoard.white_fits
      initial-IsBoard.disjoint 19 (omega arith)

flips_loop-captures_example :
    flips_loop
      (shift_of Direction.north)
      8
      black
      white
      0
      (bit_and (shift_of Direction.north (single 19)) white)
    ≡ some (add_squares 0 (captures black white Direction.north 19))
flips_loop-captures_example =
    flips_loop-captures black white Direction.north initial-IsBoard.black_fits
      initial-IsBoard.white_fits initial-IsBoard.disjoint 19 (omega arith)

apply_move-is_some_example : is_some (apply_move initial d3) ≡ bit 19 (legal_moves initial)
apply_move-is_some_example = apply_move-is_some initial d3 initial-IsBoard (omega arith)

apply_move-discs_example :
    IsBoard opened
    × (opened.side_to_move ≡ opponent initial.side_to_move)
    × ((j : ℕ)
        → bit j (discs opened initial.side_to_move) ≡ (
            bit j (own_discs initial)
            || (j == 19 || is_captured (own_discs initial) (other_discs initial) 19 j)))
    × ((j : ℕ)
        → bit j (discs opened (opponent initial.side_to_move)) ≡ (
            bit j (other_discs initial)
            && not (is_captured (own_discs initial) (other_discs initial) 19 j)))
apply_move-discs_example = apply_move-discs initial d3 initial-IsBoard (omega arith) opening

disc_count-apply_move_example :
    (disc_count opened initial.side_to_move
      ≡ disc_count initial initial.side_to_move + 1 + popcount (move_flips initial d3))
    × (disc_count opened (opponent initial.side_to_move) + popcount (move_flips initial d3)
        ≡ disc_count initial (opponent initial.side_to_move))
    × (0 < popcount (move_flips initial d3))
disc_count-apply_move_example =
    disc_count-apply_move initial d3 initial-IsBoard (omega arith) opening

first_legal_move_lem_example :
    ((has_legal_move initial ≡ false) × (first_legal_move initial ≡ none))
    ⊎ ((s : Square) × (has_legal_move initial ≡ true)
        × (first_legal_move initial ≡ some s)
        × (IsSquare s)
        × (is_some (apply_move initial s) ≡ true)
        × ((t : Square) → t.index < s.index → IsSquare t → apply_move initial t ≡ none))
first_legal_move_lem_example = first_legal_move_lem initial initial-IsBoard

corner-IsBoard : IsBoard corner
corner-IsBoard = record { black_fits = omega arith; white_fits = omega arith; disjoint = apart }
  where
    apart : (i : ℕ) → (bit i 3 && bit i 4) ≡ false
    apart i = sym (bit-and i 3 4) ∙ bit-zero i

turn_cases_example :
    (CanMove corner × (pass_turn corner ≡ none) × (is_game_over corner ≡ false))
    ⊎ (CannotMove corner
        × (pass_turn corner ≡ some (record corner { side_to_move = opponent corner.side_to_move }))
        × CanMove (record corner { side_to_move = opponent corner.side_to_move })
        × (is_game_over corner ≡ false))
    ⊎ (CannotMove corner
        × CannotMove (record corner { side_to_move = opponent corner.side_to_move })
        × (pass_turn corner ≡ none)
        × (is_game_over corner ≡ true))
turn_cases_example = turn_cases corner corner-IsBoard

opened-Reached : Reached 1 opened
opened-Reached = move d3 start (omega arith) opening

Reached-IsBoard_example :
    IsBoard opened × (disc_count opened Side.black + disc_count opened Side.white ≡ 1 + 4)
Reached-IsBoard_example = Reached-IsBoard 1 opened opened-Reached

Reached-le_example : ◌≤◌ 1 60
Reached-le_example = Reached-le 1 opened opened-Reached

zobrist_hash-apply_move_example :
    zobrist_hash opened
    ≡ hash_after_move (zobrist_hash initial) initial.side_to_move 19 (move_flips initial d3)
zobrist_hash-apply_move_example =
    Update.zobrist_hash-apply_move initial d3 initial-IsBoard (omega arith) opening
