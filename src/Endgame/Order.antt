-- ===== src/Endgame/Order.antt =====
-- src/endgame_ordering.hpp: the score of a move and the order of the legal moves.
use vibe_othello_engine.Base.{
  ℕ, ◌%◌, bit_and, Bool, false, not, ◌&&◌, ◌==◌, Option, none, some, List, [], ◌∷◌, ◌++◌, get_or,
  if◌then◌else◌,
}
use vibe_othello_engine.Base.Int.{ℤ, pos, ◌+ℤ◌, ◌-ℤ◌, ◌*ℤ◌, ltb_ℤ, eqb_ℤ, pos_part}
use vibe_othello_engine.Bits.Scan.{popcount, each_bit}
use vibe_othello_engine.Board.Square.{Square, square_bit, from_index}
use vibe_othello_engine.Rules.Shift.{
  corner_squares, is_corner, is_edge, is_x_square_next_to_empty_corner,
}
use vibe_othello_engine.Hash.{hash_after_move}
use vibe_othello_engine.Search.Position.{
  SearchPosition, occupied, empty, legal_moves, flips_for_move, position_after_move,
  position_after_pass,
}
use vibe_othello_engine.Search.Sort.{sort_moves, promote_preferred_move}
use vibe_othello_engine.Endgame.Table.{ExactEndgameStats, increment}
use vibe_othello_engine.Endgame.Regions.{empty_region_sizes}

pub record OrderedMove : Type 0 where
  pub index : ℕ
  pub order_score : ℤ
  pub hash : ℕ
  pub next : SearchPosition

pub record EndgameMoveOrderingParams : Type 0 where
  pub corner_bonus : ℤ
  pub edge_bonus : ℤ
  pub x_square_empty_corner_penalty : ℤ
  pub singleton_region_bonus : ℤ
  pub odd_region_bonus : ℤ
  pub even_region_penalty : ℤ
  pub opponent_corner_penalty : ℤ
  pub opponent_mobility_penalty : ℤ
  pub opponent_pass_bonus : ℤ

abbrev pub default_endgame_move_ordering_params : EndgameMoveOrderingParams
default_endgame_move_ordering_params = record {
  corner_bonus = pos 100000;
  edge_bonus = pos 1000;
  x_square_empty_corner_penalty = pos 30000;
  singleton_region_bonus = pos 12000;
  odd_region_bonus = pos 4000;
  even_region_penalty = pos 1000;
  opponent_corner_penalty = pos 80000;
  opponent_mobility_penalty = pos 800;
  opponent_pass_bonus = pos 30000;
}

pub record EndgameMoveOrderingPolicy : Type 0 where
  pub params : EndgameMoveOrderingParams
  pub use_empty_region_parity : Bool

unfoldable pub has_legal_move_after_forced_pass : SearchPosition → ℕ → Bool
has_legal_move_after_forced_pass position moves =
    moves == 0 && not (legal_moves (position_after_pass position) == 0)

-- `region_size % 2 != 0` of a size that is positive.
unfoldable pub is_odd : ℤ → Bool
is_odd size = not (pos_part size % 2 == 0)

unfoldable pub empty_region_parity_order_score : ℤ → EndgameMoveOrderingParams → ℤ
empty_region_parity_order_score region_size params =
    if not (ltb_ℤ (pos 0) region_size)
    then pos 0
    else if eqb_ℤ region_size (pos 1)
    then params.singleton_region_bonus
    else if is_odd region_size
    then pos 0 +ℤ params.odd_region_bonus
    else pos 0 -ℤ params.even_region_penalty

-- `if (test) score += bonus`.
unfoldable pub add_if : Bool → ℤ → ℤ → ℤ
add_if test bonus score = if test then score +ℤ bonus else score

unfoldable pub subtract_if : Bool → ℤ → ℤ → ℤ
subtract_if test penalty score = if test then score -ℤ penalty else score

-- The sizes of the regions are none when the pointer is null.
unfoldable pub region_score : Option (List ℤ) → ℕ → EndgameMoveOrderingParams → ℤ → ℤ
region_score none index params score = score
region_score (some by_square) index params score =
    score +ℤ empty_region_parity_order_score (get_or by_square index (pos 0)) params

unfoldable pub move_order_score :
    SearchPosition → ℕ → SearchPosition → EndgameMoveOrderingParams → Option (List ℤ) → ℤ
move_order_score position index next params empty_regions =
    let opponent_moves = legal_moves next in
    let placed =
      subtract_if (is_x_square_next_to_empty_corner index (occupied position))
        params.x_square_empty_corner_penalty
        (add_if (is_edge index) params.edge_bonus
          (add_if (is_corner index) params.corner_bonus (pos 0))) in
    let by_region = region_score empty_regions index params placed in
    let by_corners =
      subtract_if (not (bit_and opponent_moves corner_squares == 0)) params.opponent_corner_penalty
        by_region in
    let by_mobility =
      by_corners -ℤ pos (popcount opponent_moves) *ℤ params.opponent_mobility_penalty in
    add_if (has_legal_move_after_forced_pass next opponent_moves) params.opponent_pass_bonus
      by_mobility

unfoldable pub new_move :
    SearchPosition → ℕ → EndgameMoveOrderingPolicy → Option (List ℤ) → Square → ℕ → OrderedMove
new_move position hash policy empty_regions square flips =
    let next = position_after_move position square flips in
    record {
      index = square.index;
      order_score = move_order_score position square.index next policy.params empty_regions;
      hash = hash_after_move hash position.side_to_move square.index flips;
      next = next;
    }

-- The body of the loop over the moves, which appends a move that flips something.
unfoldable pub append_move :
    SearchPosition
    → ℕ
    → EndgameMoveOrderingPolicy
    → Option (List ℤ)
    → ℕ
    → List OrderedMove
    → List OrderedMove
append_move position hash policy empty_regions index moves = elim (from_index (pos index)) [
  | none ↦ moves
  | some square ↦
      let flips = flips_for_move position square in
      if flips == 0
      then moves
      else moves ++ (new_move position hash policy empty_regions square flips ∷ [])
]

unfoldable pub regions_for : EndgameMoveOrderingPolicy → SearchPosition → Option (List ℤ)
regions_for policy position =
    if policy.use_empty_region_parity then some (empty_region_sizes (empty position)) else none

-- The moves before they are sorted.
unfoldable pub candidates : SearchPosition → ℕ → ℕ → EndgameMoveOrderingPolicy → List OrderedMove
candidates position hash moves policy =
    each_bit 64 (append_move position hash policy (regions_for policy position)) moves []

unfoldable pub sort_ordered_moves : List OrderedMove → List OrderedMove
sort_ordered_moves moves =
    sort_moves (λ (move : OrderedMove). move.order_score) (λ (move : OrderedMove). move.index) moves

unfoldable pub ordered_legal_move_indexes :
    SearchPosition → ℕ → ℕ → EndgameMoveOrderingPolicy → List OrderedMove
ordered_legal_move_indexes position hash moves policy =
    sort_ordered_moves (candidates position hash moves policy)

unfoldable pub promote_tt_move : ℕ → Option Square → List OrderedMove → List OrderedMove × Bool
promote_tt_move moves none ordered = (ordered, false)
promote_tt_move moves (some square) ordered =
    if not (bit_and moves (square_bit square) == 0)
    then promote_preferred_move (λ (move : OrderedMove). move.order_score)
        (λ (move : OrderedMove). move.index) square.index ordered
    else (ordered, false)

-- The overload with the move of the table, which counts that it was used.
unfoldable pub ordered_with_tt_move :
    SearchPosition
    → ℕ
    → ℕ
    → Option Square
    → ExactEndgameStats
    → EndgameMoveOrderingPolicy
    → List OrderedMove × ExactEndgameStats
ordered_with_tt_move position hash moves tt_preferred_move stats policy =
    let (ordered, promoted) =
      promote_tt_move moves tt_preferred_move
        (ordered_legal_move_indexes position hash moves policy) in
    (
      ordered,
      if promoted
          then record stats { tt_move_ordering_used = increment stats.tt_move_ordering_used }
          else stats,
    )
