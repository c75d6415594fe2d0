-- ===== src/Midgame/Moves.antt =====
-- src/search_move_ordering.cpp: the score of a move, the buckets and the order of the legal moves.
-- Of the context of a search the functions take what they read: the parameters of the order, the
-- history and the counters.
use vibe_othello_engine.Base.{
  ℕ, bit_and, bit_or, Bool, false, not, ◌&&◌, ◌==◌, leb, Option, none, some, List, [], ◌∷◌, ◌++◌,
  if◌then◌else◌,
}
use vibe_othello_engine.Base.Int.{ℤ, pos, ◌+ℤ◌, ◌-ℤ◌, ◌*ℤ◌, ltb_ℤ}
use vibe_othello_engine.Bits.U64.{complement, single}
use vibe_othello_engine.Bits.Scan.{popcount, each_bit}
use vibe_othello_engine.Board.Square.{Square, square_bit}
use vibe_othello_engine.Rules.Shift.{
  adjacent_squares, corner_squares, is_corner, is_edge, is_x_square,
  is_x_square_next_to_empty_corner,
}
use vibe_othello_engine.Search.Position.{
  SearchPosition, occupied, legal_moves, flips_for_known_empty_move, position_after_move_bit,
}
use vibe_othello_engine.Search.Sort.{sort_moves, promote_preferred_move}
use vibe_othello_engine.Midgame.Order.{
  HistoryKillerOrderingParams, default_history_killer_ordering_params, HistoryKillerState,
  history_killer_bonus,
}
use vibe_othello_engine.Endgame.Table.{increment}
use vibe_othello_engine.Midgame.Stats.{SearchStats}

pub record OrderedMove : Type 0 where
  pub index : ℕ
  pub flips : ℕ
  pub order_score : ℤ

pub record MoveOrderingParams : Type 0 where
  pub static_corner_score : ℤ
  pub static_edge_score : ℤ
  pub static_normal_score : ℤ
  pub static_x_square_score : ℤ
  pub dynamic_corner_bonus : ℤ
  pub dynamic_edge_bonus : ℤ
  pub dynamic_opponent_corner_penalty : ℤ
  pub dynamic_opponent_mobility_penalty : ℤ
  pub dynamic_potential_mobility_penalty : ℤ
  pub dynamic_static_risk_penalty : ℤ
  pub history_killer : HistoryKillerOrderingParams
  pub dynamic_min_depth : ℤ
  pub dynamic_min_moves : ℕ

abbrev pub default_move_ordering_params : MoveOrderingParams
default_move_ordering_params = record {
  static_corner_score = pos 3000;
  static_edge_score = pos 2000;
  static_normal_score = pos 1000;
  static_x_square_score = pos 0;
  dynamic_corner_bonus = pos 100000;
  dynamic_edge_bonus = pos 1000;
  dynamic_opponent_corner_penalty = pos 80000;
  dynamic_opponent_mobility_penalty = pos 500;
  dynamic_potential_mobility_penalty = pos 25;
  dynamic_static_risk_penalty = pos 25;
  history_killer = default_history_killer_ordering_params;
  dynamic_min_depth = pos 3;
  dynamic_min_moves = 5;
}

unfoldable pub should_use_dynamic_move_ordering : Bool → ℕ → ℤ → MoveOrderingParams → Bool
should_use_dynamic_move_ordering enabled move_count depth params =
    enabled && not (ltb_ℤ depth params.dynamic_min_depth) && leb params.dynamic_min_moves move_count

unfoldable pub potential_mobility_after_move : SearchPosition → ℕ
potential_mobility_after_move next =
    popcount (bit_and (adjacent_squares next.opponent_discs) (complement (occupied next)))

unfoldable pub static_risk_for_move : SearchPosition → ℕ → ℕ
static_risk_for_move position index =
    if is_x_square_next_to_empty_corner index (occupied position) then 1 else 0

unfoldable pub can_use_static_bucket_ordering : MoveOrderingParams → Bool
can_use_static_bucket_ordering params =
    ltb_ℤ params.static_edge_score params.static_corner_score
    && ltb_ℤ params.static_normal_score params.static_edge_score
    && ltb_ℤ params.static_x_square_score params.static_normal_score

pub data StaticMoveBucket : Type 0 where
  corner edge normal x_square : StaticMoveBucket

unfoldable pub static_move_bucket : ℕ → StaticMoveBucket
static_move_bucket index =
    if is_corner index
    then StaticMoveBucket.corner
    else if is_edge index
    then StaticMoveBucket.edge
    else if is_x_square index
    then StaticMoveBucket.x_square
    else StaticMoveBucket.normal

-- The score of a move without the dynamic order.
unfoldable pub static_score : MoveOrderingParams → ℕ → ℤ
static_score params index =
    if is_corner index
    then params.static_corner_score
    else if is_edge index
    then params.static_edge_score
    else if is_x_square index
    then params.static_x_square_score
    else params.static_normal_score

unfoldable pub dynamic_score :
    SearchPosition → ℕ → SearchPosition → ℤ → MoveOrderingParams → HistoryKillerState → ℤ
dynamic_score position index next depth params history_killers =
    let opponent_moves = legal_moves next in
    let at_corner = if is_corner index then params.dynamic_corner_bonus else pos 0 in
    let at_edge = if is_edge index then at_corner +ℤ params.dynamic_edge_bonus else at_corner in
    let by_corners =
      if not (bit_and opponent_moves corner_squares == 0)
      then at_edge -ℤ params.dynamic_opponent_corner_penalty
      else at_edge in
    let by_mobility =
      by_corners -ℤ pos (popcount opponent_moves) *ℤ params.dynamic_opponent_mobility_penalty in
    let by_potential =
      by_mobility
      -ℤ pos (potential_mobility_after_move next) *ℤ params.dynamic_potential_mobility_penalty in
    let by_risk =
      by_potential
      -ℤ pos (static_risk_for_move position index) *ℤ params.dynamic_static_risk_penalty in
    by_risk +ℤ history_killer_bonus history_killers (pos index) depth params.history_killer

-- What the order of the moves of a position depends on, but for the moves.
pub record Ordering : Type 0 where
  pub position : SearchPosition
  pub depth : ℤ
  pub dynamic_move_ordering : Bool
  pub move_ordering_params : MoveOrderingParams
  pub history_killers : HistoryKillerState

unfoldable pub is_dynamic : Ordering → ℕ → Bool
is_dynamic o move_count =
    should_use_dynamic_move_ordering o.dynamic_move_ordering move_count o.depth
      o.move_ordering_params

unfoldable pub move_order_score : Ordering → ℕ → ℕ → ℕ → ℕ → ℤ
move_order_score o index move_bit flips move_count =
    if not (is_dynamic o move_count)
    then static_score o.move_ordering_params index
    else dynamic_score o.position index (position_after_move_bit o.position move_bit flips) o.depth
        o.move_ordering_params o.history_killers

-- Appends the move on a square, if it flips something.
unfoldable pub append_move : SearchPosition → (ℕ → ℕ → ℤ) → ℕ → List OrderedMove → List OrderedMove
append_move position score index moves =
    let flips = flips_for_known_empty_move position (single index) in
    if flips == 0
    then moves
    else moves ++ (record { index = index; flips = flips; order_score = score index flips } ∷ [])

unfoldable pub append_static_bucket : List OrderedMove → SearchPosition → ℕ → ℤ → List OrderedMove
append_static_bucket candidates position moves order_score =
    each_bit 64 (append_move position (λ index flips. order_score)) moves candidates

pub record Buckets : Type 0 where
  pub corner_moves : ℕ
  pub edge_moves : ℕ
  pub normal_moves : ℕ
  pub x_square_moves : ℕ

-- The cases of the switch.
unfoldable pub put_in : StaticMoveBucket → ℕ → Buckets → Buckets
put_in StaticMoveBucket.corner move_bit buckets = record buckets {
  corner_moves = bit_or buckets.corner_moves move_bit;
}
put_in StaticMoveBucket.edge move_bit buckets = record buckets {
  edge_moves = bit_or buckets.edge_moves move_bit;
}
put_in StaticMoveBucket.normal move_bit buckets = record buckets {
  normal_moves = bit_or buckets.normal_moves move_bit;
}
put_in StaticMoveBucket.x_square move_bit buckets = record buckets {
  x_square_moves = bit_or buckets.x_square_moves move_bit;
}

unfoldable pub add_to_bucket : ℕ → Buckets → Buckets
add_to_bucket index buckets = put_in (static_move_bucket index) (single index) buckets

unfoldable pub buckets_of : ℕ → Buckets
buckets_of moves =
    each_bit 64 add_to_bucket moves
      (record { corner_moves = 0; edge_moves = 0; normal_moves = 0; x_square_moves = 0 })

unfoldable pub bucket_order : SearchPosition → MoveOrderingParams → ℕ → List OrderedMove
bucket_order position params moves =
    let buckets = buckets_of moves in
    let corners =
      append_static_bucket [] position buckets.corner_moves params.static_corner_score in
    let edges = append_static_bucket corners position buckets.edge_moves params.static_edge_score in
    let normals =
      append_static_bucket edges position buckets.normal_moves params.static_normal_score in
    append_static_bucket normals position buckets.x_square_moves params.static_x_square_score

unfoldable pub sorted_order : Ordering → ℕ → List OrderedMove
sorted_order o moves =
    sort_moves (λ (move : OrderedMove). move.order_score) (λ (move : OrderedMove). move.index)
      (each_bit 64
        (append_move o.position
          (λ index flips. move_order_score o index (single index) flips (popcount moves)))
        moves [])

unfoldable pub ordered_legal_move_indexes : Ordering → ℕ → List OrderedMove
ordered_legal_move_indexes o moves =
    if not (is_dynamic o (popcount moves)) && can_use_static_bucket_ordering o.move_ordering_params
    then bucket_order o.position o.move_ordering_params moves
    else sorted_order o moves

-- `square.has_value() && (moves & square->bit()) != 0 && promote_preferred_move(...)`.
unfoldable pub promote : ℕ → Option Square → List OrderedMove → List OrderedMove × Bool
promote moves none ordered = (ordered, false)
promote moves (some square) ordered =
    if bit_and moves (square_bit square) == 0
    then (ordered, false)
    else promote_preferred_move (λ (move : OrderedMove). move.order_score)
        (λ (move : OrderedMove). move.index) square.index ordered

unfoldable pub count_preferred : Bool → Bool → SearchStats → SearchStats
count_preferred promoted from_shallow stats =
    let used = record stats { tt_move_ordering_used = increment stats.tt_move_ordering_used } in
    if not promoted
    then stats
    else if from_shallow
    then record used {
      shallow_tt_move_ordering_used = increment used.shallow_tt_move_ordering_used;
    }
    else used

-- The overload with the preferred moves: that of the table first, then the other in front of it.
unfoldable pub ordered_with_preferred :
    Ordering
    → ℕ
    → Option Square
    → Option Square
    → Bool
    → SearchStats
    → List OrderedMove × SearchStats
ordered_with_preferred o moves preferred_move tt_preferred_move from_shallow stats =
    let (by_table, promoted) =
      promote moves tt_preferred_move (ordered_legal_move_indexes o moves) in
    ((promote moves preferred_move by_table).0, count_preferred promoted from_shallow stats)
