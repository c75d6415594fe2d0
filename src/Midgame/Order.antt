-- ===== src/Midgame/Order.antt =====
-- src/search_ordering.hpp: the history of cutoffs and the killer moves.
use Prim.Native.Nat.{min}
use vibe_othello_engine.Base.{ℕ, Bool, ◌||◌, List, map, get_or, set, replicate, if◌then◌else◌}
use vibe_othello_engine.Base.Int.{ℤ, pos, negsuc, ◌+ℤ◌, ◌-ℤ◌, ◌*ℤ◌, ltb_ℤ, eqb_ℤ}
use vibe_othello_engine.Base.Int32.{wrap_int}
use vibe_othello_engine.Midgame.Table.{max_ℤ}
use vibe_othello_engine.Midgame.Aspiration.{half}

pub record HistoryKillerOrderingParams : Type 0 where
  pub history_cap : ℤ
  pub history_max_bonus : ℤ
  pub killer_first_bonus : ℤ
  pub killer_second_bonus : ℤ

abbrev pub default_history_killer_ordering_params : HistoryKillerOrderingParams
default_history_killer_ordering_params = record {
  history_cap = pos 96;
  history_max_bonus = pos 12;
  killer_first_bonus = pos 8;
  killer_second_bonus = pos 4;
}

-- The two killer moves of a depth.
pub record Killers : Type 0 where
  pub first : ℤ
  pub second : ℤ

abbrev pub no_killers : Killers
no_killers = record { first = negsuc 0; second = negsuc 0 }

pub record HistoryKillerState : Type 0 where
  pub history : List ℤ
  pub killer_moves : List Killers

unfoldable pub reset_history_killers : HistoryKillerState
reset_history_killers = record {
  history = replicate 64 (pos 0);
  killer_moves = replicate 65 no_killers;
}

-- The index of the bucket of a depth.
unfoldable pub depth_bucket : ℤ → ℕ
depth_bucket (pos n) = min n 64
depth_bucket (negsuc n) = 0

unfoldable pub depth_history_increment : ℤ → ℤ
depth_history_increment depth = wrap_int (max_ℤ depth (pos 1) *ℤ max_ℤ depth (pos 1))

unfoldable pub decay_history : HistoryKillerState → HistoryKillerState
decay_history state = record state { history = map half state.history }

unfoldable pub min_ℤ : ℤ → ℤ → ℤ
min_ℤ a b = if ltb_ℤ b a then b else a

-- A move index as an index of an array; the callers have checked that it is not negative.
unfoldable pub index_of_move : ℤ → ℕ
index_of_move (pos n) = n
index_of_move (negsuc n) = 0

unfoldable pub is_off_board : ℤ → Bool
is_off_board move_index = ltb_ℤ move_index (pos 0) || ltb_ℤ (pos 63) move_index

unfoldable pub add_history : HistoryKillerState → ℕ → ℤ → ℤ → HistoryKillerState
add_history state index increment cap = record state {
  history =
      set state.history index
        (min_ℤ (wrap_int (get_or state.history index (pos 0) +ℤ increment)) cap);
}

unfoldable pub record_history_cutoff :
    HistoryKillerState → ℤ → ℤ → HistoryKillerOrderingParams → HistoryKillerState
record_history_cutoff state move_index depth params =
    let increment = depth_history_increment depth in
    let index = index_of_move move_index in
    if is_off_board move_index
    then state
    else add_history
        (if ltb_ℤ (wrap_int (params.history_cap -ℤ increment)) (get_or state.history index (pos 0))
          then decay_history state
          else state)
        index increment params.history_cap

-- The killers of a depth after a cutoff by the move.
unfoldable pub push_killer : ℤ → Killers → Killers
push_killer move_index killers =
    if eqb_ℤ killers.first move_index
    then killers
    else if eqb_ℤ killers.second move_index
    then record { first = killers.second; second = killers.first }
    else record { first = move_index; second = killers.first }

unfoldable pub record_killer_cutoff : HistoryKillerState → ℤ → ℤ → HistoryKillerState
record_killer_cutoff state move_index depth =
    let bucket = depth_bucket depth in
    if is_off_board move_index then state else record state {
      killer_moves =
          set state.killer_moves bucket
            (push_killer move_index (get_or state.killer_moves bucket no_killers));
    }

unfoldable pub killer_bonus : Killers → ℤ → HistoryKillerOrderingParams → ℤ
killer_bonus killers move_index params =
    if eqb_ℤ killers.first move_index
    then params.killer_first_bonus
    else if eqb_ℤ killers.second move_index
    then params.killer_second_bonus
    else pos 0

unfoldable pub history_killer_bonus : HistoryKillerState → ℤ → ℤ → HistoryKillerOrderingParams → ℤ
history_killer_bonus state move_index depth params =
    let history_bonus =
      min_ℤ (get_or state.history (index_of_move move_index) (pos 0)) params.history_max_bonus in
    if is_off_board move_index
    then pos 0
    else history_bonus
      +ℤ killer_bonus (get_or state.killer_moves (depth_bucket depth) no_killers) move_index params

unfoldable pub record_history_killer_cutoff :
    HistoryKillerState → ℤ → ℤ → HistoryKillerOrderingParams → HistoryKillerState
record_history_killer_cutoff state move_index depth params =
    record_killer_cutoff (record_history_cutoff state move_index depth params) move_index depth
