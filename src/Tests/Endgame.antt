-- ===== src/Tests/Endgame.antt =====
-- The theorems on the transposition table of the endgame, at a table of one bucket.
use mathlib.Core.Path.{subst}
use vibe_othello_engine.Base.{
  ℕ, zero, suc, ◌≡◌, refl, arith, true, some, none, [], ◌∷◌, some_injective, AllOf, ◌+◌, ◌-◌, ◌^◌,
}
use vibe_othello_engine.Base.Int.{ℤ, pos, negsuc}
use vibe_othello_engine.Search.Bound.{BoundKind, IsFailSoft, proves_cutoff}
use vibe_othello_engine.Search.Line.{NodeResult}
use vibe_othello_engine.Endgame.Table.{
  ExactTranspositionEntry, ExactTranspositionTable, ExactEndgameStats, Bucket, no_entry,
  replacement_entry, replacement_loop, matching_entry, matches, first_slot, shallower, bucket_index,
}
use vibe_othello_engine.Endgame.Access.{lookup, lookup_bucket, lookup_entry, store}
use vibe_othello_engine.Endgame.Replacement.{IsReplacement, replacement_entry-IsReplacement}
use vibe_othello_engine.Endgame.RoundTrip.{lookup-store}
use vibe_othello_engine.Board.{Side}
use vibe_othello_engine.Search.Position.{SearchPosition, empty}
use vibe_othello_engine.Endgame.Last.{last_empty_squares, solve_last_4}
use vibe_othello_engine.Endgame.Exact.{minimax}
use vibe_othello_engine.Endgame.Minimax.{last_value, solve_last_4-IsFailSoft}
use vibe_othello_engine.Endgame.Sound.{IsSound, IsSoundTable, lookup-IsFailSoft, store-IsSoundTable}
use vibe_othello_engine.Tests.Program.{d3}
use mathlib.Core.List.{Perm}
use vibe_othello_engine.Bits.Digit.{bit}
use vibe_othello_engine.Endgame.Regions.{flood_from}
use vibe_othello_engine.Endgame.Joined.{IsJoined, flood_from-IsJoined}
use vibe_othello_engine.Search.Collect.{collect}
use vibe_othello_engine.Search.Sort.{IsOrdered}
use vibe_othello_engine.Search.Position.{from_board}
use vibe_othello_engine.Board.{initial}
use vibe_othello_engine.Endgame.Order.{
  OrderedMove, EndgameMoveOrderingPolicy, default_endgame_move_ordering_params,
  ordered_legal_move_indexes, ordered_with_tt_move,
}
use vibe_othello_engine.Endgame.Ordered.{move_on, ordered_with_tt_move-Perm}

abbrev no_stats : ExactEndgameStats
no_stats = record {
  nodes = 0;
  tt_lookups = 0;
  tt_hits = 0;
  tt_exact_hits = 0;
  tt_lower_hits = 0;
  tt_upper_hits = 0;
  tt_stores = 0;
  tt_overwrites = 0;
  tt_collisions = 0;
  tt_rejected_stores = 0;
  tt_move_ordering_probes = 0;
  tt_move_ordering_hits = 0;
  tt_move_ordering_used = 0;
}

abbrev deep : ExactTranspositionEntry
deep = record {
  hash = 5;
  score = pos 6;
  empties = pos 12;
  best_move_index = pos 19;
  bound = BoundKind.exact;
  occupied = true;
}

-- Two slots of the bucket are enough: one is taken, one is free.
abbrev bucket : Bucket
bucket = deep ∷ no_entry ∷ []

abbrev table : ExactTranspositionTable
table = record { bucket_count = 1; buckets = some (bucket ∷ []) }

-- The value of every position is 6.
abbrev value : ℕ → ℤ
value hash = pos 6

second_slot : replacement_entry bucket 9 (pos 10) ≡ some 1
unfolding replacement_entry replacement_loop matches first_slot shallower no_entry
second_slot = refl

rejected : replacement_entry (deep ∷ []) 9 (pos 10) ≡ none
unfolding replacement_entry replacement_loop matches first_slot shallower
rejected = refl

replacement_entry-IsReplacement_example :
    IsReplacement bucket 9 (pos 10) (replacement_entry bucket 9 (pos 10))
replacement_entry-IsReplacement_example = replacement_entry-IsReplacement bucket 9 (pos 10)

lookup-store_example :
    (r : NodeResult) × ((lookup
        (store table 9 (pos 10) (pos 4) (negsuc 0) (pos 8) (some d3) no_stats).0
        9
        (pos 10)
        (negsuc 0)
        (pos 8)
        true
        no_stats).0.cutoff
      ≡ some r)
    × (r.score ≡ pos 4)
    × (r.best_move ≡ some d3)
lookup-store_example =
    lookup-store 9 10 (pos 4) (negsuc 0) (pos 8) (some d3) (omega arith) 1 (bucket ∷ []) bucket 1
      refl second_slot true no_stats no_stats (omega arith)

bucket-IsSound : AllOf (IsSound value) bucket
unfolding no_entry
bucket-IsSound zero e h o = subst (IsSound value) (some_injective deep e h) (λ t. refl) o
bucket-IsSound (suc zero) e h o =
    subst (IsSound value) (some_injective no_entry e h) (λ t. absurd (ground (arith, t))) o
bucket-IsSound (suc (suc i)) e h o = absurd (ground (arith, h))

one_bucket : AllOf (AllOf (IsSound value)) (bucket ∷ [])
one_bucket zero b h = subst (AllOf (IsSound value)) (some_injective bucket b h) bucket-IsSound
one_bucket (suc i) b h = absurd (ground (arith, h))

table-IsSound : IsSoundTable value table
table-IsSound buckets e =
    subst (AllOf (AllOf (IsSound value))) (some_injective _ buckets e) one_bucket

stored_hit :
    (r : NodeResult) × ((lookup table 5 (pos 12) (pos 0) (pos 3) true no_stats).0.cutoff ≡ some r)
unfolding lookup lookup_bucket lookup_entry matching_entry matches proves_cutoff bucket_index
stored_hit = (_, refl)

lookup-IsFailSoft_example : IsFailSoft (pos 6) (pos 0) (pos 3) (stored_hit.0.score)
lookup-IsFailSoft_example =
    lookup-IsFailSoft value table 5 (pos 12) (pos 0) (pos 3) true no_stats stored_hit.0
      table-IsSound stored_hit.1

store-IsSoundTable_example :
    IsSoundTable value (store table 9 (pos 10) (pos 4) (negsuc 0) (pos 3) (some d3) no_stats).0
store-IsSoundTable_example =
    store-IsSoundTable value table 9 (pos 10) (pos 4) (negsuc 0) (pos 3) (some d3) no_stats
      table-IsSound refl (IsFailSoft.high (omega arith) (omega arith))

-- Four empty squares on the first rank; the player has the upper half of the board.
abbrev four_left : SearchPosition
four_left = record {
  player = 2 ^ 64 - 2 ^ 32;
  opponent_discs = 2 ^ 32 - 16;
  side_to_move = Side.black;
}

solve_last_4-IsFailSoft_example :
    IsFailSoft
      (minimax (minimax (minimax last_value)) four_left (last_empty_squares 4 (empty four_left)))
      (negsuc 63)
      (pos 64)
      (solve_last_4 four_left (negsuc 63) (pos 64) no_stats).0.score
solve_last_4-IsFailSoft_example =
    solve_last_4-IsFailSoft four_left (negsuc 63) (pos 64) no_stats refl

abbrev by_parity : EndgameMoveOrderingPolicy
by_parity = record { params = default_endgame_move_ordering_params; use_empty_region_parity = true }

-- The four moves of the initial position.
abbrev first_moves : ℕ
first_moves = 2 ^ 19 + 2 ^ 26 + 2 ^ 37 + 2 ^ 44

ordered_with_tt_move-Perm_example :
    Perm
      (ordered_with_tt_move (from_board initial) 0 first_moves (some d3) no_stats by_parity).0
      (collect (move_on (from_board initial) 0 by_parity) 64 0 first_moves)
    × IsOrdered
        (λ (move : OrderedMove). move.order_score)
        (λ (move : OrderedMove). move.index)
        (ordered_legal_move_indexes (from_board initial) 0 first_moves by_parity)
ordered_with_tt_move-Perm_example =
    ordered_with_tt_move-Perm (from_board initial) 0 by_parity first_moves (some d3) no_stats
      (omega arith)

-- a1, b1 and b2, and h8 apart.
abbrev corner_and_far : ℕ
corner_and_far = 1 + 2 + 2 ^ 9 + 2 ^ 63

corner_set : bit 1 corner_and_far ≡ true
unfolding bit
corner_set = refl

flood_from-IsJoined_example :
    ((flood_from 1 corner_and_far).stack ≡ [])
    × ((i : ℕ)
        → (bit i (flood_from 1 corner_and_far).region ≡ true → IsJoined corner_and_far 1 i)
          × (IsJoined corner_and_far 1 i → bit i (flood_from 1 corner_and_far).region ≡ true))
flood_from-IsJoined_example =
    flood_from-IsJoined corner_and_far 1 (omega arith) (omega arith) corner_set
