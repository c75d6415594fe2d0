-- ===== src/Midgame/Access.antt =====
-- src/search_tt.hpp: lookup and store. The model of a bucket that does not exist is one without
-- entries; `bucket_index` never asks for one.
use vibe_othello_engine.Base.{
  ℕ, Bool, true, false, not, ◌&&◌, ◌||◌, ◌==◌, Option, none, some, [], ◌∷◌, set, get_or,
  if◌then◌else◌,
}
use vibe_othello_engine.Base.Int.{ℤ, ltb_ℤ}
use vibe_othello_engine.Board.Square.{Square, from_index, min_index, max_index}
use vibe_othello_engine.Search.Bound.{BoundKind, bound_for_score, proves_cutoff}
use vibe_othello_engine.Search.Line.{SearchNodeResult, search_node_result_from_transposition_entry}
use vibe_othello_engine.Endgame.Table.{increment}
use vibe_othello_engine.Endgame.Access.{count_if, stored_index}
use vibe_othello_engine.Midgame.Stats.{SearchStats}
use vibe_othello_engine.Midgame.Table.{
  TranspositionEntry, empty_entry, TranspositionScope, TranspositionLookup, empty_lookup,
  entry_matches, Bucket, select_replacement_entry, TranspositionTable, bucket_index,
}

unfoldable pub record_hit : SearchStats → BoundKind → SearchStats
record_hit stats BoundKind.exact = record stats {
  tt_hits = increment stats.tt_hits;
  tt_exact_hits = increment stats.tt_exact_hits;
}
record_hit stats BoundKind.lower = record stats {
  tt_hits = increment stats.tt_hits;
  tt_lower_hits = increment stats.tt_lower_hits;
}
record_hit stats BoundKind.upper = record stats {
  tt_hits = increment stats.tt_hits;
  tt_upper_hits = increment stats.tt_upper_hits;
}

unfoldable pub node_result_from_entry : TranspositionEntry → SearchNodeResult
node_result_from_entry entry =
    search_node_result_from_transposition_entry entry.score entry.best_move_index

unfoldable pub best_move_from_index : ℤ → Option Square
best_move_from_index index =
    if ltb_ℤ index min_index || ltb_ℤ max_index index then none else from_index index

-- The pointer to the second counter is null unless the entry is shallow.
unfoldable pub best_move_hint_from_entry :
    TranspositionEntry → Bool → SearchStats → Option Square × SearchStats
best_move_hint_from_entry entry shallow stats = elim (best_move_from_index entry.best_move_index) [
  | none ↦ (none, stats)
  | some square ↦ (
    some square,
    record stats {
      tt_move_ordering_hits = increment stats.tt_move_ordering_hits;
      shallow_tt_move_ordering_hits = count_if shallow stats.shallow_tt_move_ordering_hits;
    },
  )
]

unfoldable pub first_match : ℕ → TranspositionScope → Bucket → Option TranspositionEntry
first_match hash scope [] = none
first_match hash scope (entry ∷ entries) =
    if entry_matches hash scope entry then some entry else first_match hash scope entries

unfoldable pub probed : SearchStats → SearchStats
probed stats = record stats { tt_move_ordering_probes = increment stats.tt_move_ordering_probes }

unfoldable pub hint_lookup :
    TranspositionEntry → Bool → SearchStats → TranspositionLookup × SearchStats
hint_lookup entry shallow stats =
    let (hint, counted) = best_move_hint_from_entry entry shallow stats in
    (
      record { cutoff = none; best_move_hint = hint; best_move_hint_from_shallow_entry = shallow },
      counted,
    )

-- The part of `lookup` that reads the matching entry.
unfoldable pub lookup_entry :
    TranspositionEntry → ℤ → ℤ → ℤ → Bool → Bool → SearchStats → TranspositionLookup × SearchStats
lookup_entry entry depth alpha beta collect_best_move_hint allow_shallow_best_move_hint stats =
    let depth_sufficient = not (ltb_ℤ entry.depth depth) in
    if depth_sufficient && proves_cutoff entry.bound entry.score alpha beta
    then (
      record {
        cutoff = some (node_result_from_entry entry);
        best_move_hint = none;
        best_move_hint_from_shallow_entry = false;
      },
      record_hit stats entry.bound,
    )
    else if not collect_best_move_hint
    then (empty_lookup, stats)
    else if depth_sufficient
    then hint_lookup entry false (probed stats)
    else if not allow_shallow_best_move_hint
    then (empty_lookup, probed stats)
    else hint_lookup entry true (record (probed stats) {
      shallow_tt_move_ordering_probes = increment stats.shallow_tt_move_ordering_probes;
    })

unfoldable pub lookup_bucket :
    Bucket
    → ℕ
    → TranspositionScope
    → ℤ
    → ℤ
    → ℤ
    → Bool
    → Bool
    → SearchStats
    → TranspositionLookup × SearchStats
lookup_bucket bucket hash scope depth alpha beta collect_best_move_hint allow_shallow_best_move_hint
      stats =
    elim (first_match hash scope bucket) [
      | none ↦ (empty_lookup, if collect_best_move_hint then probed stats else stats)
      | some entry ↦
          lookup_entry entry depth alpha beta collect_best_move_hint allow_shallow_best_move_hint
            stats
    ]

unfoldable pub lookup :
    TranspositionTable
    → ℕ
    → TranspositionScope
    → ℤ
    → ℤ
    → ℤ
    → Bool
    → Bool
    → SearchStats
    → TranspositionLookup × SearchStats
lookup table hash scope depth alpha beta collect_best_move_hint allow_shallow_best_move_hint stats =
    elim (table.buckets) [
      | none ↦ (empty_lookup, stats)
      | some buckets ↦
          lookup_bucket (get_or buckets (bucket_index table hash) []) hash scope depth alpha beta
            collect_best_move_hint allow_shallow_best_move_hint
            (record stats { tt_lookups = increment stats.tt_lookups })
    ]

unfoldable pub stored_entry :
    ℕ → TranspositionScope → ℕ → ℤ → ℤ → ℤ → ℤ → Option Square → TranspositionEntry
stored_entry hash scope generation depth score original_alpha beta best_move = record {
  hash = hash;
  eval_identity = scope.eval_identity;
  generation = generation;
  depth = depth;
  score = score;
  best_move_index = stored_index best_move;
  mode = scope.mode;
  bound = bound_for_score score original_alpha beta;
  occupied = true;
}

unfoldable pub count_store : TranspositionEntry → ℕ → SearchStats → SearchStats
count_store entry hash stats = record stats {
  tt_stores = increment stats.tt_stores;
  tt_overwrites = count_if entry.occupied stats.tt_overwrites;
  tt_collisions = count_if (entry.occupied && not (entry.hash == hash)) stats.tt_collisions;
}

-- The part of `store` that writes the bucket, with whether it has stored.
unfoldable pub store_bucket :
    Bucket
    → ℕ
    → TranspositionScope
    → ℕ
    → TranspositionEntry
    → SearchStats
    → Bucket × Bool × SearchStats
store_bucket bucket hash scope generation entry stats =
    elim (select_replacement_entry bucket hash scope generation entry.depth) [
      | none ↦
          (bucket, false, record stats { tt_rejected_stores = increment stats.tt_rejected_stores })
      | some slot ↦
          (set bucket slot entry, true, count_store (get_or bucket slot empty_entry) hash stats)
    ]

-- What a store leaves: the table, whether it has stored, and the counters.
pub record Stored : Type 0 where
  pub table : TranspositionTable
  pub stored : Bool
  pub stats : SearchStats

unfoldable pub store :
    TranspositionTable
    → ℕ
    → TranspositionScope
    → ℕ
    → ℤ
    → ℤ
    → ℤ
    → ℤ
    → Option Square
    → SearchStats
    → Stored
store table hash scope generation depth score original_alpha beta best_move stats =
    elim (table.buckets) [
      | none ↦ record { table = table; stored = false; stats = stats }
      | some buckets ↦
          let index = bucket_index table hash in
          let (bucket, stored, counted) =
            store_bucket (get_or buckets index []) hash scope generation
              (stored_entry hash scope generation depth score original_alpha beta best_move)
              stats in
          record {
            table = record table { buckets = some (set buckets index bucket) };
            stored = stored;
            stats = counted;
          }
    ]
