-- ===== src/Endgame/Access.antt =====
-- src/endgame_tt.hpp: lookup and store. The model of a bucket that does not exist is one without
-- entries; `bucket_index` never asks for one.
use vibe_othello_engine.Base.{
  ℕ, Bool, true, false, not, ◌&&◌, ◌==◌, Option, none, some, [], set, get_or, if◌then◌else◌,
}
use vibe_othello_engine.Base.Int.{ℤ, pos, negsuc, ltb_ℤ}
use vibe_othello_engine.Board.Square.{Square}
use vibe_othello_engine.Search.Bound.{BoundKind, bound_for_score, proves_cutoff}
use vibe_othello_engine.Endgame.Table.{
  ExactTranspositionEntry, no_entry, ExactTranspositionLookup, no_lookup, ExactEndgameStats,
  increment, to_int8, Bucket, ExactTranspositionTable, bucket_index, matching_entry,
  replacement_entry, record_hit, node_result_from_entry, best_move_hint_from_entry,
}

unfoldable pub is_lower : BoundKind → Bool
is_lower BoundKind.exact = false
is_lower BoundKind.lower = true
is_lower BoundKind.upper = false

-- The part of `lookup` that reads the matching entry.
unfoldable pub lookup_entry :
    ExactTranspositionEntry
    → ℤ
    → ℤ
    → Bool
    → ExactEndgameStats
    → ExactTranspositionLookup × ExactEndgameStats
lookup_entry entry alpha beta collect_best_move_hint stats =
    if proves_cutoff entry.bound entry.score alpha beta
    then (
      record { cutoff = some (node_result_from_entry entry); best_move_hint = none },
      record_hit stats entry.bound,
    )
    else if not collect_best_move_hint
    then (no_lookup, stats)
    else if not (is_lower entry.bound)
    then (no_lookup, stats)
    else let (hint, counted) =
        best_move_hint_from_entry entry
          (record stats { tt_move_ordering_probes = increment stats.tt_move_ordering_probes }) in
      (record { cutoff = none; best_move_hint = hint }, counted)

-- The part of `lookup` that reads the bucket.
unfoldable pub lookup_bucket :
    Bucket → ℕ → ℤ → ℤ → ℤ → Bool → ExactEndgameStats → ExactTranspositionLookup × ExactEndgameStats
lookup_bucket bucket hash empties alpha beta collect_best_move_hint stats =
    elim (matching_entry hash bucket) [
      | none ↦ (no_lookup, stats)
      | some entry ↦
          if ltb_ℤ entry.empties empties
          then (no_lookup, stats)
          else lookup_entry entry alpha beta collect_best_move_hint stats
    ]

unfoldable pub lookup :
    ExactTranspositionTable
    → ℕ
    → ℤ
    → ℤ
    → ℤ
    → Bool
    → ExactEndgameStats
    → ExactTranspositionLookup × ExactEndgameStats
lookup table hash empties alpha beta collect_best_move_hint stats = elim (table.buckets) [
  | none ↦ (no_lookup, stats)
  | some buckets ↦
      lookup_bucket (get_or buckets (bucket_index table hash) []) hash empties alpha beta
        collect_best_move_hint (record stats { tt_lookups = increment stats.tt_lookups })
]

unfoldable pub stored_index : Option Square → ℤ
stored_index none = negsuc 0
stored_index (some square) = pos square.index

unfoldable pub new_entry : ℕ → ℤ → ℤ → ℤ → ℤ → Option Square → ExactTranspositionEntry
new_entry hash empties score original_alpha beta best_move = record {
  hash = hash;
  score = score;
  empties = to_int8 empties;
  best_move_index = to_int8 (stored_index best_move);
  bound = bound_for_score score original_alpha beta;
  occupied = true;
}

unfoldable pub count_if : Bool → ℕ → ℕ
count_if test n = if test then increment n else n

-- The counters of a store that overwrites the entry.
unfoldable pub count_store : ExactTranspositionEntry → ℕ → ExactEndgameStats → ExactEndgameStats
count_store entry hash stats = record stats {
  tt_stores = increment stats.tt_stores;
  tt_overwrites = count_if entry.occupied stats.tt_overwrites;
  tt_collisions = count_if (entry.occupied && not (entry.hash == hash)) stats.tt_collisions;
}

-- The part of `store` that writes the bucket.
unfoldable pub store_bucket :
    Bucket → ℕ → ℤ → ExactTranspositionEntry → ExactEndgameStats → Bucket × ExactEndgameStats
store_bucket bucket hash empties entry stats = elim (replacement_entry bucket hash empties) [
  | none ↦ (bucket, record stats { tt_rejected_stores = increment stats.tt_rejected_stores })
  | some slot ↦ (set bucket slot entry, count_store (get_or bucket slot no_entry) hash stats)
]

unfoldable pub store :
    ExactTranspositionTable
    → ℕ
    → ℤ
    → ℤ
    → ℤ
    → ℤ
    → Option Square
    → ExactEndgameStats
    → ExactTranspositionTable × ExactEndgameStats
store table hash empties score original_alpha beta best_move stats = elim (table.buckets) [
  | none ↦ (table, stats)
  | some buckets ↦
      let index = bucket_index table hash in
      let (bucket, counted) =
        store_bucket (get_or buckets index []) hash empties
          (new_entry hash empties score original_alpha beta best_move) stats in
      (record table { buckets = some (set buckets index bucket) }, counted)
]
