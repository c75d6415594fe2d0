-- ===== src/Endgame/Table.antt =====
-- src/endgame_tt.hpp: entries, buckets, lookup and store, with the counters they keep.
use vibe_othello_engine.Base.{
  ℕ, suc, ◌+◌, ◌-◌, ◌%◌, ◌^◌, bit_and, Bool, false, not, ◌&&◌, ◌||◌, ◌==◌, ltb, Option, none, some,
  List, [], ◌∷◌, replicate, if◌then◌else◌,
}
use vibe_othello_engine.Base.Int.{ℤ, pos, negsuc, ltb_ℤ}
use vibe_othello_engine.Board.Square.{Square, from_index, min_index, max_index}
use vibe_othello_engine.Search.Bound.{BoundKind, bucket_count_for_entry_count}
use vibe_othello_engine.Search.Line.{NodeResult, node_result_from_transposition_entry}

pub record ExactTranspositionEntry : Type 0 where
  pub hash : ℕ
  pub score : ℤ
  pub empties : ℤ
  pub best_move_index : ℤ
  pub bound : BoundKind
  pub occupied : Bool

unfoldable pub no_entry : ExactTranspositionEntry
no_entry = record {
  hash = 0;
  score = pos 0;
  empties = negsuc 0;
  best_move_index = negsuc 0;
  bound = BoundKind.exact;
  occupied = false;
}

pub record ExactTranspositionLookup : Type 0 where
  pub cutoff : Option NodeResult
  pub best_move_hint : Option Square

unfoldable pub no_lookup : ExactTranspositionLookup
no_lookup = record { cutoff = none; best_move_hint = none }

pub record ExactEndgameStats : Type 0 where
  pub nodes : ℕ
  pub tt_lookups : ℕ
  pub tt_hits : ℕ
  pub tt_exact_hits : ℕ
  pub tt_lower_hits : ℕ
  pub tt_upper_hits : ℕ
  pub tt_stores : ℕ
  pub tt_overwrites : ℕ
  pub tt_collisions : ℕ
  pub tt_rejected_stores : ℕ
  pub tt_move_ordering_probes : ℕ
  pub tt_move_ordering_hits : ℕ
  pub tt_move_ordering_used : ℕ

-- `++` on a counter of 64 bits.
unfoldable pub increment : ℕ → ℕ
increment n = (n + 1) % 2 ^ 64

-- `static_cast<std::int8_t>`.
unfoldable pub to_int8 : ℤ → ℤ
to_int8 (pos n) = if ltb (n % 256) 128 then pos (n % 256) else negsuc (255 - n % 256)
to_int8 (negsuc n) = if ltb (n % 256) 128 then negsuc (n % 256) else pos (255 - n % 256)

abbrev pub Bucket : Type 0
Bucket = List ExactTranspositionEntry

-- No buckets stand for a null pointer: the table is disabled, or the allocation has failed.
pub record ExactTranspositionTable : Type 0 where
  pub bucket_count : ℕ
  pub buckets : Option (List Bucket)

abbrev pub bucket_width : ℕ
bucket_width = 8

abbrev pub max_diagnostic_entry_count : ℕ
max_diagnostic_entry_count = 2 ^ 22

unfoldable pub entry_count_for_empties : ℤ → ℕ
entry_count_for_empties empties =
    if not (ltb_ℤ (pos 8) empties)
    then 0
    else if not (ltb_ℤ (pos 10) empties)
    then 2 ^ 14
    else if not (ltb_ℤ (pos 12) empties)
    then 2 ^ 16
    else 2 ^ 21

unfoldable pub normalized_bucket_count : ℤ → Option ℕ → ℕ
normalized_bucket_count root_empties none =
    bucket_count_for_entry_count (entry_count_for_empties root_empties) bucket_width
normalized_bucket_count root_empties (some requested_entries) =
    if requested_entries == 0
    then 0
    else if ltb max_diagnostic_entry_count requested_entries
    then bucket_count_for_entry_count (entry_count_for_empties root_empties) bucket_width
    else bucket_count_for_entry_count requested_entries bucket_width

-- The allocation may fail: `allocates` says whether `new (std::nothrow)` gives the array.
unfoldable pub new_table : Bool → ℤ → Option ℕ → ExactTranspositionTable
new_table allocates root_empties requested_entries =
    let bucket_count = normalized_bucket_count root_empties requested_entries in
    record {
      bucket_count = bucket_count;
      buckets =
          if bucket_count == 0 || not allocates
          then none
          else some (replicate bucket_count (replicate bucket_width no_entry));
    }

unfoldable pub bucket_index : ExactTranspositionTable → ℕ → ℕ
bucket_index table hash = bit_and hash (table.bucket_count - 1)

unfoldable pub matches : ℕ → ExactTranspositionEntry → Bool
matches hash entry = entry.occupied && entry.hash == hash

-- The loop of `lookup`: the first entry of the hash.
unfoldable pub matching_entry : ℕ → Bucket → Option ExactTranspositionEntry
matching_entry hash [] = none
matching_entry hash (entry ∷ entries) =
    if matches hash entry then some entry else matching_entry hash entries

unfoldable pub first_slot : Option ℕ → ℕ → Option ℕ
first_slot none index = some index
first_slot (some slot) index = some slot

-- The slot of the shallowest entry seen, and its empties.
pub record Shallowest : Type 0 where
  pub slot : ℕ
  pub empties : ℤ

unfoldable pub shallower : ExactTranspositionEntry → ℕ → Shallowest → Shallowest
shallower entry index shallowest =
    if ltb_ℤ entry.empties shallowest.empties
    then record { slot = index; empties = entry.empties }
    else shallowest

unfoldable pub replacement_loop : Bucket → ℕ → ℕ → ℤ → Option ℕ → Shallowest → Option ℕ
replacement_loop [] index hash empties (some slot) shallowest = some slot
replacement_loop [] index hash empties none shallowest =
    if ltb_ℤ empties shallowest.empties then none else some shallowest.slot
replacement_loop (entry ∷ entries) index hash empties empty_slot shallowest =
    let rest =
      replacement_loop entries (suc index) hash empties
        (if entry.occupied then empty_slot else first_slot empty_slot index)
        (if entry.occupied then shallower entry index shallowest else shallowest) in
    if matches hash entry then some index else rest

-- The slot that a store of the hash writes, if any; a bucket is not empty.
unfoldable pub replacement_entry : Bucket → ℕ → ℤ → Option ℕ
replacement_entry [] hash empties = none
replacement_entry (entry ∷ entries) hash empties =
    replacement_loop (entry ∷ entries) 0 hash empties none
      (record { slot = 0; empties = entry.empties })

unfoldable pub record_hit : ExactEndgameStats → BoundKind → ExactEndgameStats
record_hit stats BoundKind.exact = record stats {
  tt_hits = increment stats.tt_hits;
  tt_exact_hits = increment stats.tt_exact_hits;
}
record_hit stats BoundKind.lower = record stats {
  tt_hits = increment stats.tt_hits;
  tt_lower_hits = increment stats.tt_lower_hits;
}
record_hit stats BoundKind.upper = record stats {
  tt_hits = increment stats.tt_hits;
  tt_upper_hits = increment stats.tt_upper_hits;
}

unfoldable pub node_result_from_entry : ExactTranspositionEntry → NodeResult
node_result_from_entry entry =
    node_result_from_transposition_entry entry.score entry.best_move_index

unfoldable pub best_move_hint_from_entry :
    ExactTranspositionEntry → ExactEndgameStats → Option Square × ExactEndgameStats
best_move_hint_from_entry entry stats =
    if ltb_ℤ entry.best_move_index min_index || ltb_ℤ max_index entry.best_move_index
    then (none, stats)
    else elim (from_index entry.best_move_index) [
      | none ↦ (none, stats)
      | some square ↦ (
        some square,
        record stats { tt_move_ordering_hits = increment stats.tt_move_ordering_hits },
      )
    ]
