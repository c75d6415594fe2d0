-- ===== src/Midgame/Table.antt =====
-- src/search_tt.hpp: entries, ages, buckets, and the slot that a store replaces.
use Prim.Native.Nat.{min}
use vibe_othello_engine.Base.{
  ℕ, suc, ◌+◌, ◌-◌, ◌/◌, ◌^◌, bit_and, Bool, true, false, not, ◌&&◌, ◌||◌, ◌==◌, ltb, leb, Option,
  none, some, List, [], ◌∷◌, replicate, if◌then◌else◌,
}
use vibe_othello_engine.Base.Int.{ℤ, pos, negsuc, ◌-ℤ◌, ◌*ℤ◌, ltb_ℤ, eqb_ℤ}
use vibe_othello_engine.Base.Int32.{wrap_int}
use vibe_othello_engine.Board.Square.{Square}
use vibe_othello_engine.Search.Bound.{BoundKind, bucket_count_for_entry_count}
use vibe_othello_engine.Search.Line.{SearchNodeResult}
use vibe_othello_engine.Midgame.Options.{SearchMode, SearchEngineOptions}
use vibe_othello_engine.Endgame.Table.{first_slot}

pub record TranspositionEntry : Type 0 where
  pub hash : ℕ
  pub eval_identity : ℕ
  pub generation : ℕ
  pub depth : ℤ
  pub score : ℤ
  pub best_move_index : ℤ
  pub mode : SearchMode
  pub bound : BoundKind
  pub occupied : Bool

unfoldable pub empty_entry : TranspositionEntry
empty_entry = record {
  hash = 0;
  eval_identity = 0;
  generation = 0;
  depth = negsuc 0;
  score = pos 0;
  best_move_index = negsuc 0;
  mode = SearchMode.fixed_depth;
  bound = BoundKind.exact;
  occupied = false;
}

pub record TranspositionScope : Type 0 where
  pub mode : SearchMode
  pub eval_identity : ℕ

pub record TranspositionLookup : Type 0 where
  pub cutoff : Option SearchNodeResult
  pub best_move_hint : Option Square
  pub best_move_hint_from_shallow_entry : Bool

unfoldable pub empty_lookup : TranspositionLookup
empty_lookup = record {
  cutoff = none;
  best_move_hint = none;
  best_move_hint_from_shallow_entry = false;
}

-- `std::numeric_limits<std::uint32_t>::max()`.
abbrev pub max_uint32 : ℕ
max_uint32 = 4294967295

unfoldable pub generation_age : ℕ → ℕ → ℕ
generation_age current_generation entry_generation =
    if current_generation == 0 || entry_generation == 0
    then max_uint32
    else if leb entry_generation current_generation
    then current_generation - entry_generation
    else current_generation + (max_uint32 - entry_generation)

-- `std::max(a, b)` of integers.
unfoldable pub max_ℤ : ℤ → ℤ → ℤ
max_ℤ a b = if ltb_ℤ a b then b else a

unfoldable pub replacement_protection_score : ℤ → ℕ → ℤ
replacement_protection_score depth age =
    wrap_int (wrap_int (max_ℤ depth (pos 0) *ℤ pos 4) -ℤ pos (min age 8))

unfoldable pub same_mode : SearchMode → SearchMode → Bool
same_mode SearchMode.fixed_depth SearchMode.fixed_depth = true
same_mode SearchMode.iterative SearchMode.iterative = true
same_mode SearchMode.exact_endgame SearchMode.exact_endgame = true
same_mode SearchMode.selective SearchMode.selective = true
same_mode _ _ = false

unfoldable pub entry_matches : ℕ → TranspositionScope → TranspositionEntry → Bool
entry_matches hash scope entry =
    entry.occupied
    && entry.hash == hash
    && same_mode entry.mode scope.mode
    && entry.eval_identity == scope.eval_identity

abbrev pub Bucket : Type 0
Bucket = List TranspositionEntry

-- `weakest_entry` with its score and age: the slot and the depth stand for the pointer.
pub record Weakest : Type 0 where
  pub slot : ℕ
  pub depth : ℤ
  pub score : ℤ
  pub age : ℕ

unfoldable pub is_weaker : ℤ → ℕ → ℤ → Weakest → Bool
is_weaker score age depth weakest =
    ltb_ℤ score weakest.score
    || (eqb_ℤ score weakest.score && ltb weakest.age age)
    || (eqb_ℤ score weakest.score && age == weakest.age && ltb_ℤ depth weakest.depth)

unfoldable pub weaker : ℕ → TranspositionEntry → ℕ → Option Weakest → Option Weakest
weaker current_generation entry index none =
    let age = generation_age current_generation entry.generation in
    some (record {
      slot = index;
      depth = entry.depth;
      score = replacement_protection_score entry.depth age;
      age = age;
    })
weaker current_generation entry index (some weakest) =
    let age = generation_age current_generation entry.generation in
    let score = replacement_protection_score entry.depth age in
    if is_weaker score age entry.depth weakest
    then some (record { slot = index; depth = entry.depth; score = score; age = age })
    else some weakest

-- The part of `select_replacement_entry` after its loop.
unfoldable pub replaced_slot : ℤ → Option ℕ → Option Weakest → Option ℕ
replaced_slot incoming_depth (some slot) weakest = some slot
replaced_slot incoming_depth none none = none
replaced_slot incoming_depth none (some weakest) =
    if ltb_ℤ (replacement_protection_score incoming_depth 0) weakest.score
    then none
    else some weakest.slot

unfoldable pub select_loop :
    Bucket → ℕ → ℕ → TranspositionScope → ℕ → ℤ → Option ℕ → Option Weakest → Option ℕ
select_loop [] index hash scope current_generation incoming_depth empty_slot weakest =
    replaced_slot incoming_depth empty_slot weakest
select_loop (entry ∷ entries) index hash scope current_generation incoming_depth empty_slot
      weakest =
    let rest =
      select_loop entries (suc index) hash scope current_generation incoming_depth
        (if entry.occupied then empty_slot else first_slot empty_slot index)
        (if entry.occupied then weaker current_generation entry index weakest else weakest) in
    if entry_matches hash scope entry then some index else rest

unfoldable pub select_replacement_entry : Bucket → ℕ → TranspositionScope → ℕ → ℤ → Option ℕ
select_replacement_entry entries hash scope current_generation incoming_depth =
    select_loop entries 0 hash scope current_generation incoming_depth none none

-- No buckets stand for a null pointer: the table is disabled, or the allocation has failed.
pub record TranspositionTable : Type 0 where
  pub bucket_count : ℕ
  pub buckets : Option (List Bucket)

abbrev pub bucket_width : ℕ
bucket_width = 4

abbrev pub default_entry_count : ℕ
default_entry_count = 2 ^ 18

unfoldable pub normalized_bucket_count : SearchEngineOptions → ℕ
normalized_bucket_count options =
    let requested = options.transposition_table_entries in
    if not options.use_transposition_table || requested == 0
    then 0
    else if ltb (2 ^ 63 / bucket_width) requested
    then bucket_count_for_entry_count default_entry_count bucket_width
    else bucket_count_for_entry_count requested bucket_width

-- `allocates` says whether `new (std::nothrow)` gives the array.
unfoldable pub new_transposition_table : Bool → SearchEngineOptions → TranspositionTable
new_transposition_table allocates options =
    let bucket_count = normalized_bucket_count options in
    record {
      bucket_count = bucket_count;
      buckets =
          if bucket_count == 0 || not allocates
          then none
          else some (replicate bucket_count (replicate bucket_width empty_entry));
    }

unfoldable pub bucket_index : TranspositionTable → ℕ → ℕ
bucket_index table hash = bit_and hash (table.bucket_count - 1)
