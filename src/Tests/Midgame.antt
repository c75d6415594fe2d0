-- ===== src/Tests/Midgame.antt =====
-- The theorems on the search of the middle game, at a bucket of two slots and small values.
use mathlib.Core.Path.{subst}
use vibe_othello_engine.Base.{
  ℕ, zero, suc, ◌-◌, ◌∙◌, sym, ◌≡◌, refl, arith, true, false, ◌+◌, ◌^◌, none, some, [], ◌∷◌,
  some_injective, AllOf,
}
use vibe_othello_engine.Base.Int.{ℤ, pos, negsuc, ◌≤ℤ◌, ◌*ℤ◌, ◌-ℤ◌}
use vibe_othello_engine.Board.{Board, Side, initial}
use vibe_othello_engine.Search.Bound.{BoundKind, IsFailSoft, proves_cutoff}
use vibe_othello_engine.Search.Line.{SearchNodeResult}
use vibe_othello_engine.Patterns.Bundle.{PatternTableBundle, all_pattern_table_families_active}
use vibe_othello_engine.Evaluation.Config.{default_evaluation_config}
use vibe_othello_engine.Midgame.Stats.{SearchStats, no_search_stats}
use vibe_othello_engine.Midgame.Options.{SearchMode, default_engine_options, default_search_options}
use vibe_othello_engine.Midgame.Table.{
  TranspositionEntry, empty_entry, TranspositionScope, Bucket, TranspositionTable,
  select_replacement_entry, entry_matches, same_mode, generation_age, max_uint32, bucket_index,
  select_loop, weaker, is_weaker, replacement_protection_score, replaced_slot, max_ℤ,
}
use vibe_othello_engine.Midgame.Access.{lookup, lookup_bucket, lookup_entry, first_match, store}
use vibe_othello_engine.Base.Int32.{wrap_int}
use vibe_othello_engine.Midgame.Strength.{IsModest}
use vibe_othello_engine.Midgame.Replacement.{IsSelected}
use vibe_othello_engine.Midgame.Selection.{select_replacement_entry-IsSelected}
use vibe_othello_engine.Midgame.Sound
use vibe_othello_engine.Midgame.Aspiration.{search_aspirated_with_context}
use vibe_othello_engine.Midgame.Window.{search_aspirated_with_context-value}
use vibe_othello_engine.Midgame.Order.{
  HistoryKillerState, record_history_killer_cutoff, default_history_killer_ordering_params,
  depth_history_increment,
}
use vibe_othello_engine.Midgame.History.{
  IsHistory, IsBetween, AreDistinct, record_history_killer_cutoff-IsHistory,
}
use vibe_othello_engine.Midgame.Session.{evaluation_config_identity, next_generation}
use vibe_othello_engine.Midgame.Identity.{AgreeOnRead, evaluation_config_identity-AgreeOnRead}
use vibe_othello_engine.Midgame.Ages.{later, generation_age-later}
use vibe_othello_engine.Midgame.RootDecision.{IsDecision, decide_exact_endgame_root-IsDecision}
use vibe_othello_engine.Rules.Play.{IsBoard}
use vibe_othello_engine.Bits.Digit.{bit-and}
use vibe_othello_engine.Bits.Word.{bit-zero}
use vibe_othello_engine.Midgame.RootPolicy.{decide_exact_endgame_root}
use vibe_othello_engine.Tests.Program.{d3}
use mathlib.Core.List.{Perm}
use vibe_othello_engine.Search.Position.{from_board}
use vibe_othello_engine.Search.Collect.{collect}
use vibe_othello_engine.Search.Sort.{IsOrdered}
use vibe_othello_engine.Midgame.Moves.{
  OrderedMove, Ordering, default_move_ordering_params, ordered_legal_move_indexes,
  ordered_with_preferred,
}
use vibe_othello_engine.Midgame.Ordered.{move_on, ordered_with_preferred-Perm}

abbrev scope : TranspositionScope
scope = record { mode = SearchMode.iterative; eval_identity = 7 }

abbrev searched : TranspositionEntry
searched = record {
  hash = 5;
  eval_identity = 7;
  generation = 3;
  depth = pos 4;
  score = pos 6;
  best_move_index = pos 19;
  mode = SearchMode.iterative;
  bound = BoundKind.exact;
  occupied = true;
}

abbrev two_slots : Bucket
two_slots = searched ∷ empty_entry ∷ []

-- As strong as `searched` is after one search, but older: 4 * 5 - 5 is 4 * 4 - 1.
abbrev older : TranspositionEntry
older = record searched { hash = 6; generation = 3; depth = pos 5 }

abbrev full_bucket : Bucket
full_bucket = record searched { generation = 7 } ∷ older ∷ []

full_bucket-IsModest : AllOf (λ (e : TranspositionEntry). IsModest e.depth) full_bucket
full_bucket-IsModest zero e h =
    subst (λ (e : TranspositionEntry). IsModest e.depth) (some_injective _ e h) (omega arith)
full_bucket-IsModest (suc zero) e h =
    subst (λ (e : TranspositionEntry). IsModest e.depth) (some_injective _ e h) (omega arith)
full_bucket-IsModest (suc (suc i)) e h = absurd (ground (arith, h))

older_goes : select_replacement_entry full_bucket 9 scope 8 (pos 6) ≡ some 1
unfolding select_replacement_entry select_loop entry_matches same_mode weaker is_weaker
    generation_age replacement_protection_score replaced_slot max_ℤ wrap_int ◌*ℤ◌ ◌-ℤ◌
older_goes = refl

select_replacement_entry-IsSelected_example :
    IsSelected full_bucket 9 scope 8
      (pos 6)
      (select_replacement_entry full_bucket 9 scope 8 (pos 6))
select_replacement_entry-IsSelected_example =
    select_replacement_entry-IsSelected full_bucket 9 scope 8 (pos 6) full_bucket-IsModest
      (omega arith)

abbrev small_table : TranspositionTable
small_table = record { bucket_count = 1; buckets = some (two_slots ∷ []) }

-- The value of every position is 6.
abbrev six : SearchMode → ℕ → ℕ → ℤ → ℤ
six mode identity hash depth = pos 6

two_slots-IsSound : AllOf (Sound.IsSound six) two_slots
unfolding empty_entry
two_slots-IsSound zero e h o = subst (Sound.IsSound six) (some_injective searched e h) (λ t. refl) o
two_slots-IsSound (suc zero) e h o =
    subst (Sound.IsSound six) (some_injective empty_entry e h) (λ t. absurd (ground (arith, t))) o
two_slots-IsSound (suc (suc i)) e h o = absurd (ground (arith, h))

buckets-IsSound : AllOf (AllOf (Sound.IsSound six)) (two_slots ∷ [])
buckets-IsSound zero b h =
    subst (AllOf (Sound.IsSound six)) (some_injective two_slots b h) two_slots-IsSound
buckets-IsSound (suc i) b h = absurd (ground (arith, h))

small_table-IsSound : Sound.IsSoundTable six small_table
small_table-IsSound buckets e =
    subst (AllOf (AllOf (Sound.IsSound six))) (some_injective _ buckets e) buckets-IsSound

hit :
    (r : SearchNodeResult) × ((lookup small_table 5 scope
        (pos 3)
        (pos 0)
        (pos 9)
        true
        false
        no_search_stats).0.cutoff
      ≡ some r)
unfolding lookup lookup_bucket lookup_entry first_match entry_matches same_mode proves_cutoff
    bucket_index
hit = (_, refl)

lookup_to_depth-IsFailSoft_example :
    (d : ℤ) × (pos 3 ≤ℤ d) × IsFailSoft (pos 6) (pos 0) (pos 9) (hit.0.score)
lookup_to_depth-IsFailSoft_example =
    Sound.lookup_to_depth-IsFailSoft six small_table 5 scope (pos 3) (pos 0) (pos 9) true false
      no_search_stats hit.0 small_table-IsSound hit.1

store_to_depth-IsSoundTable_example :
    Sound.IsSoundTable six
      (store small_table 9 scope 4
        (pos 2)
        (pos 4)
        (negsuc 0)
        (pos 3)
        (some d3)
        no_search_stats).table
store_to_depth-IsSoundTable_example =
    Sound.store_to_depth-IsSoundTable six small_table 9 scope 4 (pos 2) (pos 4) (negsuc 0) (pos 3)
      (some d3) no_search_stats small_table-IsSound refl
      (IsFailSoft.high (omega arith) (omega arith))

-- A search that knows the value 6 of its position, with the counters as its context.
abbrev known : ℤ → ℤ → SearchStats → ℤ × SearchStats
known alpha beta stats = (pos 6, stats)

search_aspirated_with_context-value_example :
    (search_aspirated_with_context known
      (λ a. a)
      (λ f stats. f stats)
      (pos 100)
      (pos 50)
      default_engine_options
      no_search_stats).0
    ≡ pos 6
search_aspirated_with_context-value_example =
    search_aspirated_with_context-value known (λ a. a) (λ f stats. f stats) (pos 6) refl refl
      (λ alpha beta stats w. IsFailSoft.inside refl) (pos 100)
      (record { not_below = omega arith; not_above = omega arith }) (pos 50) default_engine_options
      no_search_stats

abbrev one_cutoff : HistoryKillerState
one_cutoff = record {
  history = pos 90 ∷ pos 95 ∷ [];
  killer_moves = record { first = pos 1; second = negsuc 0 } ∷ [];
}

one_cutoff-IsHistory : IsHistory (pos 96) one_cutoff
one_cutoff-IsHistory = record { bounded = bounded; distinct = distinct }
  where
    bounded : AllOf (IsBetween (pos 96)) one_cutoff.history
    bounded zero v h =
        subst (IsBetween (pos 96)) (some_injective (pos 90) v h)
          (record { not_negative = omega arith; not_above = omega arith })
    bounded (suc zero) v h =
        subst (IsBetween (pos 96)) (some_injective (pos 95) v h)
          (record { not_negative = omega arith; not_above = omega arith })
    bounded (suc (suc i)) v h = absurd (ground (arith, h))

    distinct : AllOf AreDistinct one_cutoff.killer_moves
    distinct zero k h = subst AreDistinct (some_injective _ k h) (λ t. refl)
    distinct (suc i) k h = absurd (ground (arith, h))

record_history_killer_cutoff-IsHistory_example :
    IsHistory (pos 96) (
      record_history_killer_cutoff one_cutoff
        (pos 1)
        (pos 0)
        default_history_killer_ordering_params)
record_history_killer_cutoff-IsHistory_example =
    record_history_killer_cutoff-IsHistory default_history_killer_ordering_params (omega arith)
      (omega arith) one_cutoff (pos 1) (pos 0) (omega arith) one_cutoff-IsHistory

-- The square of 46341 is no `int`.
overflowed : depth_history_increment (pos 46341) ≡ negsuc 2147479014
unfolding depth_history_increment max_ℤ wrap_int ◌*ℤ◌
overflowed = refl

abbrev no_patterns : PatternTableBundle
no_patterns = record {
  active_families = all_pattern_table_families_active;
  corner_2x3 = [];
  corner_3x3 = [];
  edge_8 = [];
  edge_x_10 = [];
  row_8 = [];
  column_8 = [];
  diagonal_4 = [];
  diagonal_5 = [];
  diagonal_6 = [];
  diagonal_7 = [];
  diagonal_8 = [];
  inner_row_8 = [];
  corner_2x4 = [];
}

-- The first entry of the table of the rows is 1 instead of nothing.
abbrev other_rows : PatternTableBundle
other_rows = record no_patterns { row_8 = pos 1 ∷ [] }

other_rows-AgreeOnRead : AgreeOnRead no_patterns other_rows
other_rows-AgreeOnRead = record {
  corner_2x3 = refl;
  corner_3x3 = refl;
  edge_8 = refl;
  edge_x_10 = refl;
  diagonal_8 = refl;
  inner_row_8 = refl;
}

evaluation_config_identity-AgreeOnRead_example :
    evaluation_config_identity
      (record default_evaluation_config { pattern_tables = some no_patterns })
    ≡ evaluation_config_identity
        (record default_evaluation_config { pattern_tables = some other_rows })
evaluation_config_identity-AgreeOnRead_example =
    evaluation_config_identity-AgreeOnRead default_evaluation_config no_patterns other_rows
      other_rows-AgreeOnRead

-- Two searches after the last generation before the wrap.
wraps : later 2 max_uint32 ≡ 2
unfolding next_generation
wraps = refl

generation_age-later_example : generation_age (later 2 max_uint32) max_uint32 ≡ 2
generation_age-later_example =
    generation_age-later 2 max_uint32 (record { begun = omega arith; fits = omega arith })
      (omega arith)

-- All squares but a1 to d1 are taken.
abbrev four_left : Board
four_left = record { black = 2 ^ 64 - 2 ^ 32; white = 2 ^ 32 - 16; side_to_move = Side.black }

four_left-IsBoard : IsBoard four_left
four_left-IsBoard = record {
  black_fits = omega arith;
  white_fits = omega arith;
  disjoint = λ i. sym (bit-and i four_left.black four_left.white) ∙ bit-zero i;
}

decide_exact_endgame_root-IsDecision_example :
    IsDecision four_left default_search_options
      (decide_exact_endgame_root four_left default_search_options)
decide_exact_endgame_root-IsDecision_example =
    decide_exact_endgame_root-IsDecision four_left default_search_options four_left-IsBoard

-- The initial position at a depth that orders its moves by the buckets.
abbrev shallow : Ordering
shallow = record {
  position = from_board initial;
  depth = pos 1;
  dynamic_move_ordering = true;
  move_ordering_params = default_move_ordering_params;
  history_killers = one_cutoff;
}

abbrev first_moves : ℕ
first_moves = 2 ^ 19 + 2 ^ 26 + 2 ^ 37 + 2 ^ 44

ordered_with_preferred-Perm_example :
    Perm
      (ordered_with_preferred shallow first_moves none (some d3) false no_search_stats).0
      (collect (move_on shallow first_moves) 64 0 first_moves)
    × IsOrdered
        (λ (move : OrderedMove). move.order_score)
        (λ (move : OrderedMove). move.index)
        (ordered_legal_move_indexes shallow first_moves)
ordered_with_preferred-Perm_example =
    ordered_with_preferred-Perm shallow first_moves none (some d3) false no_search_stats
      (omega arith)
