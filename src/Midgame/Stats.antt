-- ===== src/Midgame/Stats.antt =====
-- include/othello/search_stats.hpp: the counters of a search, their sum and their difference.
use Prim.Native.Nat.{max}
use vibe_othello_engine.Base.{ℕ, ◌+◌, ◌-◌, ◌%◌, ◌^◌, List, [], ◌∷◌, ltb, if◌then◌else◌}

pub record SearchStats : Type 0 where
  pub nodes : ℕ
  pub beta_cutoffs : ℕ
  pub beta_cutoffs_first_move : ℕ
  pub searched_moves : ℕ
  pub legal_move_nodes : ℕ
  pub eval_calls : ℕ
  pub pass_nodes : ℕ
  pub game_over_nodes : ℕ
  pub tt_lookups : ℕ
  pub tt_hits : ℕ
  pub tt_exact_hits : ℕ
  pub tt_lower_hits : ℕ
  pub tt_upper_hits : ℕ
  pub tt_stores : ℕ
  pub tt_leaf_stores : ℕ
  pub tt_leaf_store_skipped : ℕ
  pub tt_probe_skipped_by_depth : ℕ
  pub tt_store_skipped_by_depth : ℕ
  pub tt_overwrites : ℕ
  pub tt_collisions : ℕ
  pub tt_rejected_stores : ℕ
  pub tt_move_ordering_probes : ℕ
  pub tt_move_ordering_hits : ℕ
  pub tt_move_ordering_used : ℕ
  pub shallow_tt_move_ordering_probes : ℕ
  pub shallow_tt_move_ordering_hits : ℕ
  pub shallow_tt_move_ordering_used : ℕ
  pub ordering_full_builds : ℕ
  pub ordering_lazy_first_hits : ℕ
  pub ordering_lazy_cut_before_full_sort : ℕ
  pub ordering_scored_moves_saved : ℕ
  pub preferred_move_legal_count : ℕ
  pub preferred_move_beta_cut_count : ℕ
  pub pvs_scouts : ℕ
  pub pvs_researches : ℕ
  pub pvs_scout_cutoffs : ℕ
  pub aspiration_searches : ℕ
  pub aspiration_researches : ℕ
  pub aspiration_fail_lows : ℕ
  pub aspiration_fail_highs : ℕ
  pub aspiration_full_window_fallbacks : ℕ
  pub aspiration_fail_low_distance_sum : ℕ
  pub aspiration_fail_high_distance_sum : ℕ
  pub aspiration_fail_low_distance_max : ℕ
  pub aspiration_fail_high_distance_max : ℕ
  pub dynamic_ordering_nodes : ℕ
  pub dynamic_ordering_moves : ℕ

abbrev pub no_search_stats : SearchStats
no_search_stats = record {
  nodes = 0;
  beta_cutoffs = 0;
  beta_cutoffs_first_move = 0;
  searched_moves = 0;
  legal_move_nodes = 0;
  eval_calls = 0;
  pass_nodes = 0;
  game_over_nodes = 0;
  tt_lookups = 0;
  tt_hits = 0;
  tt_exact_hits = 0;
  tt_lower_hits = 0;
  tt_upper_hits = 0;
  tt_stores = 0;
  tt_leaf_stores = 0;
  tt_leaf_store_skipped = 0;
  tt_probe_skipped_by_depth = 0;
  tt_store_skipped_by_depth = 0;
  tt_overwrites = 0;
  tt_collisions = 0;
  tt_rejected_stores = 0;
  tt_move_ordering_probes = 0;
  tt_move_ordering_hits = 0;
  tt_move_ordering_used = 0;
  shallow_tt_move_ordering_probes = 0;
  shallow_tt_move_ordering_hits = 0;
  shallow_tt_move_ordering_used = 0;
  ordering_full_builds = 0;
  ordering_lazy_first_hits = 0;
  ordering_lazy_cut_before_full_sort = 0;
  ordering_scored_moves_saved = 0;
  preferred_move_legal_count = 0;
  preferred_move_beta_cut_count = 0;
  pvs_scouts = 0;
  pvs_researches = 0;
  pvs_scout_cutoffs = 0;
  aspiration_searches = 0;
  aspiration_researches = 0;
  aspiration_fail_lows = 0;
  aspiration_fail_highs = 0;
  aspiration_full_window_fallbacks = 0;
  aspiration_fail_low_distance_sum = 0;
  aspiration_fail_high_distance_sum = 0;
  aspiration_fail_low_distance_max = 0;
  aspiration_fail_high_distance_max = 0;
  dynamic_ordering_nodes = 0;
  dynamic_ordering_moves = 0;
}

-- A pointer to a member: what reads it and what assigns it.
pub record StatsMember : Type 0 where
  pub get : SearchStats → ℕ
  pub put : ℕ → SearchStats → SearchStats

abbrev pub additive_members : List StatsMember
additive_members =
    record { get = λ s. s.nodes; put = λ v s. record s { nodes = v } }
    ∷ record { get = λ s. s.beta_cutoffs; put = λ v s. record s { beta_cutoffs = v } }
    ∷ record {
      get = λ s. s.beta_cutoffs_first_move;
      put = λ v s. record s { beta_cutoffs_first_move = v };
    }
    ∷ record { get = λ s. s.searched_moves; put = λ v s. record s { searched_moves = v } }
    ∷ record { get = λ s. s.legal_move_nodes; put = λ v s. record s { legal_move_nodes = v } }
    ∷ record { get = λ s. s.eval_calls; put = λ v s. record s { eval_calls = v } }
    ∷ record { get = λ s. s.pass_nodes; put = λ v s. record s { pass_nodes = v } }
    ∷ record { get = λ s. s.game_over_nodes; put = λ v s. record s { game_over_nodes = v } }
    ∷ record { get = λ s. s.tt_lookups; put = λ v s. record s { tt_lookups = v } }
    ∷ record { get = λ s. s.tt_hits; put = λ v s. record s { tt_hits = v } }
    ∷ record { get = λ s. s.tt_exact_hits; put = λ v s. record s { tt_exact_hits = v } }
    ∷ record { get = λ s. s.tt_lower_hits; put = λ v s. record s { tt_lower_hits = v } }
    ∷ record { get = λ s. s.tt_upper_hits; put = λ v s. record s { tt_upper_hits = v } }
    ∷ record { get = λ s. s.tt_stores; put = λ v s. record s { tt_stores = v } }
    ∷ record { get = λ s. s.tt_leaf_stores; put = λ v s. record s { tt_leaf_stores = v } }
    ∷ record {
      get = λ s. s.tt_leaf_store_skipped;
      put = λ v s. record s { tt_leaf_store_skipped = v };
    }
    ∷ record {
      get = λ s. s.tt_probe_skipped_by_depth;
      put = λ v s. record s { tt_probe_skipped_by_depth = v };
    }
    ∷ record {
      get = λ s. s.tt_store_skipped_by_depth;
      put = λ v s. record s { tt_store_skipped_by_depth = v };
    }
    ∷ record { get = λ s. s.tt_overwrites; put = λ v s. record s { tt_overwrites = v } }
    ∷ record { get = λ s. s.tt_collisions; put = λ v s. record s { tt_collisions = v } }
    ∷ record { get = λ s. s.tt_rejected_stores; put = λ v s. record s { tt_rejected_stores = v } }
    ∷ record {
      get = λ s. s.tt_move_ordering_probes;
      put = λ v s. record s { tt_move_ordering_probes = v };
    }
    ∷ record {
      get = λ s. s.tt_move_ordering_hits;
      put = λ v s. record s { tt_move_ordering_hits = v };
    }
    ∷ record {
      get = λ s. s.tt_move_ordering_used;
      put = λ v s. record s { tt_move_ordering_used = v };
    }
    ∷ record {
      get = λ s. s.shallow_tt_move_ordering_probes;
      put = λ v s. record s { shallow_tt_move_ordering_probes = v };
    }
    ∷ record {
      get = λ s. s.shallow_tt_move_ordering_hits;
      put = λ v s. record s { shallow_tt_move_ordering_hits = v };
    }
    ∷ record {
      get = λ s. s.shallow_tt_move_ordering_used;
      put = λ v s. record s { shallow_tt_move_ordering_used = v };
    }
    ∷ record {
      get = λ s. s.ordering_full_builds;
      put = λ v s. record s { ordering_full_builds = v };
    }
    ∷ record {
      get = λ s. s.ordering_lazy_first_hits;
      put = λ v s. record s { ordering_lazy_first_hits = v };
    }
    ∷ record {
      get = λ s. s.ordering_lazy_cut_before_full_sort;
      put = λ v s. record s { ordering_lazy_cut_before_full_sort = v };
    }
    ∷ record {
      get = λ s. s.ordering_scored_moves_saved;
      put = λ v s. record s { ordering_scored_moves_saved = v };
    }
    ∷ record {
      get = λ s. s.preferred_move_legal_count;
      put = λ v s. record s { preferred_move_legal_count = v };
    }
    ∷ record {
      get = λ s. s.preferred_move_beta_cut_count;
      put = λ v s. record s { preferred_move_beta_cut_count = v };
    }
    ∷ record { get = λ s. s.pvs_scouts; put = λ v s. record s { pvs_scouts = v } }
    ∷ record { get = λ s. s.pvs_researches; put = λ v s. record s { pvs_researches = v } }
    ∷ record { get = λ s. s.pvs_scout_cutoffs; put = λ v s. record s { pvs_scout_cutoffs = v } }
    ∷ record { get = λ s. s.aspiration_searches; put = λ v s. record s { aspiration_searches = v } }
    ∷ record {
      get = λ s. s.aspiration_researches;
      put = λ v s. record s { aspiration_researches = v };
    }
    ∷ record {
      get = λ s. s.aspiration_fail_lows;
      put = λ v s. record s { aspiration_fail_lows = v };
    }
    ∷ record {
      get = λ s. s.aspiration_fail_highs;
      put = λ v s. record s { aspiration_fail_highs = v };
    }
    ∷ record {
      get = λ s. s.aspiration_full_window_fallbacks;
      put = λ v s. record s { aspiration_full_window_fallbacks = v };
    }
    ∷ record {
      get = λ s. s.aspiration_fail_low_distance_sum;
      put = λ v s. record s { aspiration_fail_low_distance_sum = v };
    }
    ∷ record {
      get = λ s. s.aspiration_fail_high_distance_sum;
      put = λ v s. record s { aspiration_fail_high_distance_sum = v };
    }
    ∷ record {
      get = λ s. s.dynamic_ordering_nodes;
      put = λ v s. record s { dynamic_ordering_nodes = v };
    }
    ∷ record {
      get = λ s. s.dynamic_ordering_moves;
      put = λ v s. record s { dynamic_ordering_moves = v };
    }
    ∷ []

abbrev pub max_members : List StatsMember
max_members =
    record {
      get = λ s. s.aspiration_fail_low_distance_max;
      put = λ v s. record s { aspiration_fail_low_distance_max = v };
    }
    ∷ record {
      get = λ s. s.aspiration_fail_high_distance_max;
      put = λ v s. record s { aspiration_fail_high_distance_max = v };
    }
    ∷ []

unfoldable pub add_members : List StatsMember → SearchStats → SearchStats → SearchStats
add_members [] total stats = total
add_members (member ∷ members) total stats =
    add_members members (member.put ((member.get total + member.get stats) % 2 ^ 64) total) stats

unfoldable pub raise_members : List StatsMember → SearchStats → SearchStats → SearchStats
raise_members [] total stats = total
raise_members (member ∷ members) total stats =
    raise_members members (member.put (max (member.get total) (member.get stats)) total) stats

unfoldable pub accumulate_search_stats : SearchStats → SearchStats → SearchStats
accumulate_search_stats total stats =
    raise_members max_members (add_members additive_members total stats) stats

-- The difference of two counters of 64 bits, with its wrap.
unfoldable pub subtract_members :
    List StatsMember → SearchStats → SearchStats → SearchStats → SearchStats
subtract_members [] after before delta = delta
subtract_members (member ∷ members) after before delta =
    subtract_members members after before
      (member.put ((member.get after + (2 ^ 64 - member.get before)) % 2 ^ 64) delta)

unfoldable pub raised_members :
    List StatsMember → SearchStats → SearchStats → SearchStats → SearchStats
raised_members [] after before delta = delta
raised_members (member ∷ members) after before delta =
    raised_members members after before (
      member.put (if ltb (member.get before) (member.get after) then member.get after else 0) delta)

unfoldable pub search_stats_delta : SearchStats → SearchStats → SearchStats
search_stats_delta after before =
    raised_members max_members after before
      (subtract_members additive_members after before no_search_stats)
