-- ===== src/Midgame/Options.antt =====
-- include/othello/search.hpp and src/search_runtime_options.hpp: the options of a search. The
-- observers and snapshots, which only report, are left out.
use vibe_othello_engine.Base.{ℕ, ◌^◌, Bool, true, false, Option, none}
use vibe_othello_engine.Base.Int.{ℤ, pos}
use vibe_othello_engine.Evaluation.Config.{EvaluationConfig}

pub data ExactEndgameRootPolicy : Type 0 where
  fixed_threshold adaptive_16 : ExactEndgameRootPolicy

pub data AspirationProfile : Type 0 where
  fixed score_delta_aware : AspirationProfile

pub data SearchMode : Type 0 where
  fixed_depth iterative exact_endgame selective : SearchMode

pub record SearchOptions : Type 0 where
  pub max_depth : ℤ
  pub use_transposition_table : Bool
  pub transposition_table_entries : ℕ
  pub store_leaf_tt_entries : Bool
  pub tt_min_probe_depth : ℤ
  pub tt_min_store_depth : ℤ
  pub use_lazy_first_move_ordering : Bool
  pub use_shallow_tt_move_ordering_hint : Bool
  pub exact_endgame_empty_threshold : ℤ
  pub exact_endgame_root_policy : ExactEndgameRootPolicy
  pub exact_endgame_tt_entries : Option ℕ
  pub use_pvs : Bool
  pub use_aspiration_window : Bool
  pub aspiration_window : ℤ
  pub aspiration_max_researches : ℤ
  pub aspiration_profile : AspirationProfile
  pub evaluation_config_override : Option EvaluationConfig

unfoldable pub default_search_options : SearchOptions
default_search_options = record {
  max_depth = pos 5;
  use_transposition_table = false;
  transposition_table_entries = 2 ^ 18;
  store_leaf_tt_entries = true;
  tt_min_probe_depth = pos 0;
  tt_min_store_depth = pos 0;
  use_lazy_first_move_ordering = false;
  use_shallow_tt_move_ordering_hint = false;
  exact_endgame_empty_threshold = pos 12;
  exact_endgame_root_policy = ExactEndgameRootPolicy.fixed_threshold;
  exact_endgame_tt_entries = none;
  use_pvs = false;
  use_aspiration_window = false;
  aspiration_window = pos 50;
  aspiration_max_researches = pos 4;
  aspiration_profile = AspirationProfile.fixed;
  evaluation_config_override = none;
}

pub record SearchEngineOptions : Type 0 where
  pub use_transposition_table : Bool
  pub transposition_table_entries : ℕ
  pub store_leaf_tt_entries : Bool
  pub tt_min_probe_depth : ℤ
  pub tt_min_store_depth : ℤ
  pub use_lazy_first_move_ordering : Bool
  pub use_shallow_tt_move_ordering_hint : Bool
  pub exact_endgame_empty_threshold : ℤ
  pub exact_endgame_root_policy : ExactEndgameRootPolicy
  pub exact_endgame_tt_entries : Option ℕ
  pub use_pvs : Bool
  pub use_aspiration_window : Bool
  pub aspiration_window : ℤ
  pub aspiration_max_researches : ℤ
  pub aspiration_profile : AspirationProfile

unfoldable pub engine_options_from : SearchOptions → SearchEngineOptions
engine_options_from options = record {
  use_transposition_table = options.use_transposition_table;
  transposition_table_entries = options.transposition_table_entries;
  store_leaf_tt_entries = options.store_leaf_tt_entries;
  tt_min_probe_depth = options.tt_min_probe_depth;
  tt_min_store_depth = options.tt_min_store_depth;
  use_lazy_first_move_ordering = options.use_lazy_first_move_ordering;
  use_shallow_tt_move_ordering_hint = options.use_shallow_tt_move_ordering_hint;
  exact_endgame_empty_threshold = options.exact_endgame_empty_threshold;
  exact_endgame_root_policy = options.exact_endgame_root_policy;
  exact_endgame_tt_entries = options.exact_endgame_tt_entries;
  use_pvs = options.use_pvs;
  use_aspiration_window = options.use_aspiration_window;
  aspiration_window = options.aspiration_window;
  aspiration_max_researches = options.aspiration_max_researches;
  aspiration_profile = options.aspiration_profile;
}

-- `SearchEngineOptions{}`.
unfoldable pub default_engine_options : SearchEngineOptions
default_engine_options = record {
  use_transposition_table = false;
  transposition_table_entries = 2 ^ 18;
  store_leaf_tt_entries = true;
  tt_min_probe_depth = pos 0;
  tt_min_store_depth = pos 0;
  use_lazy_first_move_ordering = false;
  use_shallow_tt_move_ordering_hint = false;
  exact_endgame_empty_threshold = pos 12;
  exact_endgame_root_policy = ExactEndgameRootPolicy.fixed_threshold;
  exact_endgame_tt_entries = none;
  use_pvs = false;
  use_aspiration_window = false;
  aspiration_window = pos 50;
  aspiration_max_researches = pos 4;
  aspiration_profile = AspirationProfile.fixed;
}
