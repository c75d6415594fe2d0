-- ===== src/Midgame/Session.antt =====
-- src/search_session.cpp and src/search_session.hpp: what a session keeps between searches, and
-- the identity of a configuration of the evaluation.
use vibe_othello_engine.Base.{
  ℕ, ◌+◌, ◌-◌, ◌%◌, ◌/◌, ◌*◌, ◌^◌, bit_xor, Bool, not, xor, ◌||◌, ◌==◌, Option, none, some, List,
  [], ◌∷◌, if◌then◌else◌,
}
use vibe_othello_engine.Base.Int.{ℤ, pos, negsuc, ◌-ℤ◌}
use vibe_othello_engine.Board.Square.{Square}
use vibe_othello_engine.Search.Line.{
  PrincipalVariation, no_variation, principal_variation_from_vector,
}
use vibe_othello_engine.Patterns.Bundle.{PatternTableBundle}
use vibe_othello_engine.Evaluation.Config.{
  EvaluationFeatureWeights, EvaluationConfig, default_evaluation_config,
}
use vibe_othello_engine.Evaluation.Specs.{EvaluationFeatureSpec, evaluation_feature_specs}
use vibe_othello_engine.Midgame.Options.{
  SearchMode, SearchOptions, SearchEngineOptions, engine_options_from, default_engine_options,
}
use vibe_othello_engine.Midgame.Table.{TranspositionTable, new_transposition_table}
use vibe_othello_engine.Midgame.Order.{HistoryKillerState, reset_history_killers}

unfoldable pub resolve_evaluation_config : SearchOptions → EvaluationConfig
resolve_evaluation_config options = elim (options.evaluation_config_override) [
  | none ↦ default_evaluation_config
  | some config ↦ config
]

-- `hash ^= value + 0x9E3779B97F4A7C15 + (hash << 6) + (hash >> 2)` on 64 bits.
unfoldable pub hash_mix : ℕ → ℕ → ℕ
hash_mix hash value =
    bit_xor hash ((value + 11400714819323198485 + hash * 2 ^ 6 % 2 ^ 64 + hash / 2 ^ 2) % 2 ^ 64)

-- The cast of a signed integer to 64 bits.
unfoldable pub to_uint64 : ℤ → ℕ
to_uint64 (pos n) = n % 2 ^ 64
to_uint64 (negsuc n) = 2 ^ 64 - 1 - n % 2 ^ 64

unfoldable pub hash_int : ℕ → ℤ → ℕ
hash_int hash value = hash_mix hash (to_uint64 value)

unfoldable pub weights_identity_loop : ℕ → List EvaluationFeatureSpec → EvaluationFeatureWeights → ℕ
weights_identity_loop hash [] weights = hash
weights_identity_loop hash (spec ∷ specs) weights =
    weights_identity_loop (hash_int hash (spec.weight weights)) specs weights

unfoldable pub evaluation_weights_identity : ℕ → EvaluationFeatureWeights → ℕ
evaluation_weights_identity hash weights =
    weights_identity_loop hash evaluation_feature_specs weights

unfoldable pub table_identity : ℕ → List ℤ → ℕ
table_identity hash [] = hash
table_identity hash (value ∷ values) = table_identity (hash_int hash value) values

unfoldable pub pattern_tables_identity : ℕ → Option PatternTableBundle → ℕ
pattern_tables_identity hash none = hash_mix hash 0
pattern_tables_identity hash (some tables) =
    let hash1 = hash_mix hash 1 in
    let hash2 = table_identity hash1 tables.corner_2x3 in
    let hash3 = table_identity hash2 tables.corner_3x3 in
    let hash4 = table_identity hash3 tables.edge_8 in
    let hash5 = table_identity hash4 tables.edge_x_10 in
    let hash6 = table_identity hash5 tables.diagonal_8 in table_identity hash6 tables.inner_row_8

unfoldable pub evaluation_config_identity : EvaluationConfig → ℕ
evaluation_config_identity config =
    let hash1 = evaluation_weights_identity 14695981039346656037 config.opening in
    let hash2 = evaluation_weights_identity hash1 config.midgame in
    let hash3 = evaluation_weights_identity hash2 config.late in
    let hash4 = hash_int hash3 config.opening_max_occupied in
    let hash5 = hash_int hash4 config.midgame_max_occupied in
    let hash6 = pattern_tables_identity hash5 config.pattern_tables in
    let hash7 = pattern_tables_identity hash6 config.opening_pattern_tables in
    let hash8 = pattern_tables_identity hash7 config.midgame_pattern_tables in
    pattern_tables_identity hash8 config.late_pattern_tables

unfoldable pub requires_new_transposition_table : SearchEngineOptions → SearchEngineOptions → Bool
requires_new_transposition_table current next =
    xor current.use_transposition_table next.use_transposition_table
    || not (current.transposition_table_entries == next.transposition_table_entries)

pub record SearchSessionState : Type 0 where
  pub engine_options : SearchEngineOptions
  pub evaluation_config : EvaluationConfig
  pub evaluation_identity : ℕ
  pub generation : ℕ
  pub mode : SearchMode
  pub transpositions : TranspositionTable
  pub root_principal_variation : PrincipalVariation
  pub root_hash : Option ℕ
  pub previous_best_move : Option Square
  pub previous_score : Option ℤ
  pub previous_score_delta : Option ℤ
  pub history_killers : HistoryKillerState

-- The constructor with options; as everywhere, `allocates` says whether an allocation succeeds.
unfoldable pub new_session_state : Bool → SearchOptions → SearchSessionState
new_session_state allocates options = record {
  engine_options = engine_options_from options;
  evaluation_config = resolve_evaluation_config options;
  evaluation_identity = 0;
  generation = 0;
  mode = SearchMode.fixed_depth;
  transpositions = new_transposition_table allocates (engine_options_from options);
  root_principal_variation = no_variation;
  root_hash = none;
  previous_best_move = none;
  previous_score = none;
  previous_score_delta = none;
  history_killers = reset_history_killers;
}

unfoldable pub reset_session : Bool → SearchSessionState → SearchSessionState
reset_session allocates session = record {
  engine_options = default_engine_options;
  evaluation_config = default_evaluation_config;
  evaluation_identity = 0;
  generation = 0;
  mode = SearchMode.fixed_depth;
  transpositions = new_transposition_table allocates default_engine_options;
  root_principal_variation = no_variation;
  root_hash = none;
  previous_best_move = none;
  previous_score = none;
  previous_score_delta = none;
  history_killers = reset_history_killers;
}

-- `++generation` on 32 bits, which skips 0.
unfoldable pub next_generation : ℕ → ℕ
next_generation generation = let next = (generation + 1) % 2 ^ 32 in if next == 0 then 1 else next

unfoldable pub begin_session_search :
    Bool
    → SearchSessionState
    → SearchEngineOptions
    → EvaluationConfig
    → SearchMode
    → SearchSessionState
begin_session_search allocates session engine_options evaluation_config mode = record session {
  transpositions =
      if requires_new_transposition_table session.engine_options engine_options
      then new_transposition_table allocates engine_options
      else session.transpositions;
  engine_options = engine_options;
  evaluation_config = evaluation_config;
  evaluation_identity = evaluation_config_identity evaluation_config;
  mode = mode;
  generation = next_generation session.generation;
}

unfoldable pub score_delta : Option ℤ → ℤ → Option ℤ
score_delta none score = none
score_delta (some previous_score) score = some (score -ℤ previous_score)

-- What a session keeps of the result of a search: its score, best move and line.
unfoldable pub finish_session_search :
    SearchSessionState → ℕ → ℤ → Option Square → List Square → SearchSessionState
finish_session_search session root_hash score best_move principal_variation = record session {
  previous_score_delta = score_delta session.previous_score score;
  previous_score = some score;
  previous_best_move = best_move;
  root_hash = some root_hash;
  root_principal_variation = principal_variation_from_vector principal_variation;
}
