-- ===== src/Midgame/RootPolicy.antt =====
-- src/search_root_policy.cpp: whether the root of a search is solved to the end.
use vibe_othello_engine.Base.{Bool, true, false, not, ◌&&◌, if◌then◌else◌}
use vibe_othello_engine.Base.Int.{ℤ, pos, ltb_ℤ, eqb_ℤ}
use vibe_othello_engine.Bits.Scan.{popcount}
use vibe_othello_engine.Board.{Board, opponent}
use vibe_othello_engine.Rules.Moves.{legal_moves, pass_turn, with_side}
use vibe_othello_engine.Rules.Play.{is_some}
use vibe_othello_engine.Search.Position.{board_empty_count}
use vibe_othello_engine.Midgame.Options.{ExactEndgameRootPolicy, SearchOptions, engine_options_from}

pub data ExactEndgameRootSkipReason : Type 0 where
  no_reason disabled above_threshold adaptive_root_pass adaptive_too_many_legal_moves
        adaptive_opponent_too_many_legal_moves :
      ExactEndgameRootSkipReason

pub record ExactEndgameRootDecision : Type 0 where
  pub solve_exact : Bool
  pub empty_count : ℤ
  pub legal_moves_current : ℤ
  pub legal_moves_opponent : ℤ
  pub skip_reason : ExactEndgameRootSkipReason

pub record ExactRootPolicyParams : Type 0 where
  pub always_exact_max_empties : ℤ
  pub adaptive_max_empties : ℤ
  pub max_legal_moves : ℤ
  pub max_opponent_legal_moves : ℤ

abbrev pub adaptive16_exact_root_policy_params : ExactRootPolicyParams
adaptive16_exact_root_policy_params = record {
  always_exact_max_empties = pos 14;
  adaptive_max_empties = pos 16;
  max_legal_moves = pos 10;
  max_opponent_legal_moves = pos 10;
}

unfoldable pub solves : ExactEndgameRootDecision → ExactEndgameRootDecision
solves decision = record decision { solve_exact = true }

unfoldable pub skips :
    ExactEndgameRootSkipReason → ExactEndgameRootDecision → ExactEndgameRootDecision
skips why decision = record decision { skip_reason = why }

-- The part of `decide_exact_endgame_root` for the adaptive policy.
unfoldable pub decide_adaptive : Bool → ExactEndgameRootDecision → ExactEndgameRootDecision
decide_adaptive root_pass decision =
    let policy = adaptive16_exact_root_policy_params in
    if not (ltb_ℤ policy.always_exact_max_empties decision.empty_count)
    then solves decision
    else if ltb_ℤ policy.adaptive_max_empties decision.empty_count
    then skips ExactEndgameRootSkipReason.above_threshold decision
    else if root_pass
    then skips ExactEndgameRootSkipReason.adaptive_root_pass decision
    else if ltb_ℤ policy.max_legal_moves decision.legal_moves_current
    then skips ExactEndgameRootSkipReason.adaptive_too_many_legal_moves decision
    else if ltb_ℤ policy.max_opponent_legal_moves decision.legal_moves_opponent
    then skips ExactEndgameRootSkipReason.adaptive_opponent_too_many_legal_moves decision
    else solves decision

-- The part after the counts, by the policy.
unfoldable pub decide_by_policy :
    ExactEndgameRootPolicy → ℤ → Bool → ExactEndgameRootDecision → ExactEndgameRootDecision
decide_by_policy ExactEndgameRootPolicy.fixed_threshold threshold root_pass decision =
    if ltb_ℤ threshold decision.empty_count
    then skips ExactEndgameRootSkipReason.above_threshold decision
    else solves decision
decide_by_policy ExactEndgameRootPolicy.adaptive_16 threshold root_pass decision =
    decide_adaptive root_pass decision

unfoldable pub counted_decision : Board → ExactEndgameRootDecision
counted_decision board = record {
  solve_exact = false;
  empty_count = pos (board_empty_count board);
  legal_moves_current = pos (popcount (legal_moves board));
  legal_moves_opponent =
      pos (popcount (legal_moves (with_side board (opponent board.side_to_move))));
  skip_reason = ExactEndgameRootSkipReason.no_reason;
}

unfoldable pub decide_exact_endgame_root : Board → SearchOptions → ExactEndgameRootDecision
decide_exact_endgame_root board options =
    let engine_options = engine_options_from options in
    let decision = counted_decision board in
    let root_pass = eqb_ℤ decision.legal_moves_current (pos 0) && is_some (pass_turn board) in
    if not (ltb_ℤ (pos 0) engine_options.exact_endgame_empty_threshold)
    then skips ExactEndgameRootSkipReason.disabled decision
    else decide_by_policy engine_options.exact_endgame_root_policy
        engine_options.exact_endgame_empty_threshold root_pass decision

unfoldable pub should_solve_exact_endgame_at_root : Board → SearchOptions → Bool
should_solve_exact_endgame_at_root board options =
    (decide_exact_endgame_root board options).solve_exact
