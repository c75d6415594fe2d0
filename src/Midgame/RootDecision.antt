-- ===== src/Midgame/RootDecision.antt =====
-- What src/search_root_policy.cpp decides, against the discs and the moves of the board.
use vibe_othello_engine.Base.{
  ℕ, ◌+◌, ◌-◌, ◌≤◌, ◌<◌, bit_or, ◌≡◌, refl, sym, ap, ◌∙◌, arith, Bool, true, false, not, ◌&&◌, ◌||◌,
  ◌==◌, ltb, leb, Bool-cases, inl, inr,
}
use vibe_othello_engine.Base.Int.{ℤ, pos, ◌≤ℤ◌, ltb_ℤ, eqb_ℤ}
use vibe_othello_engine.Bits.Digit.{bit, bit-or}
use vibe_othello_engine.Bits.U64.{
  IsWord, bit-complement_word, bit_or-IsWord, complement, complement-IsWord, bit_outside, word_mod,
}
use vibe_othello_engine.Bits.Scan.{popcount, popcount_from}
use vibe_othello_engine.Bits.Count.{popcount_union}
use vibe_othello_engine.Board as Boards
use vibe_othello_engine.Board.{Board, Side, opponent, discs, discs_of}
use vibe_othello_engine.Rules.Moves.{legal_moves, pass_turn, with_side, disc_count}
use vibe_othello_engine.Rules.Play.{is_some, IsBoard}
use vibe_othello_engine.Rules.Compass.{holds_below, test_of_holds_below}
use vibe_othello_engine.Search.Position.{board_empty_count}
use vibe_othello_engine.Midgame.Options.{ExactEndgameRootPolicy, SearchOptions, engine_options_from}
use vibe_othello_engine.Midgame.RootPolicy.{
  ExactEndgameRootSkipReason, ExactEndgameRootDecision, solves, skips, decide_adaptive,
  decide_by_policy, counted_decision, decide_exact_endgame_root,
}

abbrev pub is_no_reason : ExactEndgameRootSkipReason → Bool
is_no_reason ExactEndgameRootSkipReason.no_reason = true
is_no_reason _ = false

-- The squares without a disc.
abbrev pub squares_left : Board → ℕ
squares_left board = 64 - (disc_count board Side.black + disc_count board Side.white)

-- Whether a root with so many squares left is solved, with the moves of the side to move, those of
-- the other side, and whether the side to move has to pass.
abbrev pub may_solve : ExactEndgameRootPolicy → ℤ → ℕ → ℕ → ℕ → Bool → Bool
may_solve ExactEndgameRootPolicy.fixed_threshold threshold left moves replies passes =
    not (ltb_ℤ threshold (pos left))
may_solve ExactEndgameRootPolicy.adaptive_16 threshold left moves replies passes =
    leb left 14 || (leb left 16 && not passes && leb moves 10 && leb replies 10)

-- The most squares left at a root that is solved.
abbrev pub most_left : ExactEndgameRootPolicy → ℤ → ℤ
most_left ExactEndgameRootPolicy.fixed_threshold threshold = threshold
most_left ExactEndgameRootPolicy.adaptive_16 threshold = pos 16

abbrev pub moves_of : Board → ℕ
moves_of board = popcount (legal_moves board)

pub record IsDecision (board : Board) (options : SearchOptions) (d : ExactEndgameRootDecision)
    : Type 0 where
  pub reasoned : d.solve_exact ≡ is_no_reason d.skip_reason
  pub few :
      d.solve_exact ≡ true
      → pos (squares_left board)
        ≤ℤ most_left options.exact_endgame_root_policy options.exact_endgame_empty_threshold
  pub exactly : d.solve_exact ≡ (
      ltb_ℤ (pos 0) options.exact_endgame_empty_threshold
      && may_solve options.exact_endgame_root_policy options.exact_endgame_empty_threshold
          (squares_left board)
          (moves_of board)
          (moves_of (with_side board (opponent board.side_to_move)))
          (moves_of board == 0 && is_some (pass_turn board)))

all_set : (i : ℕ) → i < 64 → bit i (word_mod - 1) ≡ true
unfolding holds_below bit
all_set i h = test_of_holds_below (λ j. bit j (word_mod - 1)) 64 i h refl

all_counted : popcount (word_mod - 1) ≡ 64
unfolding popcount popcount_from
all_counted = refl

whole_board :
    (x i : ℕ)
    → IsWord x
    → (bit i (word_mod - 1) ≡ (bit i (complement x) || bit i x))
      × ((bit i (complement x) && bit i x) ≡ false)
whole_board x i w = elim (Bool-cases (ltb i 64)) [
  | inl low ↦
      let h : i < 64 = ground (arith, low) in
      (
        ground (arith, all_set i h, bit-complement_word i x w h),
        ground (arith, bit-complement_word i x w h),
      )
  | inr high ↦
      let h : 64 ≤ i = ground (arith, high) in
      (
        ground (
          arith,
          bit_outside i (word_mod - 1) (omega arith) h,
          bit_outside i x w h,
          bit_outside i (complement x) (complement-IsWord x) h,
        ),
        ground (arith, bit_outside i x w h),
      )
]

board_empty_count_lem :
    (board : Board) → IsBoard board → board_empty_count board ≡ squares_left board
unfolding board_empty_count disc_count discs discs_of Boards.empty Boards.occupied
board_empty_count_lem board v =
    let taken = bit_or board.black board.white in
    let fits : IsWord taken = bit_or-IsWord board.black board.white v.black_fits v.white_fits in
    let all =
      popcount_union (complement taken) taken (word_mod - 1) (λ i. (whole_board taken i fits).0)
        (λ i. (whole_board taken i fits).1) in
    let both =
      popcount_union board.black board.white taken (λ i. bit-or i board.black board.white)
        v.disjoint in
    omega (arith, all, all_counted, both)

-- The decision for counts, whatever they are.
abbrev counts : ℕ → ℕ → ℕ → ExactEndgameRootDecision
counts left moves replies = record {
  solve_exact = false;
  empty_count = pos left;
  legal_moves_current = pos moves;
  legal_moves_opponent = pos replies;
  skip_reason = ExactEndgameRootSkipReason.no_reason;
}

module _ (threshold : ℤ) (left moves replies : ℕ) (passes : Bool) where
  abbrev by_policy : ExactEndgameRootPolicy → ExactEndgameRootDecision
  by_policy policy = decide_by_policy policy threshold passes (counts left moves replies)

  by_policy_solves :
      (policy : ExactEndgameRootPolicy)
      → (by_policy policy).solve_exact ≡ may_solve policy threshold left moves replies passes
  unfolding decide_by_policy decide_adaptive solves skips
  by_policy_solves ExactEndgameRootPolicy.fixed_threshold = ground arith
  by_policy_solves ExactEndgameRootPolicy.adaptive_16 = ground arith

  by_policy_reasons :
      (policy : ExactEndgameRootPolicy)
      → (by_policy policy).solve_exact ≡ is_no_reason (by_policy policy).skip_reason
  unfolding decide_by_policy decide_adaptive solves skips
  by_policy_reasons ExactEndgameRootPolicy.fixed_threshold = ground arith
  by_policy_reasons ExactEndgameRootPolicy.adaptive_16 = ground arith

may_solve_few :
    (policy : ExactEndgameRootPolicy) (threshold : ℤ) (left moves replies : ℕ) (passes : Bool)
    → may_solve policy threshold left moves replies passes ≡ true
    → pos left ≤ℤ most_left policy threshold
may_solve_few ExactEndgameRootPolicy.fixed_threshold threshold left moves replies passes h =
    ground (arith, h)
may_solve_few ExactEndgameRootPolicy.adaptive_16 threshold left moves replies passes h =
    ground (arith, h)

module _ (board : Board) (options : SearchOptions) (v : IsBoard board) where
  abbrev replies_of : ℕ
  replies_of = moves_of (with_side board (opponent board.side_to_move))

  abbrev root_passes : Bool
  root_passes = eqb_ℤ (pos (moves_of board)) (pos 0) && is_some (pass_turn board)

  abbrev decided : ExactEndgameRootDecision
  decided =
      decide_by_policy options.exact_endgame_root_policy options.exact_endgame_empty_threshold
        root_passes (counts (squares_left board) (moves_of board) replies_of)

  root_passes-moves : root_passes ≡ (moves_of board == 0 && is_some (pass_turn board))
  root_passes-moves = ground arith

  decision_on :
      ltb_ℤ (pos 0) options.exact_endgame_empty_threshold ≡ true
      → decide_exact_endgame_root board options ≡ decided
  unfolding decide_exact_endgame_root counted_decision engine_options_from
  decision_on on = rw (on, ← board_empty_count_lem board v) refl

  decision_off :
      ltb_ℤ (pos 0) options.exact_endgame_empty_threshold ≡ false
      → decide_exact_endgame_root board options
        ≡ skips ExactEndgameRootSkipReason.disabled
            (counts (squares_left board) (moves_of board) replies_of)
  unfolding decide_exact_endgame_root counted_decision engine_options_from
  decision_off off = rw (off, ← board_empty_count_lem board v) refl

  -- For a well-formed board and all options, the decision at the root gives no reason to skip
  -- exactly when it solves. It solves exactly when the threshold is positive and, under the fixed
  -- policy, no more squares are left without a disc than the threshold; under the adaptive one, at
  -- most 14 are, or at most 16 with at most 10 moves for either side and no pass to be made. So it
  -- solves only a board with at most as many squares left as the threshold, or 16 if it is adaptive.
  pub decide_exact_endgame_root-IsDecision :
      IsDecision board options (decide_exact_endgame_root board options)
  decide_exact_endgame_root-IsDecision =
      elim (Bool-cases (ltb_ℤ (pos 0) options.exact_endgame_empty_threshold)) [
        | inr off ↦ rw (decision_off off) (
            unfold skips in
            record {
              reasoned = refl;
              few = λ s. absurd (ground (arith, s));
              exactly = rw off refl;
            })
        | inl on ↦
            let policy = options.exact_endgame_root_policy in
            let threshold = options.exact_endgame_empty_threshold in
            let solved =
              by_policy_solves threshold (squares_left board) (moves_of board) replies_of
                root_passes policy in
            rw (decision_on on) (record {
              reasoned =
                  by_policy_reasons threshold (squares_left board) (moves_of board) replies_of
                    root_passes policy;
              few = λ s.
                  may_solve_few policy threshold (squares_left board) (moves_of board) replies_of
                    root_passes (sym solved ∙ s);
              exactly =
                  solved
                  ∙ ap (may_solve policy threshold (squares_left board) (moves_of board) replies_of)
                      root_passes-moves
                  ∙ rw on refl;
            })
      ]
