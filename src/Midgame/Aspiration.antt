-- ===== src/Midgame/Aspiration.antt =====
-- src/search_bounds.hpp, src/search_aspiration.hpp and src/search_aspiration.cpp: windows around
-- the score of the last iteration. The search of a window is an argument, with the score of its
-- result and the access to the counters of its context.
use Prim.Native.Nat.{max}
use vibe_othello_engine.Base.{
  ℕ, zero, suc, ◌+◌, ◌/◌, ◌%◌, ◌^◌, Bool, true, false, not, ◌||◌, Option, none, some, if◌then◌else◌,
}
use vibe_othello_engine.Base.Int.{ℤ, pos, negsuc, pos_part, ◌+ℤ◌, ◌-ℤ◌, ◌*ℤ◌, ltb_ℤ}
use vibe_othello_engine.Endgame.Table.{increment}
use vibe_othello_engine.Midgame.Stats.{SearchStats}
use vibe_othello_engine.Midgame.Options.{AspirationProfile, SearchEngineOptions}

abbrev pub search_score_min : ℤ
search_score_min = negsuc 999999999

abbrev pub search_score_max : ℤ
search_score_max = pos 1000000000

unfoldable pub clamp_search_score : ℤ → ℤ
clamp_search_score score =
    if ltb_ℤ score search_score_min
    then search_score_min
    else if ltb_ℤ search_score_max score
    then search_score_max
    else score

unfoldable pub positive_aspiration_window : ℤ → ℤ
positive_aspiration_window window = if not (ltb_ℤ (pos 0) window) then pos 1 else window

unfoldable pub is_fixed : AspirationProfile → Bool
is_fixed AspirationProfile.fixed = true
is_fixed AspirationProfile.score_delta_aware = false

-- `base_window / 2` of a positive window.
unfoldable pub half : ℤ → ℤ
half (pos n) = pos (n / 2)
half (negsuc n) = pos 0 -ℤ pos (suc n / 2)

unfoldable pub widened_by_delta : ℤ → ℤ → ℤ
widened_by_delta base_window score_delta =
    let delta = if ltb_ℤ score_delta (pos 0) then pos 0 -ℤ score_delta else score_delta in
    let max_dynamic_window = base_window *ℤ pos 2 in
    let widened = delta +ℤ half base_window in
    if not (ltb_ℤ max_dynamic_window delta)
    then base_window
    else clamp_search_score
        (if ltb_ℤ max_dynamic_window widened then max_dynamic_window else widened)

unfoldable pub aspiration_initial_window : SearchEngineOptions → Option ℤ → ℤ
aspiration_initial_window options none = positive_aspiration_window options.aspiration_window
aspiration_initial_window options (some previous_score_delta) =
    let base_window = positive_aspiration_window options.aspiration_window in
    if is_fixed options.aspiration_profile
    then base_window
    else widened_by_delta base_window previous_score_delta

unfoldable pub non_negative_research_limit : ℤ → ℕ
non_negative_research_limit (pos n) = n
non_negative_research_limit (negsuc n) = 0

unfoldable pub aspiration_alpha : ℤ → ℤ → ℤ
aspiration_alpha previous_score window = clamp_search_score (previous_score -ℤ window)

unfoldable pub aspiration_beta : ℤ → ℤ → ℤ
aspiration_beta previous_score window = clamp_search_score (previous_score +ℤ window)

unfoldable pub widened_aspiration_window : ℤ → ℤ
widened_aspiration_window window =
    if not (ltb_ℤ window (pos 500000000)) then search_score_max else window *ℤ pos 2

unfoldable pub failed_low : ℤ → ℤ → Bool
failed_low score alpha = not (ltb_ℤ alpha score)

unfoldable pub failed_high : ℤ → ℤ → Bool
failed_high score beta = not (ltb_ℤ score beta)

-- `a > b ? a - b : 0`, which is not negative.
unfoldable pub distance : ℤ → ℤ → ℕ
distance a b = pos_part (a -ℤ b)

unfoldable pub record_aspiration_fail_low : ℤ → ℤ → SearchStats → SearchStats
record_aspiration_fail_low score alpha stats = record stats {
  aspiration_fail_lows = increment stats.aspiration_fail_lows;
  aspiration_fail_low_distance_sum =
      (stats.aspiration_fail_low_distance_sum + distance alpha score) % 2 ^ 64;
  aspiration_fail_low_distance_max =
      max stats.aspiration_fail_low_distance_max (distance alpha score);
}

unfoldable pub record_aspiration_fail_high : ℤ → ℤ → SearchStats → SearchStats
record_aspiration_fail_high score beta stats = record stats {
  aspiration_fail_highs = increment stats.aspiration_fail_highs;
  aspiration_fail_high_distance_sum =
      (stats.aspiration_fail_high_distance_sum + distance score beta) % 2 ^ 64;
  aspiration_fail_high_distance_max =
      max stats.aspiration_fail_high_distance_max (distance score beta);
}

unfoldable pub count_aspiration_search : SearchStats → SearchStats
count_aspiration_search stats = record stats {
  aspiration_searches = increment stats.aspiration_searches;
}

unfoldable pub count_research : SearchStats → SearchStats
count_research stats = record stats {
  aspiration_researches = increment stats.aspiration_researches;
}

unfoldable pub count_fallback : SearchStats → SearchStats
count_fallback stats = record stats {
  aspiration_full_window_fallbacks = increment stats.aspiration_full_window_fallbacks;
}

-- The counters of a search that has failed.
unfoldable pub record_failure : ℤ → ℤ → ℤ → SearchStats → SearchStats
record_failure score alpha beta stats = count_research (
    if failed_low score alpha
    then record_aspiration_fail_low score alpha stats
    else record_aspiration_fail_high score beta stats)

module _ {S R : Type 0} (search : ℤ → ℤ → S → R × S) (score : R → ℤ)
    (count : (SearchStats → SearchStats) → S → S) where
  -- One round: what the search of the window gives, whether it has failed, and the context that
  -- counts the failure.
  unfoldable pub attempt : ℤ → ℤ → S → (R × S) × Bool × S
  attempt previous_score window context =
      let alpha = aspiration_alpha previous_score window in
      let beta = aspiration_beta previous_score window in
      let (result, searched) = search alpha beta context in
      (
        (result, searched),
        failed_low (score result) alpha || failed_high (score result) beta,
        count (record_failure (score result) alpha beta) searched,
      )

  -- The `while (true)` loop, by the researches that are left.
  unfoldable pub aspiration_loop : ℕ → ℤ → ℤ → S → R × S
  aspiration_loop zero previous_score window context =
      let (outcome, failed, counted) = attempt previous_score window context in
      if failed
      then search search_score_min search_score_max (count count_fallback counted)
      else outcome
  aspiration_loop (suc left) previous_score window context =
      let (outcome, failed, counted) = attempt previous_score window context in
      let rest = aspiration_loop left previous_score (widened_aspiration_window window) counted in
      if failed then rest else outcome

  unfoldable pub search_aspirated_with_context : ℤ → ℤ → SearchEngineOptions → S → R × S
  search_aspirated_with_context previous_score initial_window options context =
      aspiration_loop (non_negative_research_limit options.aspiration_max_researches) previous_score
        (positive_aspiration_window initial_window) (count count_aspiration_search context)
