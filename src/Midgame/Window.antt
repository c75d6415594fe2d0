-- ===== src/Midgame/Window.antt =====
-- A search with a window that widens gives the score of the full window.
use vibe_othello_engine.Base.{
  ℕ, zero, suc, ◌≡◌, refl, ◌||◌, sym, arith, true, false, Bool-cases, inl, inr,
}
use vibe_othello_engine.Base.Int.{ℤ, pos, ◌+ℤ◌, ◌-ℤ◌, ◌*ℤ◌, ◌≤ℤ◌, ltb_ℤ}
use vibe_othello_engine.Search.Bound.{IsFailSoft}
use vibe_othello_engine.Midgame.Stats.{SearchStats}
use vibe_othello_engine.Midgame.Options.{SearchEngineOptions}
use vibe_othello_engine.Midgame.Aspiration.{
  search_score_min, search_score_max, clamp_search_score, positive_aspiration_window,
  aspiration_alpha, aspiration_beta, widened_aspiration_window, failed_low, failed_high, attempt,
  aspiration_loop, search_aspirated_with_context,
}

-- A score of the search.
pub record IsScore (v : ℤ) : Type 0 where
  pub not_below : search_score_min ≤ℤ v
  pub not_above : v ≤ℤ search_score_max

alpha_lt_beta :
    (previous window : ℤ)
    → IsScore previous
    → ltb_ℤ (pos 0) window ≡ true
    → ltb_ℤ (aspiration_alpha previous window) (aspiration_beta previous window) ≡ true
unfolding aspiration_alpha aspiration_beta clamp_search_score ◌+ℤ◌ ◌-ℤ◌
alpha_lt_beta previous window v w = ground (arith, v.not_below, v.not_above, w)

widened-positive :
    (window : ℤ)
    → ltb_ℤ (pos 0) window ≡ true
    → ltb_ℤ (pos 0) (widened_aspiration_window window) ≡ true
unfolding widened_aspiration_window ◌*ℤ◌
widened-positive window w = ground (arith, w)

first-positive : (window : ℤ) → ltb_ℤ (pos 0) (positive_aspiration_window window) ≡ true
unfolding positive_aspiration_window
first-positive window = ground arith

inside :
    (value alpha beta score : ℤ)
    → IsFailSoft value alpha beta score
    → (failed_low score alpha || failed_high score beta) ≡ false
    → score ≡ value
unfolding failed_low failed_high
inside value alpha beta score (IsFailSoft.inside e) h = sym e
inside value alpha beta score (IsFailSoft.low v s) h = absurd (ground (arith, h, s))
inside value alpha beta score (IsFailSoft.high v s) h = absurd (ground (arith, h, s))

full_window :
    (value score : ℤ)
    → ltb_ℤ search_score_min value ≡ true
    → ltb_ℤ value search_score_max ≡ true
    → IsFailSoft value search_score_min search_score_max score
    → score ≡ value
full_window value score l h (IsFailSoft.inside e) = sym e
full_window value score l h (IsFailSoft.low v s) = absurd (ground (arith, l, v, s))
full_window value score l h (IsFailSoft.high v s) = absurd (ground (arith, h, v, s))

module _ {S R : Type 0} (search : ℤ → ℤ → S → R × S) (score : R → ℤ)
    (count : (SearchStats → SearchStats) → S → S) (value : ℤ)
    (above : ltb_ℤ search_score_min value ≡ true) (below : ltb_ℤ value search_score_max ≡ true)
    (sound : (alpha beta : ℤ) (context : S)
      → ltb_ℤ alpha beta ≡ true
      → IsFailSoft value alpha beta (score (search alpha beta context).0))
    (previous : ℤ) (bounded : IsScore previous) where
  aspiration_loop-value :
      (left : ℕ) (window : ℤ) (context : S)
      → ltb_ℤ (pos 0) window ≡ true
      → score (aspiration_loop search score count left previous window context).0 ≡ value
  unfolding aspiration_loop attempt
  aspiration_loop-value zero window context w =
      let alpha = aspiration_alpha previous window in
      let beta = aspiration_beta previous window in
      let result = search alpha beta context in
      elim (Bool-cases (failed_low (score result.0) alpha || failed_high (score result.0) beta)) [
        | inl failed ↦
            rw failed
              (full_window value _ above below (sound search_score_min search_score_max _ refl))
        | inr fits ↦ rw fits (
            inside value alpha beta _
              (sound alpha beta context (alpha_lt_beta previous window bounded w)) fits)
      ]
  aspiration_loop-value (suc left) window context w =
      let alpha = aspiration_alpha previous window in
      let beta = aspiration_beta previous window in
      let result = search alpha beta context in
      elim (Bool-cases (failed_low (score result.0) alpha || failed_high (score result.0) beta)) [
        | inl failed ↦ rw failed (aspiration_loop-value left _ _ (widened-positive window w))
        | inr fits ↦ rw fits (
            inside value alpha beta _
              (sound alpha beta context (alpha_lt_beta previous window bounded w)) fits)
      ]

  -- When the search of every window is fail-soft for a value strictly inside the range of scores,
  -- the search with a window around a score in that range gives exactly the value.
  pub search_aspirated_with_context-value :
      (initial_window : ℤ) (options : SearchEngineOptions) (context : S)
      → score
          (search_aspirated_with_context search score count previous initial_window options
            context).0
        ≡ value
  unfolding search_aspirated_with_context
  search_aspirated_with_context-value initial_window options context =
      aspiration_loop-value _ _ _ (first-positive initial_window)
