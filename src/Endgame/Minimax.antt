-- ===== src/Endgame/Minimax.antt =====
-- A whole solver of the last squares against minimax: moves, a pass, the end of the game.
use mathlib.Core.Path.{subst}
use vibe_othello_engine.Base.{
  ℕ, suc, ◌≡◌, refl, sym, arith, true, false, not, ◌==◌, Option, none, some, List, [], ◌∷◌,
  if◌then◌else◌, Bool-cases, Option-cases, inl, inr,
}
use vibe_othello_engine.Base.Int.{ℤ, ltb_ℤ}
use vibe_othello_engine.Board.Square.{Square}
use vibe_othello_engine.Search.Bound.{IsFailSoft}
use vibe_othello_engine.Search.Position.{
  SearchPosition, empty, position_after_move, position_after_pass, score_for_player,
}
use vibe_othello_engine.Endgame.Table.{ExactEndgameStats}
use vibe_othello_engine.Endgame.Last.{
  negate, count_node, score_result, flips_for_empty_square, has_move_on_any_last_empty, Best,
  no_best, Solver, search_squares, best_result, passed_result, solve_with_squares, solve_after_2,
  solve_last_1, solve_square, first_empty_square, last_empty_squares, solve_last_4,
  solve_last_2_with_squares, solve_last_3_with_squares, solve_last_4_with_squares,
}
use vibe_othello_engine.Endgame.Exact.{
  Value, best_value, best_value-le, minimax, Agrees, search_squares-Agrees, negated, negate_window,
}

module _ (value : Value) (position : SearchPosition) (squares : List Square) where
  best_value-none :
      (rest : List Square) (index : ℕ)
      → has_move_on_any_last_empty position rest ≡ false
      → best_value value position squares rest index none ≡ none
  unfolding best_value has_move_on_any_last_empty
  best_value-none [] index h = refl
  best_value-none (square ∷ rest) index h =
      elim (Bool-cases (flips_for_empty_square position square == 0)) [
        | inl z ↦ rw z (best_value-none rest (suc index) (ground (arith, h, z)))
        | inr z ↦ absurd (ground (arith, h, z))
      ]

  best_value-some :
      (rest : List Square) (index : ℕ)
      → has_move_on_any_last_empty position rest ≡ true
      → (v : ℤ) × (best_value value position squares rest index none ≡ some v)
  unfolding best_value has_move_on_any_last_empty
  best_value-some [] index h = absurd (ground (arith, h))
  best_value-some (square ∷ rest) index h =
      elim (Bool-cases (flips_for_empty_square position square == 0)) [
        | inl z ↦ rw z (best_value-some rest (suc index) (ground (arith, h, z)))
        | inr z ↦
            rw z (
              let (v, e, above) = best_value-le value position squares rest (suc index) _ in (v, e))
      ]

best_result-score :
    (position : SearchPosition) (best : Best) (v alpha beta : ℤ) (s : Option ℤ)
    → best.best_score ≡ s
    → Agrees alpha beta (some v) s
    → IsFailSoft v alpha beta (best_result position best).score
unfolding best_result
best_result-score position best v alpha beta none e a = elim a [ ]
best_result-score position best v alpha beta (some s) e a = rw e a

-- A solver of positions whose squares are left is right for their values.
abbrev pub IsRight : Value → Solver → Type 0
IsRight value child =
    (next : SearchPosition) (left : List Square) (alpha beta : ℤ) (stats : ExactEndgameStats)
    → ltb_ℤ alpha beta ≡ true
    → IsFailSoft (value next left) alpha beta (child next left alpha beta stats).0.score

module _ (value : Value) (child : Solver) (right : IsRight value child)
    (squares : List Square) where
  moving :
      (turns : ℕ) (position : SearchPosition) (v alpha beta : ℤ) (stats : ExactEndgameStats)
      → has_move_on_any_last_empty position squares ≡ true
      → best_value value position squares squares 0 none ≡ some v
      → ltb_ℤ alpha beta ≡ true
      → IsFailSoft v alpha beta
          (solve_with_squares (suc turns) child position squares alpha beta stats).0.score
  unfolding solve_with_squares no_best
  moving turns position v alpha beta stats h e w =
      let score =
        (search_squares child position squares squares 0 alpha beta no_best
          (count_node stats)).0.best_score in
      let found =
        search_squares-Agrees value position squares child right alpha beta squares 0 alpha none
          no_best (count_node stats) w refl in
      rw h (
        best_result-score position _ v alpha beta _ refl
          (subst (λ o. Agrees alpha beta o score) e found))

  passing :
      (position : SearchPosition) (alpha beta : ℤ) (stats : ExactEndgameStats)
      → has_move_on_any_last_empty position squares ≡ false
      → has_move_on_any_last_empty (position_after_pass position) squares ≡ true
      → (solve_with_squares 2 child position squares alpha beta stats).0.score
        ≡ negate
            (solve_with_squares 1 child
              (position_after_pass position)
              squares
              (negate beta)
              (negate alpha)
              (count_node stats)).0.score
  unfolding solve_with_squares passed_result
  passing position alpha beta stats h p = rw (h, p) refl

  ending :
      (position : SearchPosition) (alpha beta : ℤ) (stats : ExactEndgameStats)
      → has_move_on_any_last_empty position squares ≡ false
      → has_move_on_any_last_empty (position_after_pass position) squares ≡ false
      → (solve_with_squares 2 child position squares alpha beta stats).0.score
        ≡ score_for_player position
  unfolding solve_with_squares score_result
  ending position alpha beta stats h p = rw (h, p) refl

  -- For positions with squares left that the child solves with fail-soft results for its values,
  -- the solver's score is a fail-soft result for the minimax value in every window.
  pub solve_with_squares-IsFailSoft :
      (position : SearchPosition) (alpha beta : ℤ) (stats : ExactEndgameStats)
      → ltb_ℤ alpha beta ≡ true
      → IsFailSoft
          (minimax value position squares)
          alpha
          beta
          (solve_with_squares 2 child position squares alpha beta stats).0.score
  unfolding minimax
  solve_with_squares-IsFailSoft position alpha beta stats w =
      elim (Bool-cases (has_move_on_any_last_empty position squares)) [
        | inl h ↦
            let (v, e) = best_value-some value position squares squares 0 h in
            rw (minimax, e) (moving 1 position v alpha beta stats h e w)
        | inr h ↦
            rw (minimax, best_value-none value position squares squares 0 h)
              (elim (Bool-cases
                (has_move_on_any_last_empty (position_after_pass position) squares)) [
                  | inl p ↦
                      let after = position_after_pass position in
                      let (v, e) = best_value-some value after squares squares 0 p in
                      rw (e, passing position alpha beta stats h p)
                        (negated v alpha beta _ (
                          moving 0 after v (negate beta) (negate alpha) (count_node stats) p e
                            (negate_window alpha beta w)))
                  | inr p ↦
                      rw
                        (
                          best_value-none value (position_after_pass position) squares squares 0 p,
                          ending position alpha beta stats h p,
                        )
                        (IsFailSoft.inside refl)
                ])
      ]

-- The value of the last square, as `solve_last_1` scores it, and those of two, three and four
-- squares by minimax over it. The counters do not bear on the score.
module _ (one_value : Value) (one : IsRight one_value solve_after_2) where
  last_2_IsRight : IsRight (minimax one_value) solve_last_2_with_squares
  unfolding solve_last_2_with_squares
  last_2_IsRight next left alpha beta stats w =
      solve_with_squares-IsFailSoft one_value solve_after_2 one left next alpha beta stats w

  last_3_IsRight : IsRight (minimax (minimax one_value)) solve_last_3_with_squares
  unfolding solve_last_3_with_squares
  last_3_IsRight next left alpha beta stats w =
      solve_with_squares-IsFailSoft (minimax one_value) solve_last_2_with_squares last_2_IsRight
        left next alpha beta stats w

  last_4_IsRight : IsRight (minimax (minimax (minimax one_value))) solve_last_4_with_squares
  unfolding solve_last_4_with_squares
  last_4_IsRight next left alpha beta stats w =
      solve_with_squares-IsFailSoft (minimax (minimax one_value)) solve_last_3_with_squares
        last_3_IsRight left next alpha beta stats w

-- The score of one square from the rules: the better of the mover's move, the other's, or the end.
unfoldable pub square_value : SearchPosition → Square → ℤ
square_value position square =
    let after_pass = position_after_pass position in
    if not (flips_for_empty_square position square == 0)
    then negate (
        score_for_player
          (position_after_move position square (flips_for_empty_square position square)))
    else if not (flips_for_empty_square after_pass square == 0)
    then score_for_player
        (position_after_move after_pass square (flips_for_empty_square after_pass square))
    else score_for_player position

unfoldable pub last_value : Value
last_value position squares = elim (first_empty_square (empty position)) [
  | none ↦ score_for_player position
  | some square ↦ square_value position square
]

solve_square-score :
    (position : SearchPosition) (square : Square) (stats : ExactEndgameStats)
    → (solve_square position square stats).0.score ≡ square_value position square
unfolding solve_square square_value score_result
solve_square-score position square stats =
    elim (Bool-cases (flips_for_empty_square position square == 0)) [
      | inr f ↦ rw f refl
      | inl f ↦
          rw f
            (elim (Bool-cases (flips_for_empty_square (position_after_pass position) square == 0)) [
              | inl g ↦ rw g refl
              | inr g ↦ rw g refl
            ])
    ]

last_1_IsRight : IsRight last_value solve_after_2
unfolding last_value solve_after_2 solve_last_1 score_result
last_1_IsRight next left alpha beta stats w =
    elim (Option-cases (first_empty_square (empty next))) [
      | inl full ↦ rw (last_value, solve_last_1, full) (IsFailSoft.inside refl)
      | inr (square, found) ↦
          rw (last_value, solve_last_1, found)
            (IsFailSoft.inside (sym (solve_square-score next square (count_node stats))))
    ]

-- With alpha below beta, the score of `solve_last_4` is a fail-soft result for the minimax value,
-- over the moves on the four empty squares, on the three and on the two that are then left, and
-- the score of the last square.
pub solve_last_4-IsFailSoft :
    (position : SearchPosition) (alpha beta : ℤ) (stats : ExactEndgameStats)
    → ltb_ℤ alpha beta ≡ true
    → IsFailSoft
        (minimax (minimax (minimax last_value)) position (last_empty_squares 4 (empty position)))
        alpha
        beta
        (solve_last_4 position alpha beta stats).0.score
unfolding solve_last_4
solve_last_4-IsFailSoft position alpha beta stats w =
    last_4_IsRight last_value last_1_IsRight position (last_empty_squares 4 (empty position)) alpha
      beta stats w
