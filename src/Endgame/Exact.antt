-- ===== src/Endgame/Exact.antt =====
-- The solvers of the last squares against minimax, which tries every move and cuts nothing.
use mathlib.Core.Path.{subst}
use vibe_othello_engine.Base.{
  ℕ, suc, ◌≡◌, ◌⊎◌, refl, ap, sym, arith, true, false, ◌==◌, Option, none, some, List, [], ◌∷◌,
  if◌then◌else◌, Bool-cases, Option-cases, inl, inr,
}
use vibe_othello_engine.Base.Int.{ℤ, pos, ◌-ℤ◌, ltb_ℤ, ◌≤ℤ◌, int_laws}
use vibe_othello_engine.Board.Square.{Square}
use vibe_othello_engine.Search.Bound.{IsFailSoft}
use vibe_othello_engine.Search.Line.{PrincipalVariation, is_better_best_move}
use vibe_othello_engine.Search.Position.{
  SearchPosition, position_after_move, position_after_pass, score_for_player,
}
use vibe_othello_engine.Endgame.Table.{ExactEndgameStats}
use vibe_othello_engine.Endgame.Last.{
  negate, larger, flips_for_empty_square, last_empty_squares_without, Best, Solver, better,
  search_squares,
}

abbrev pub Value : Type 0
Value = SearchPosition → List Square → ℤ

-- The value of the position after a move on the square, for the player who moves.
abbrev pub move_value : Value → SearchPosition → List Square → Square → ℕ → ℤ
move_value child position squares square index = negate (
    child (position_after_move position square (flips_for_empty_square position square))
      (last_empty_squares_without squares index))

unfoldable pub larger_of : Option ℤ → ℤ → ℤ
larger_of none a = a
larger_of (some b) a = larger b a

-- The greatest value of a move on one of the squares from the index on, and of those before.
unfoldable pub best_value :
    Value → SearchPosition → List Square → List Square → ℕ → Option ℤ → Option ℤ
best_value child position squares [] index best = best
best_value child position squares (square ∷ rest) index best =
    best_value child position squares rest (suc index) (
      if flips_for_empty_square position square == 0
      then best
      else some (larger_of best (move_value child position squares square index)))

-- The minimax value of a position with the empty squares: the best move, or the pass, or the end.
unfoldable pub minimax : Value → Value
minimax child position squares = elim (best_value child position squares squares 0 none) [
  | some value ↦ value
  | none ↦ elim (best_value child (position_after_pass position) squares squares 0 none) [
    | some value ↦ negate value
    | none ↦ score_for_player position
  ]
]

-- A fail-soft result seen from the other side.
pub negated :
    (value alpha beta score : ℤ)
    → IsFailSoft value (negate beta) (negate alpha) score
    → IsFailSoft (negate value) alpha beta (negate score)
unfolding negate
negated value alpha beta score (IsFailSoft.inside e) = IsFailSoft.inside (ap (λ a. pos 0 -ℤ a) e)
negated value alpha beta score (IsFailSoft.low v s) =
    IsFailSoft.high (omega int_laws) (omega int_laws)
negated value alpha beta score (IsFailSoft.high v s) =
    IsFailSoft.low (omega int_laws) (omega int_laws)

pub negate_window :
    (alpha beta : ℤ) → ltb_ℤ alpha beta ≡ true → ltb_ℤ (negate beta) (negate alpha) ≡ true
unfolding negate ◌-ℤ◌
negate_window alpha beta h = ground (arith, h)

-- The best score s of the moves so far against their greatest value v, and alpha.
abbrev Tracks : ℤ → Option ℤ → Option ℤ → ℤ → Type 0
Tracks start none none alpha = alpha ≡ start
Tracks start (some v) (some s) alpha =
    ((v ≡ s) ⊎ ((v ≤ℤ s) × (s ≤ℤ start))) × (alpha ≡ larger start s)
Tracks start none (some s) alpha = ⊥
Tracks start (some v) none alpha = ⊥

larger_cases : (a b : ℤ) → ((larger a b ≡ b) × (a ≤ℤ b)) ⊎ ((larger a b ≡ a) × (b ≤ℤ a))
unfolding larger
larger_cases a b = ground arith

seen_step :
    (start beta alpha m c v s : ℤ)
    → ltb_ℤ alpha beta ≡ true
    → (v ≡ s) ⊎ ((v ≤ℤ s) × (s ≤ℤ start))
    → alpha ≡ larger start s
    → IsFailSoft m alpha beta c
    → ltb_ℤ (larger alpha c) beta ≡ true
    → ((larger v m ≡ larger s c) ⊎ ((larger v m ≤ℤ larger s c) × (larger s c ≤ℤ start)))
      × (larger alpha c ≡ larger start (larger s c))
unfolding larger
seen_step start beta alpha m c v s w (inl t) e (IsFailSoft.inside f) l =
    (inl (ground (arith, t, f)), ground (arith, e))
seen_step start beta alpha m c v s w (inl t) e (IsFailSoft.low f g) l = ground (arith, t, e, f, g)
seen_step start beta alpha m c v s w (inl t) e (IsFailSoft.high f g) l =
    absurd (ground (arith, l, g))
seen_step start beta alpha m c v s w (inr (t, u)) e (IsFailSoft.inside f) l =
    ground (arith, t, u, e, f)
seen_step start beta alpha m c v s w (inr (t, u)) e (IsFailSoft.low f g) l =
    (inr (ground (arith, t, u, e, f, g)), ground (arith, e))
seen_step start beta alpha m c v s w (inr (t, u)) e (IsFailSoft.high f g) l =
    absurd (ground (arith, l, g))

Tracks-step :
    (start beta alpha m c : ℤ) (v s : Option ℤ)
    → ltb_ℤ alpha beta ≡ true
    → Tracks start v s alpha
    → IsFailSoft m alpha beta c
    → ltb_ℤ (larger alpha c) beta ≡ true
    → Tracks start (some (larger_of v m)) (some (larger_of s c)) (larger alpha c)
unfolding larger_of larger
Tracks-step start beta alpha m c none none w t (IsFailSoft.inside e) l = (inl e, ground (arith, t))
Tracks-step start beta alpha m c none none w t (IsFailSoft.low a b) l =
    (inr (a, ground (arith, t, b)), ground (arith, t))
Tracks-step start beta alpha m c none none w t (IsFailSoft.high a b) l =
    absurd (ground (arith, l, b, w))
Tracks-step start beta alpha m c none (some s) w t f l = elim t [ ]
Tracks-step start beta alpha m c (some v) none w t f l = elim t [ ]
Tracks-step start beta alpha m c (some v) (some s) w (t, e) f l =
    seen_step start beta alpha m c v s w t e f l

-- A cut happens only on a move that reaches beta and is worth no less.
cut_reaches :
    (alpha beta m c : ℤ)
    → ltb_ℤ alpha beta ≡ true
    → IsFailSoft m alpha beta c
    → ltb_ℤ (larger alpha c) beta ≡ false
    → (beta ≤ℤ c) × (c ≤ℤ m)
unfolding larger
cut_reaches alpha beta m c w (IsFailSoft.inside f) l = (ground (arith, w, l), ground (arith, f))
cut_reaches alpha beta m c w (IsFailSoft.low f g) l = absurd (ground (arith, g, l, w))
cut_reaches alpha beta m c w (IsFailSoft.high f g) l = (g, f)

below_alpha : (start alpha s : ℤ) → alpha ≡ larger start s → s ≤ℤ alpha
unfolding larger
below_alpha start alpha s e = ground (arith, e)

larger_le : (a b c : ℤ) → a ≤ℤ c → b ≤ℤ c → larger a b ≤ℤ c
unfolding larger
larger_le a b c h k = ground (arith, h, k)

le_larger : (a b : ℤ) → (b ≤ℤ larger a b) × (a ≤ℤ larger a b)
unfolding larger
le_larger a b = ground arith

≤ℤ_trans : (a b c : ℤ) → a ≤ℤ b → b ≤ℤ c → a ≤ℤ c
≤ℤ_trans a b c h k = omega arith

≤ℤ_of_ltb : (a b : ℤ) → ltb_ℤ a b ≡ true → a ≤ℤ b
≤ℤ_of_ltb a b h = ground (arith, h)

cut_step :
    (start beta alpha m c : ℤ) (v s : Option ℤ)
    → ltb_ℤ alpha beta ≡ true
    → Tracks start v s alpha
    → IsFailSoft m alpha beta c
    → ltb_ℤ (larger alpha c) beta ≡ false
    → (beta ≤ℤ larger_of s c) × (larger_of s c ≤ℤ larger_of v m)
unfolding larger_of
cut_step start beta alpha m c none none w t f l = cut_reaches alpha beta m c w f l
cut_step start beta alpha m c none (some s) w t f l = elim t [ ]
cut_step start beta alpha m c (some v) none w t f l = elim t [ ]
cut_step start beta alpha m c (some v) (some s) w (t, e) f l =
    let (reaches, worth) = cut_reaches alpha beta m c w f l in
    let s_below = ≤ℤ_trans s alpha beta (below_alpha start alpha s e) (≤ℤ_of_ltb alpha beta w) in
    let c_below = ≤ℤ_trans c m (larger v m) worth (le_larger v m).0 in
    (
      ≤ℤ_trans beta c (larger s c) reaches (le_larger s c).0,
      larger_le s c (larger v m)
          (≤ℤ_trans s c (larger v m) (≤ℤ_trans s beta c s_below reaches) c_below) c_below,
    )

better-best_score :
    (best : Best) (c : ℤ) (square : Square) (line : PrincipalVariation)
    → (better best c square line).best_score ≡ some (larger_of best.best_score c)
unfolding better larger_of larger is_better_best_move
better-best_score best c square line = elim (Option-cases best.best_score) [
  | inl h ↦ ground (arith, h)
  | inr (s, h) ↦ ground (arith, h)
]

larger_of-le : (best : Option ℤ) (a b : ℤ) → larger_of best a ≤ℤ b → a ≤ℤ b
unfolding larger_of larger
larger_of-le none a b h = h
larger_of-le (some c) a b h = ground (arith, h)

-- What the loop gives at its end: the score of the best move is a fail-soft result for the
-- greatest value, and there is one when there is the other.
abbrev pub Agrees : ℤ → ℤ → Option ℤ → Option ℤ → Type 0
Agrees start beta none none = Unit {0}
Agrees start beta (some v) (some s) = IsFailSoft v start beta s
Agrees start beta none (some s) = ⊥
Agrees start beta (some v) none = ⊥

Tracks-end :
    (start beta alpha : ℤ) (v s : Option ℤ) → Tracks start v s alpha → Agrees start beta v s
Tracks-end start beta alpha none none t = tt
Tracks-end start beta alpha none (some s) t = elim t [ ]
Tracks-end start beta alpha (some v) none t = elim t [ ]
Tracks-end start beta alpha (some v) (some s) (inl t, e) = IsFailSoft.inside t
Tracks-end start beta alpha (some v) (some s) (inr (t, u), e) = IsFailSoft.low t u

module _ (value : Value) (position : SearchPosition) (squares : List Square) where
  -- More squares do not lower the greatest value.
  pub best_value-le :
      (rest : List Square) (index : ℕ) (a : ℤ)
      → (v : ℤ) × (best_value value position squares rest index (some a) ≡ some v) × (a ≤ℤ v)
  unfolding best_value larger_of
  best_value-le [] index a = (a, refl, omega arith)
  best_value-le (square ∷ rest) index a =
      elim (Bool-cases (flips_for_empty_square position square == 0)) [
        | inl z ↦ rw z (best_value-le rest (suc index) a)
        | inr z ↦
            let m = move_value value position squares square index in
            let (v, e, h) = best_value-le rest (suc index) (larger a m) in
            rw z (v, e, ≤ℤ_trans a (larger a m) v (le_larger a m).1 h)
      ]

  module _ (child : Solver)
      (right : (next : SearchPosition) (left : List Square) (alpha beta : ℤ)
          (stats : ExactEndgameStats)
        → ltb_ℤ alpha beta ≡ true
        → IsFailSoft (value next left) alpha beta (child next left alpha beta stats).0.score)
      (start beta : ℤ) where
    pub search_squares-Agrees :
        (rest : List Square) (index : ℕ) (alpha : ℤ) (v : Option ℤ) (best : Best)
        (stats : ExactEndgameStats)
        → ltb_ℤ alpha beta ≡ true
        → Tracks start v best.best_score alpha
        → Agrees start beta
            (best_value value position squares rest index v)
            (search_squares child position squares rest index alpha beta best stats).0.best_score
    unfolding best_value search_squares
    search_squares-Agrees [] index alpha v best stats w t =
        Tracks-end start beta alpha v best.best_score t
    search_squares-Agrees (square ∷ rest) index alpha v best stats w t =
        elim (Bool-cases (flips_for_empty_square position square == 0)) [
          | inl z ↦ rw z (search_squares-Agrees rest (suc index) alpha v best stats w t)
          | inr z ↦
              let left = last_empty_squares_without squares index in
              let next =
                position_after_move position square (flips_for_empty_square position square) in
              let result = (child next left (negate beta) (negate alpha) stats).0 in
              let c = negate result.score in
              let m = move_value value position squares square index in
              let sound =
                negated (value next left) alpha beta result.score (
                  right next left (negate beta) (negate alpha) stats
                    (negate_window alpha beta w)) in
              let scored = better-best_score best c square result.principal_variation in
              rw z (elim (Bool-cases (ltb_ℤ (larger alpha c) beta)) [
                | inl go ↦ rw go (
                    search_squares-Agrees rest (suc index) (larger alpha c) (some (larger_of v m))
                      (better best c square result.principal_variation) _ go
                      (subst (λ s. Tracks start (some (larger_of v m)) s (larger alpha c))
                        (sym scored)
                        (Tracks-step start beta alpha m c v best.best_score w t sound go)))
                | inr cut ↦
                    let (worst, best_found, above) =
                      best_value-le rest (suc index) (larger_of v m) in
                    let (reaches, worth) =
                      cut_step start beta alpha m c v best.best_score w t sound cut in
                    rw cut (
                      rw (best_found, scored)
                        (IsFailSoft.high (≤ℤ_trans _ (larger_of v m) worst worth above) reaches))
              ])
        ]
