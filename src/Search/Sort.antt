-- ===== src/Search/Sort.antt =====
-- The order in which moves are tried, as src/endgame_ordering.hpp and src/search_move_ordering.cpp
-- share it: by descending score and ascending index, with a preferred move in front.
use mathlib.Core.Path.{subst}
use mathlib.Core.List.{Perm}
use mathlib.Core.List.Perm
use vibe_othello_engine.Base.{
  ℕ, ◌≡◌, refl, ap, sym, ◌∙◌, arith, Bool, true, false, ◌==◌, ltb, Option, none, some, List, [],
  ◌∷◌, if◌then◌else◌, Bool-cases, Option-cases, inl, inr, some_injective,
}
use vibe_othello_engine.Base.Int.{ℤ, ltb_ℤ, eqb_ℤ}

module _ {A : Type 0} (order_score : A → ℤ) (index : A → ℕ) where
  -- The comparison of `sort`: `lhs.order_score > rhs.order_score`, or as high and a lower index.
  unfoldable pub comes_before : A → A → Bool
  comes_before lhs rhs =
      if eqb_ℤ (order_score lhs) (order_score rhs)
      then ltb (index lhs) (index rhs)
      else ltb_ℤ (order_score rhs) (order_score lhs)

  unfoldable pub insert_move : A → List A → List A
  insert_move move [] = move ∷ []
  insert_move move (other ∷ moves) =
      let rest = insert_move move moves in
      if comes_before other move then other ∷ rest else move ∷ other ∷ moves

  -- `std::sort`: the moves in the order of the comparison.
  unfoldable pub sort_moves : List A → List A
  sort_moves [] = []
  sort_moves (move ∷ moves) = insert_move move (sort_moves moves)

  -- The first move with the index, and the others.
  unfoldable pub take_out : ℕ → List A → Option (A × List A)
  take_out preferred [] = none
  take_out preferred (move ∷ moves) =
      let rest = take_out preferred moves in
      if index move == preferred
      then some (move, moves)
      else elim rest [ none ↦ none | some found ↦ some (found.0, move ∷ found.1) ]

  -- `promote_preferred_move`: the moves, and whether the preferred one is among them.
  unfoldable pub promote_preferred_move : ℕ → List A → List A × Bool
  promote_preferred_move preferred moves = elim (take_out preferred moves) [
    | none ↦ (moves, false)
    | some found ↦ (found.0 ∷ found.1, true)
  ]

  insert_move-Perm : (move : A) (moves : List A) → Perm (insert_move move moves) (move ∷ moves)
  unfolding insert_move
  insert_move-Perm move [] = Perm.refl _
  insert_move-Perm move (other ∷ moves) = elim (Bool-cases (comes_before other move)) [
    | inl t ↦
        rw t
          (Perm.trans (Perm.cons other (insert_move-Perm move moves)) (Perm.swap move other moves))
    | inr f ↦ rw f (Perm.refl _)
  ]

  pub sort_moves-Perm : (moves : List A) → Perm (sort_moves moves) moves
  unfolding sort_moves
  sort_moves-Perm [] = Perm.refl _
  sort_moves-Perm (move ∷ moves) =
      Perm.trans (insert_move-Perm move (sort_moves moves)) (Perm.cons move (sort_moves-Perm moves))

  take_out_other :
      (preferred : ℕ) (move : A) (moves : List A) (found : A × List A)
      → (index move == preferred) ≡ false
      → take_out preferred (move ∷ moves) ≡ some found
      → (rest : List A) × (take_out preferred moves ≡ some (found.0, rest))
        × (found.1 ≡ move ∷ rest)
  unfolding take_out
  take_out_other preferred move moves found f h = elim (Option-cases (take_out preferred moves)) [
    | inl none_there ↦ absurd (ground (arith, f, h, none_there))
    | inr (there, e) ↦
        let same : (some (there.0, move ∷ there.1) ≡ some found) = sym (rw (f, e) refl) ∙ h in
        let pairs = some_injective _ found same in
        (
          there.1,
          e ∙ ap (λ (x : A × List A). some (x.0, there.1)) pairs,
          sym (ap (λ (x : A × List A). x.1) pairs),
        )
  ]

  take_out-Perm :
      (preferred : ℕ) (moves : List A) (found : A × List A)
      → take_out preferred moves ≡ some found
      → Perm (found.0 ∷ found.1) moves × (index found.0 ≡ preferred)
  unfolding take_out
  take_out-Perm preferred [] found h = absurd (ground (arith, h))
  take_out-Perm preferred (move ∷ moves) found h = elim (Bool-cases (index move == preferred)) [
    | inl t ↦
        let same = some_injective (move, moves) found (sym (rw t refl) ∙ h) in
        subst (λ (x : A × List A). Perm (x.0 ∷ x.1) (move ∷ moves) × (index x.0 ≡ preferred)) same
          (Perm.refl _, ground (arith, t))
    | inr f ↦
        let (rest, e, split) = take_out_other preferred move moves found f h in
        let (p, at) = take_out-Perm preferred moves (found.0, rest) e in
        (rw split (Perm.trans (Perm.swap move found.0 rest) (Perm.cons move p)), at)
  ]

  pub promote_preferred_move-Perm :
      (preferred : ℕ) (moves : List A) → Perm (promote_preferred_move preferred moves).0 moves
  unfolding promote_preferred_move
  promote_preferred_move-Perm preferred moves = elim (Option-cases (take_out preferred moves)) [
    | inl none_there ↦ rw (promote_preferred_move, none_there) (Perm.refl _)
    | inr (found, e) ↦ rw (promote_preferred_move, e) (take_out-Perm preferred moves found e).0
  ]

  -- Every move of the list has the property.
  abbrev pub Every : (A → Type 0) → List A → Type 0
  Every P [] = Unit {0}
  Every P (move ∷ moves) = P move × Every P moves

  -- No move comes before one that stands earlier in the list.
  abbrev pub IsOrdered : List A → Type 0
  IsOrdered [] = Unit {0}
  IsOrdered (move ∷ moves) =
      Every (λ later. comes_before later move ≡ false) moves × IsOrdered moves

  not_before_both : (a b : A) → comes_before a b ≡ true → comes_before b a ≡ false
  unfolding comes_before
  not_before_both a b h = ground (arith, h)

  not_before_trans :
      (a b c : A) → comes_before a b ≡ false → comes_before b c ≡ false → comes_before a c ≡ false
  unfolding comes_before
  not_before_trans a b c h k = ground (arith, h, k)

  Every-insert_move :
      (P : A → Type 0) (move : A) (moves : List A)
      → P move
      → Every P moves
      → Every P (insert_move move moves)
  unfolding insert_move
  Every-insert_move P move [] p all = (p, tt)
  Every-insert_move P move (other ∷ moves) p (q, all) =
      elim (Bool-cases (comes_before other move)) [
        | inl t ↦ rw t (q, Every-insert_move P move moves p all)
        | inr f ↦ rw f (p, (q, all))
      ]

  Every-weaken :
      (a b : A) (moves : List A)
      → comes_before a b ≡ false
      → Every (λ later. comes_before later a ≡ false) moves
      → Every (λ later. comes_before later b ≡ false) moves
  Every-weaken a b [] h all = tt
  Every-weaken a b (move ∷ moves) h (q, all) =
      (not_before_trans move a b q h, Every-weaken a b moves h all)

  insert_move-IsOrdered :
      (move : A) (moves : List A) → IsOrdered moves → IsOrdered (insert_move move moves)
  unfolding insert_move
  insert_move-IsOrdered move [] v = (tt, tt)
  insert_move-IsOrdered move (other ∷ moves) (first, v) =
      elim (Bool-cases (comes_before other move)) [
        | inl t ↦ rw t (
          Every-insert_move _ move moves (not_before_both other move t) first,
          insert_move-IsOrdered move moves v,
        )
        | inr f ↦ rw f ((f, Every-weaken other move moves f first), (first, v))
      ]

  pub sort_moves-IsOrdered : (moves : List A) → IsOrdered (sort_moves moves)
  unfolding sort_moves
  sort_moves-IsOrdered [] = tt
  sort_moves-IsOrdered (move ∷ moves) =
      insert_move-IsOrdered move (sort_moves moves) (sort_moves-IsOrdered moves)
