-- ===== src/Search/Sorted.antt =====
-- Lists of moves that are put together stay in the order of src/search_move_ordering.cpp.
use vibe_othello_engine.Base.{ℕ, ◌<◌, ◌≡◌, arith, true, false, List, [], ◌∷◌, ◌++◌}
use vibe_othello_engine.Base.Int.{ℤ, ltb_ℤ}
use vibe_othello_engine.Search.Sort.{comes_before, Every, IsOrdered}

module _ {A : Type 0} (order_score : A → ℤ) (index : A → ℕ) where
  pub Every-append :
      (P : A → Type 0) (xs ys : List A)
      → Every order_score index P xs
      → Every order_score index P ys
      → Every order_score index P (xs ++ ys)
  Every-append P [] ys all others = others
  Every-append P (x ∷ xs) ys (p, all) others = (p, Every-append P xs ys all others)

  pub Every-map :
      (P Q : A → Type 0) (xs : List A)
      → ((a : A) → P a → Q a)
      → Every order_score index P xs
      → Every order_score index Q xs
  Every-map P Q [] f all = tt
  Every-map P Q (x ∷ xs) f (p, all) = (f x p, Every-map P Q xs f all)

  not_before_higher :
      (s : ℤ) (a b : A)
      → ltb_ℤ s (order_score a) ≡ true
      → order_score b ≡ s
      → comes_before order_score index b a ≡ false
  unfolding comes_before
  not_before_higher s a b h e = ground (arith, h, e)

  -- Moves of one score come after moves of higher scores.
  pub append-IsOrdered :
      (s : ℤ) (xs ys : List A)
      → IsOrdered order_score index xs
      → IsOrdered order_score index ys
      → Every order_score index (λ a. ltb_ℤ s (order_score a) ≡ true) xs
      → Every order_score index (λ b. order_score b ≡ s) ys
      → IsOrdered order_score index (xs ++ ys)
  append-IsOrdered s [] ys v u all equal = u
  append-IsOrdered s (x ∷ xs) ys (first, v) u (higher, all) equal = (
    Every-append _ xs ys first (Every-map _ _ ys (λ b e. not_before_higher s x b higher e) equal),
    append-IsOrdered s xs ys v u all equal,
  )

  -- A move of the same score and a lower index stays in front.
  pub not_before_lower :
      (a b : A)
      → order_score a ≡ order_score b
      → index a < index b
      → comes_before order_score index b a ≡ false
  unfolding comes_before
  not_before_lower a b e h = ground (arith, e, h)
