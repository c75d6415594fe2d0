-- ===== src/Search/Lines.antt =====
-- Better moves form a strict order, and principal variations are lists of at most 64 squares.
use Prim.Native.Nat.{min}
use native.Mathlib.Nat.{zero-min, min-zero, suc-min-suc}
use vibe_othello_engine.Base.{
  ℕ, zero, suc, ◌≤◌, ◌≡◌, ◌≢◌, refl, ap, sym, ◌∙◌, arith, true, not, some, List, [], ◌∷◌, map, take,
  replicate, length, length-replicate, length-map,
}
use vibe_othello_engine.Base.Int.{ℤ, pos}
use vibe_othello_engine.Board.Square.{Square, IsSquare, from_index}
use vibe_othello_engine.Search.Line.{
  is_better_best_move, PrincipalVariation, copy_prefix, principal_variation_with_move, squares_of,
  principal_variation_to_vector, index_of, principal_variation_from_vector,
}

-- Of two scored moves on different squares exactly one is better than the other.
pub is_better_best_move-total :
    (a b : ℤ) (s t : Square)
    → s.index ≢ t.index
    → is_better_best_move a s (some b) (some t) ≡ not (is_better_best_move b t (some a) (some s))
unfolding is_better_best_move
is_better_best_move-total a b s t h = ground (arith, h)

-- A scored move that is better than a second, which is better than a third, is better than the
-- third.
pub is_better_best_move-transitive :
    (a b c : ℤ) (s t u : Square)
    → is_better_best_move a s (some b) (some t) ≡ true
    → is_better_best_move b t (some c) (some u) ≡ true
    → is_better_best_move a s (some c) (some u) ≡ true
unfolding is_better_best_move
is_better_best_move-transitive a b c s t u h k = ground arith

-- The array keeps its size, and the line lies within it.
pub record IsVariation (pv : PrincipalVariation) : Type 0 where
  pub full : length (pv.indexes) ≡ 64
  pub within : pv.size ≤ 64

abbrev pub line : PrincipalVariation → List ℤ
line pv = take pv.size pv.indexes

take-copy_prefix :
    (n : ℕ) (xs ys : List ℤ)
    → n ≤ length xs
    → n ≤ length ys
    → take n (copy_prefix n xs ys) ≡ take n xs
unfolding copy_prefix
take-copy_prefix zero xs ys h k = refl
take-copy_prefix (suc n) [] ys h k = absurd (omega arith)
take-copy_prefix (suc n) (x ∷ xs) [] h k = absurd (omega arith)
take-copy_prefix (suc n) (x ∷ xs) (y ∷ ys) h k =
    ap (λ t. x ∷ t) (take-copy_prefix n xs ys (omega arith) (omega arith))

length-copy_prefix : (n : ℕ) (xs ys : List ℤ) → length (copy_prefix n xs ys) ≡ length ys
unfolding copy_prefix
length-copy_prefix zero xs ys = refl
length-copy_prefix (suc n) [] ys = refl
length-copy_prefix (suc n) (x ∷ xs) [] = refl
length-copy_prefix (suc n) (x ∷ xs) (y ∷ ys) = ap suc (length-copy_prefix n xs ys)

take-min : (n k : ℕ) (xs : List ℤ) → take k (take n xs) ≡ take (min n k) xs
take-min zero zero xs = refl
take-min zero (suc k) xs = rw (zero-min (suc k)) refl
take-min (suc n) zero xs = rw (min-zero (suc n)) refl
take-min (suc n) (suc k) [] = rw (suc-min-suc n k) refl
take-min (suc n) (suc k) (x ∷ xs) = rw (suc-min-suc n k) (ap (λ t. x ∷ t) (take-min n k xs))

-- The variation of a move before a line is that line with the move in front, cut at 64 moves.
pub principal_variation_with_move-line :
    (s : Square) (child : PrincipalVariation)
    → IsVariation child
    → IsVariation (principal_variation_with_move s child)
      × (line (principal_variation_with_move s child) ≡ take 64 (pos s.index ∷ line child))
unfolding principal_variation_with_move
principal_variation_with_move-line s child v =
    let n = min child.size 63 in
    (
      record {
        full = ap suc (
            length-copy_prefix n child.indexes (replicate 63 (pos 0))
            ∙ length-replicate 63 (pos 0));
        within = omega arith;
      },
      ap (λ t. pos s.index ∷ t)
          (take-copy_prefix n child.indexes (replicate 63 (pos 0)) (omega (arith, v.full))
              (omega (arith, length-replicate 63 (pos 0)))
            ∙ sym (take-min child.size 63 child.indexes)),
    )

-- Every square of the list is one of the board.
pub data AllSquares : List Square → Type 0 where
  nil : AllSquares []
  cons : {s : Square} {rest : List Square} → IsSquare s → AllSquares rest → AllSquares (s ∷ rest)

from_index-index_of : (s : Square) → IsSquare s → from_index (index_of s) ≡ some s
unfolding from_index index_of
from_index-index_of s h = ground (arith, h)

squares_of-indexes :
    (squares : List Square) (n : ℕ)
    → AllSquares squares
    → squares_of (take n (map index_of squares)) ≡ take n squares
unfolding squares_of
squares_of-indexes squares zero a = refl
squares_of-indexes [] (suc n) a = refl
squares_of-indexes (s ∷ rest) (suc n) (AllSquares.cons h a) =
    rw (squares_of, from_index-index_of s h) (ap (λ t. s ∷ t) (squares_of-indexes rest n a))

take_all : (n : ℕ) (xs : List Square) → take (min (length xs) n) xs ≡ take n xs
take_all zero [] = refl
take_all (suc n) [] = rw (zero-min (suc n)) refl
take_all zero (x ∷ xs) = rw (min-zero (suc (length xs))) refl
take_all (suc n) (x ∷ xs) = rw (suc-min-suc (length xs) n) (ap (λ t. x ∷ t) (take_all n xs))

-- A list of squares read back from its variation is the list cut at 64 squares.
pub principal_variation_to_vector-from_vector :
    (squares : List Square)
    → AllSquares squares
    → IsVariation (principal_variation_from_vector squares)
      × (principal_variation_to_vector (principal_variation_from_vector squares) ≡ take 64 squares)
unfolding principal_variation_to_vector principal_variation_from_vector
principal_variation_to_vector-from_vector squares a =
    let n = min (length squares) 64 in
    let e = length-map squares index_of in
    let zeros = length-replicate 64 (pos 0) in
    (
      record {
        full = length-copy_prefix n (map index_of squares) (replicate 64 (pos 0)) ∙ zeros;
        within = omega arith;
      },
      ap squares_of (
            take-copy_prefix n (map index_of squares) (replicate 64 (pos 0)) (omega (arith, e))
              (omega (arith, zeros)))
          ∙ squares_of-indexes squares n a
          ∙ take_all 64 squares,
    )
