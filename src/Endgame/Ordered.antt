-- ===== src/Endgame/Ordered.antt =====
-- The endgame tries exactly the moves that flip something, the best scores first.
use mathlib.Core.List.{Perm, append-nil}
use mathlib.Core.List.Perm
use vibe_othello_engine.Base.{
  ℕ, ◌<◌, bit_and, ◌≡◌, refl, sym, arith, ◌==◌, Option, none, some, List, [], ◌∷◌, ◌++◌,
  if◌then◌else◌, Bool-cases, inl, inr,
}
use vibe_othello_engine.Base.Int.{pos}
use vibe_othello_engine.Bits.U64.{IsWord}
use vibe_othello_engine.Board.Square.{Square, square_bit, from_index}
use vibe_othello_engine.Search.Position.{SearchPosition, flips_for_move}
use vibe_othello_engine.Search.Collect.{collect, each_bit-collect}
use vibe_othello_engine.Search.Sort.{
  sort_moves-Perm, sort_moves-IsOrdered, promote_preferred_move-Perm, IsOrdered,
}
use vibe_othello_engine.Endgame.Table.{ExactEndgameStats}
use vibe_othello_engine.Endgame.Order.{
  OrderedMove, EndgameMoveOrderingPolicy, new_move, append_move, regions_for, candidates,
  sort_ordered_moves, ordered_legal_move_indexes, promote_tt_move, ordered_with_tt_move,
}

from_index-some : (n : ℕ) → n < 64 → from_index (pos n) ≡ some (record { index = n })
unfolding from_index
from_index-some n h = ground arith

module _ (position : SearchPosition) (hash : ℕ) (policy : EndgameMoveOrderingPolicy) where
  -- The move on a square, if it flips something.
  abbrev pub move_on : ℕ → List OrderedMove
  move_on i =
      let square : Square = record { index = i } in
      if flips_for_move position square == 0
      then []
      else new_move position hash policy (regions_for policy position) square
          (flips_for_move position square)
        ∷ []

  append_move-move_on :
      (i : ℕ) (so_far : List OrderedMove)
      → i < 64
      → append_move position hash policy (regions_for policy position) i so_far
        ≡ so_far ++ move_on i
  unfolding append_move
  append_move-move_on i so_far h =
      rw (append_move, from_index-some i h)
        (elim (Bool-cases (flips_for_move position (record { index = i }) == 0)) [
          | inl z ↦ rw z (sym (append-nil so_far))
          | inr z ↦ rw z refl
        ])

  ordered-Perm :
      (moves : ℕ)
      → IsWord moves
      → Perm (ordered_legal_move_indexes position hash moves policy) (collect move_on 64 0 moves)
  unfolding ordered_legal_move_indexes sort_ordered_moves candidates
  ordered-Perm moves w =
      rw
        (← each_bit-collect move_on (append_move position hash policy (regions_for policy position))
          append_move-move_on moves [] w)
        (sort_moves-Perm _ _ _)

  promoted-Perm :
      (moves : ℕ) (tt_move : Option Square) (ordered : List OrderedMove)
      → Perm (promote_tt_move moves tt_move ordered).0 ordered
  unfolding promote_tt_move
  promoted-Perm moves none ordered = Perm.refl _
  promoted-Perm moves (some square) ordered =
      elim (Bool-cases (bit_and moves (square_bit square) == 0)) [
        | inl z ↦ rw z (Perm.refl _)
        | inr z ↦ rw z (promote_preferred_move-Perm _ _ square.index ordered)
      ]

  -- For every word of moves, with or without a move of the table, the moves that are tried are those
  -- of the set squares that flip something, each once; before the move of the table is put in front,
  -- no move comes after one that the comparison puts behind it.
  pub ordered_with_tt_move-Perm :
      (moves : ℕ) (tt_move : Option Square) (stats : ExactEndgameStats)
      → IsWord moves
      → Perm
          (ordered_with_tt_move position hash moves tt_move stats policy).0
          (collect move_on 64 0 moves)
        × IsOrdered
            (λ (move : OrderedMove). move.order_score)
            (λ (move : OrderedMove). move.index)
            (ordered_legal_move_indexes position hash moves policy)
  unfolding ordered_with_tt_move ordered_legal_move_indexes sort_ordered_moves
  ordered_with_tt_move-Perm moves tt_move stats w = (
    Perm.trans (promoted-Perm moves tt_move _) (ordered-Perm moves w),
    sort_moves-IsOrdered _ _ _,
  )
