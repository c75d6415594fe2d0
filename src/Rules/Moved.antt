-- ===== src/Rules/Moved.antt =====
-- The board that `apply_move` returns: well formed, with the discs that the rule gives.
use vibe_othello_engine.Base.{
  ℕ, ◌+◌, ◌≡◌, refl, sym, ◌∙◌, arith, true, false, not, ◌&&◌, ◌||◌, ◌==◌, ◌<◌, Bool-cases, inl, inr,
  bit_or, none, some,
}
use vibe_othello_engine.Bits.Digit.{bit, bit-or}
use vibe_othello_engine.Bits.U64.{IsWord, bit_or-IsWord, bit_and-IsWord, single-IsWord, bit-single}
use vibe_othello_engine.Bits.Count.{popcount_union, popcount-single, popcount_pos}
use vibe_othello_engine.Bits.Scan.{popcount}
use vibe_othello_engine.Board.{Side, opponent, Board, discs, discs_of}
use vibe_othello_engine.Board.Square.{Square, IsSquare, square_bit}
use vibe_othello_engine.Rules.Rays.{is_captured}
use vibe_othello_engine.Rules.Generate.{IsDisjoint}
use vibe_othello_engine.Rules.Consistent.{legal_iff_flips}
use vibe_othello_engine.Rules.Legality.{bit-legal_moves_for}
use vibe_othello_engine.Rules.Play.{
  IsBoard, own_discs, other_discs, discs-IsWord, discs-IsDisjoint, is_some, move_flips, after_move,
  apply_move-after_move, own_after, other_after, bit-own_after, bit-other_after, flips_fit,
  bit-flips, flips_other,
}
use vibe_othello_engine.Rules.Moves.{legal_moves, with_side, apply_move, disc_count}

IsBoard-sides :
    (b : Board) (side : Side)
    → IsWord (discs b side)
    → IsWord (discs b (opponent side))
    → IsDisjoint (discs b side) (discs b (opponent side))
    → IsBoard b
unfolding discs discs_of opponent
IsBoard-sides b Side.black p q d = record { black_fits = p; white_fits = q; disjoint = d }
IsBoard-sides b Side.white p q d = record {
  black_fits = q;
  white_fits = p;
  disjoint = λ i. ground (arith, d i);
}

-- A move succeeds exactly on the squares that `legal_moves` generates.
pub apply_move-is_some :
    (b : Board) (s : Square)
    → IsBoard b
    → IsSquare s
    → is_some (apply_move b s) ≡ bit s.index (legal_moves b)
apply_move-is_some b s v h = rw (apply_move-after_move b s v h) (ground arith)

module _ (b : Board) (s : Square) (v : IsBoard b) (h : IsSquare s) where
  turned_some : bit s.index (legal_moves b) ≡ true → 0 < popcount (move_flips b s)
  unfolding legal_moves square_bit
  turned_some legal = popcount_pos _ (flips_fit b s v h) (
      ground (
        arith,
        legal_iff_flips (own_discs b) (other_discs b) (discs-IsWord b v b.side_to_move)
            (discs-IsWord b v (opponent b.side_to_move)) (discs-IsDisjoint b v b.side_to_move)
            s.index h,
      ))

  pub legal_square :
      bit s.index (legal_moves b) ≡ true
      → (bit s.index (own_discs b) ≡ false) × (bit s.index (other_discs b) ≡ false)
  unfolding legal_moves
  legal_square legal = ground (
    arith,
    bit-legal_moves_for (own_discs b) (other_discs b) (discs-IsWord b v b.side_to_move)
        (discs-IsWord b v (opponent b.side_to_move)) (discs-IsDisjoint b v b.side_to_move) s.index
        h,
  )

  after_move-IsBoard : bit s.index (legal_moves b) ≡ true → IsBoard (after_move b s)
  unfolding square_bit
  after_move-IsBoard legal =
      let (not_own, not_other) = legal_square legal in
      IsBoard-sides (after_move b s) b.side_to_move
        (rw (own_after b s v h) (
          bit_or-IsWord _ _ (discs-IsWord b v b.side_to_move)
            (bit_or-IsWord _ _ (single-IsWord s.index) (flips_fit b s v h))))
        (rw (other_after b s v h) (bit_and-IsWord _ _ (discs-IsWord b v (opponent b.side_to_move))))
        (λ j. ground (
          arith,
          bit-own_after b s v h j,
          bit-other_after b s v h j,
          discs-IsDisjoint b v b.side_to_move j,
        ))

  count_own :
      bit s.index (legal_moves b) ≡ true
      → disc_count (after_move b s) b.side_to_move
        ≡ disc_count b b.side_to_move + 1 + popcount (move_flips b s)
  unfolding disc_count square_bit
  count_own legal =
      let (not_own, not_other) = legal_square legal in
      let added = bit_or (square_bit s) (move_flips b s) in
      let bits_added = λ (j : ℕ). bit-or j (square_bit s) (move_flips b s) in
      let parts : popcount added ≡ popcount (square_bit s) + popcount (move_flips b s) =
        popcount_union (square_bit s) (move_flips b s) added bits_added
          (λ j. ground (arith, bit-single j s.index h, flips_other b s v h j)) in
      let whole : popcount (discs (after_move b s) b.side_to_move)
          ≡ popcount (own_discs b) + popcount added =
        popcount_union (own_discs b) added _
          (λ j. ground (arith, bit-own_after b s v h j, bits_added j, bit-single j s.index h))
          (λ j. ground (
            arith,
            bits_added j,
            bit-single j s.index h,
            flips_other b s v h j,
            discs-IsDisjoint b v b.side_to_move j,
          )) in
      omega (arith, parts, whole, popcount-single s.index h)

  count_other :
      disc_count (after_move b s) (opponent b.side_to_move) + popcount (move_flips b s)
      ≡ disc_count b (opponent b.side_to_move)
  unfolding disc_count
  count_other = sym (
      popcount_union (discs (after_move b s) (opponent b.side_to_move)) (move_flips b s)
        (other_discs b) (λ j. ground (arith, bit-other_after b s v h j, flips_other b s v h j))
        (λ j. ground (arith, bit-other_after b s v h j)))

  pub moved_cases :
      {n : Board}
      → apply_move b s ≡ some n
      → (bit s.index (legal_moves b) ≡ true) × (after_move b s ≡ n)
  moved_cases {n} e = elim (Bool-cases (bit s.index (legal_moves b))) [
    | inl legal ↦
        let out : some (after_move b s) ≡ some n =
          sym (apply_move-after_move b s v h ∙ rw legal) ∙ e in
        (legal, cc)
    | inr no_move ↦
        let out : none ≡ some n = sym (apply_move-after_move b s v h ∙ rw no_move) ∙ e in cc
  ]

  -- After a move on a well-formed board the board is well formed, the other side is to move, the
  -- player has gained the square and what the rule captures, and the opponent has lost exactly
  -- what the rule captures.
  pub apply_move-discs :
      {n : Board}
      → apply_move b s ≡ some n
      → IsBoard n
        × (n.side_to_move ≡ opponent b.side_to_move)
        × ((j : ℕ)
            → bit j (discs n b.side_to_move) ≡ (
                bit j (own_discs b)
                || (j == s.index || is_captured (own_discs b) (other_discs b) s.index j)))
        × ((j : ℕ)
            → bit j (discs n (opponent b.side_to_move)) ≡ (
                bit j (other_discs b) && not (is_captured (own_discs b) (other_discs b) s.index j)))
  unfolding with_side
  apply_move-discs {n} e =
      let (legal, same) = moved_cases e in
      rw (← same) (
        after_move-IsBoard legal,
        refl,
        λ j. rw (← bit-flips b s v h j) (bit-own_after b s v h j),
        λ j. rw (← bit-flips b s v h j) (bit-other_after b s v h j),
      )

  -- A move adds one disc to the board: the player gains one more than the opponent loses.
  pub disc_count-apply_move :
      {n : Board}
      → apply_move b s ≡ some n
      → (disc_count n b.side_to_move ≡ disc_count b b.side_to_move + 1 + popcount (move_flips b s))
        × (disc_count n (opponent b.side_to_move) + popcount (move_flips b s)
            ≡ disc_count b (opponent b.side_to_move))
        × (0 < popcount (move_flips b s))
  disc_count-apply_move {n} e =
      let (legal, same) = moved_cases e in
      rw (← same) (count_own legal, count_other, turned_some legal)
