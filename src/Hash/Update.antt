-- ===== src/Hash/Update.antt =====
-- The updated hash is the hash of the updated board.
use vibe_othello_engine.Base.{
  ℕ, ◌≡◌, fun_ext, ap, sym, ◌∙◌, arith, true, bit_xor, bit_or, xor, some,
}
use vibe_othello_engine.Bits.Digit.{bit, bit-or, bit-xor}
use vibe_othello_engine.Bits.U64.{IsWord, single, bit-single}
use vibe_othello_engine.Bits.Scan.{each_bit}
use vibe_othello_engine.Board.{Side, opponent, Board, discs, discs_of}
use vibe_othello_engine.Board.Square.{Square, IsSquare, square_bit}
use vibe_othello_engine.Rules.Play.{
  IsBoard, own_discs, other_discs, move_flips, after_move, flips_fit, flips_other, bit-own_after,
  bit-other_after, discs-IsDisjoint,
}
use vibe_othello_engine.Rules.Moved.{apply_move-discs, moved_cases, legal_square}
use vibe_othello_engine.Rules.Moves.{apply_move, with_side, pass_turn, legal_moves}
use vibe_othello_engine.Hash.{
  zobrist_hash, piece_hash, zobrist_piece_hash, zobrist_side_hash, hash_after_move, hash_after_pass,
}
use vibe_othello_engine.Hash.Xor.{xor_comm, xor_assoc, xor_zero, bits_ext}
use vibe_othello_engine.Hash.Sum.{
  xor_over, xor_over_union, xor_over_one, xor_over_both, each_bit-xor_over,
}

abbrev over : Side → ℕ → ℕ
over side bits = xor_over (zobrist_piece_hash side) bits

piece_hash-over : (bits : ℕ) (side : Side) → IsWord bits → piece_hash bits side ≡ over side bits
unfolding piece_hash
piece_hash-over bits side w =
    each_bit-xor_over (zobrist_piece_hash side) bits 0 w ∙ xor_comm 0 _ ∙ xor_zero _

-- The hash of a board seen from one side.
hash_by_side :
    (b : Board) (side : Side)
    → IsBoard b
    → zobrist_hash b
      ≡ bit_xor
          (bit_xor (over side (discs b side)) (over (opponent side) (discs b (opponent side))))
          (zobrist_side_hash b.side_to_move)
unfolding zobrist_hash discs discs_of opponent
hash_by_side b Side.black v = rw (
  piece_hash-over b.black Side.black v.black_fits,
  piece_hash-over b.white Side.white v.white_fits,
)
hash_by_side b Side.white v =
    rw
      (
        piece_hash-over b.black Side.black v.black_fits,
        piece_hash-over b.white Side.white v.white_fits,
      )
      (ap (λ x. bit_xor x (zobrist_side_hash b.side_to_move)) (xor_comm _ _))

hash_after_move-over :
    (hash square flips : ℕ) (side : Side)
    → IsWord flips
    → hash_after_move hash side square flips
      ≡ bit_xor
          (bit_xor
            (bit_xor (bit_xor hash (zobrist_side_hash side)) (zobrist_side_hash (opponent side)))
            (zobrist_piece_hash side square))
          (bit_xor (over (opponent side) flips) (over side flips))
unfolding hash_after_move
hash_after_move-over hash square flips side w =
    let mine = zobrist_piece_hash side in
    let theirs = zobrist_piece_hash (opponent side) in
    let placed =
      bit_xor (bit_xor (bit_xor hash (zobrist_side_hash side)) (zobrist_side_hash (opponent side)))
        (mine square) in
    ap (λ (body : ℕ → ℕ → ℕ). each_bit 64 body flips placed)
      (fun_ext (λ j. fun_ext (λ h. xor_assoc h (theirs j) (mine j))))
    ∙ each_bit-xor_over (λ j. bit_xor (theirs j) (mine j)) flips placed w
    ∙ ap (bit_xor placed) (xor_over_both theirs mine flips)

-- Both ways of writing the new hash, as one sum of the same terms.
regroup :
    (own square own_flips other other_flips to_move next : ℕ)
    → bit_xor (bit_xor (bit_xor own (bit_xor square own_flips)) other) next
      ≡ bit_xor
          (bit_xor
            (bit_xor
              (bit_xor (bit_xor (bit_xor own (bit_xor other other_flips)) to_move) to_move)
              next)
            square)
          (bit_xor other_flips own_flips)
unfolding xor
regroup own square own_flips other other_flips to_move next =
    bits_ext _ _ (λ i. simp bit-xor (ground arith))

module _ (b : Board) (s : Square) (v : IsBoard b) (h : IsSquare s) where
  after_hash :
      bit s.index (legal_moves b) ≡ true
      → IsBoard (after_move b s)
      → zobrist_hash (after_move b s)
        ≡ hash_after_move (zobrist_hash b) b.side_to_move s.index (move_flips b s)
  unfolding with_side square_bit
  after_hash legal w =
      let side = b.side_to_move in
      let next = after_move b s in
      let flips = move_flips b s in
      let added = bit_or (single s.index) flips in
      let bits_added = λ (j : ℕ). bit-or j (single s.index) flips in
      let (not_own, not_other) = legal_square b s v h legal in
      let square_hash : over side (single s.index) ≡ zobrist_piece_hash side s.index =
        xor_over_one (zobrist_piece_hash side) s.index _ h (λ j. bit-single j s.index h) in
      let added_hash : over side added ≡ bit_xor (over side (single s.index)) (over side flips) =
        xor_over_union (zobrist_piece_hash side) (single s.index) flips added bits_added
          (λ j. ground (arith, bit-single j s.index h, flips_other b s v h j)) in
      let own_hash : over side (discs next side)
          ≡ bit_xor (over side (own_discs b)) (over side added) =
        xor_over_union (zobrist_piece_hash side) (own_discs b) added (discs next side)
          (λ j. ground (arith, bit-own_after b s v h j, bits_added j, bit-single j s.index h))
          (λ j. ground (
            arith,
            bits_added j,
            bit-single j s.index h,
            flips_other b s v h j,
            discs-IsDisjoint b v side j,
          )) in
      let other_hash : over (opponent side) (other_discs b)
          ≡ bit_xor (over (opponent side) (discs next (opponent side)))
              (over (opponent side) flips) =
        xor_over_union (zobrist_piece_hash (opponent side)) (discs next (opponent side)) flips
          (other_discs b) (λ j. ground (arith, bit-other_after b s v h j, flips_other b s v h j))
          (λ j. ground (arith, bit-other_after b s v h j)) in
      let before : zobrist_hash b
          ≡ bit_xor
              (bit_xor (over side (own_discs b)) (
                bit_xor (over (opponent side) (discs next (opponent side)))
                  (over (opponent side) flips)))
              (zobrist_side_hash side) =
        hash_by_side b side v
        ∙ ap (λ x. bit_xor (bit_xor (over side (own_discs b)) x) (zobrist_side_hash side))
            other_hash in
      rw
        (
          hash_by_side next side w,
          own_hash,
          added_hash,
          square_hash,
          hash_after_move-over (zobrist_hash b) s.index flips side (flips_fit b s v h),
          before,
        )
        (regroup (over side (own_discs b)) (zobrist_piece_hash side s.index) (over side flips)
          (over (opponent side) (discs next (opponent side))) (over (opponent side) flips)
          (zobrist_side_hash side) (zobrist_side_hash (opponent side)))

  -- The hash that a move updates is the hash of the board after it.
  pub zobrist_hash-apply_move :
      {n : Board}
      → apply_move b s ≡ some n
      → zobrist_hash n ≡ hash_after_move (zobrist_hash b) b.side_to_move s.index (move_flips b s)
  zobrist_hash-apply_move {n} e =
      let (legal, same) = moved_cases b s v h e in
      let w = (apply_move-discs b s v h e).0 in
      ap zobrist_hash (sym same) ∙ after_hash legal (rw same w)

cancel_side : (x a c : ℕ) → bit_xor x c ≡ bit_xor (bit_xor (bit_xor x a) a) c
unfolding xor
cancel_side x a c = bits_ext _ _ (λ i. simp bit-xor (ground arith))

-- The hash that a pass updates is the hash of the board after it.
pub zobrist_hash-pass_turn :
    (b n : Board)
    → pass_turn b ≡ some n
    → zobrist_hash n ≡ hash_after_pass (zobrist_hash b) b.side_to_move
unfolding pass_turn with_side zobrist_hash hash_after_pass
zobrist_hash-pass_turn b n e =
    let same : record b { side_to_move = opponent b.side_to_move } ≡ n = ground arith in
    rw (← same) (
      cancel_side _ (zobrist_side_hash b.side_to_move)
        (zobrist_side_hash (opponent b.side_to_move)))
