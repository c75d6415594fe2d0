-- ===== src/Notation/Rows.antt =====
-- Reading back one printed row, and printed rows.
use vibe_othello_engine.Base.{
  ℕ, zero, suc, ◌+◌, ◌*◌, ◌/◌, ◌%◌, ◌<◌, ◌≡◌, refl, ap, ◌∙◌, arith, List, ◌∷◌, ◌++◌, some, Bool,
  false, ◌&&◌, ◌||◌, ◌==◌, ltb, bit_or, length, Bool-cases, inl, inr,
}
use mathlib.Core.List.{append_assoc}
use vibe_othello_engine.Bits.Digit.{bit, bit-or}
use vibe_othello_engine.Bits.U64.{
  IsWord, single, bit-single, test_single, bit_or-IsWord, single-IsWord,
}
use vibe_othello_engine.Board.{Board}
use vibe_othello_engine.Board.Square.{square_index}
use vibe_othello_engine.Rules.Play.{IsBoard}
use vibe_othello_engine.Notation.{
  newline, bit_at, split_line, take_line, parse_cell, parse_cells, parse_board_row, parse_rows,
  cell_text, cells_text, rows_text,
}

-- The squares read before a file of a rank, top rank first.
unfoldable pub seen : ℕ → ℕ → ℕ → Bool
seen file rank i = ltb rank (i / 8) || (i / 8 == rank && ltb (i % 8) file)

-- What has been read agrees with the board that was printed.
pub record IsRead (b : Board) (file rank : ℕ) (q : Board) : Type 0 where
  pub black_fits : IsWord q.black
  pub white_fits : IsWord q.white
  pub black_read : (i : ℕ) → i < 64 → bit i q.black ≡ (bit i b.black && seen file rank i)
  pub white_read : (i : ℕ) → i < 64 → bit i q.white ≡ (bit i b.white && seen file rank i)

seen_next :
    (file rank i : ℕ)
    → file < 8
    → seen (file + 1) rank i ≡ (seen file rank i || i == rank * 8 + file)
unfolding seen
seen_next file rank i h = ground arith

module _ (b : Board) (v : IsBoard b) where
  parse_cell-cell_text :
      (file rank : ℕ) (q : Board)
      → file < 8
      → rank < 8
      → IsRead b file rank q
      → (n : Board) × (parse_cell (cell_text b (bit_at file rank)) (bit_at file rank) q ≡ some n)
        × IsRead b (file + 1) rank n
  unfolding parse_cell cell_text bit_at square_index
  parse_cell-cell_text file rank q hf hr r =
      let s = rank * 8 + file in
      let hs : s < 64 = omega arith in
      let tb = test_single b.black s v.black_fits hs in
      let tw = test_single b.white s v.white_fits hs in
      elim (Bool-cases (bit s b.black)) [
        | inl is_black ↦ (
          record q { black = bit_or q.black (single s) },
          ground arith,
          record {
            black_fits = bit_or-IsWord _ _ r.black_fits (single-IsWord s);
            white_fits = r.white_fits;
            black_read = λ i h.
                bit-or i q.black (single s)
                ∙ ground (arith, r.black_read i h, bit-single i s hs, seen_next file rank i hf);
            white_read =
                λ i h. ground (arith, r.white_read i h, seen_next file rank i hf, v.disjoint i);
          },
        )
        | inr not_black ↦ elim (Bool-cases (bit s b.white)) [
          | inl is_white ↦ (
            record q { white = bit_or q.white (single s) },
            ground arith,
            record {
              black_fits = r.black_fits;
              white_fits = bit_or-IsWord _ _ r.white_fits (single-IsWord s);
              black_read = λ i h. ground (arith, r.black_read i h, seen_next file rank i hf);
              white_read = λ i h.
                  bit-or i q.white (single s)
                  ∙ ground (arith, r.white_read i h, bit-single i s hs, seen_next file rank i hf);
            },
          )
          | inr not_white ↦ (
            q,
            ground arith,
            record {
              black_fits = r.black_fits;
              white_fits = r.white_fits;
              black_read = λ i h. ground (arith, r.black_read i h, seen_next file rank i hf);
              white_read = λ i h. ground (arith, r.white_read i h, seen_next file rank i hf);
            },
          )
        ]
      ]

  parse_cells-cells_text :
      (left file rank : ℕ) (q : Board)
      → left + file ≡ 8
      → rank < 8
      → IsRead b file rank q
      → (n : Board) × (parse_cells file rank (cells_text left file rank b) q ≡ some n)
        × IsRead b 8 rank n
  unfolding parse_cells cells_text
  parse_cells-cells_text zero file rank q e hr r =
      (q, refl, let done : file ≡ 8 = omega arith in rw (← done) r)
  parse_cells-cells_text (suc left) file rank q e hr r =
      let (m, cell, rm) = parse_cell-cell_text file rank q (omega arith) hr r in
      let (n, cells, rn) = parse_cells-cells_text left (file + 1) rank m (omega arith) hr rm in
      (n, rw cell cells, rn)

  length-cells_text : (left file rank : ℕ) → length (cells_text left file rank b) ≡ left
  unfolding cells_text
  length-cells_text zero file rank = refl
  length-cells_text (suc left) file rank = ap suc (length-cells_text left (file + 1) rank)

  cell_text-ne-newline : (bits : ℕ) → (cell_text b bits == newline) ≡ false
  unfolding cell_text
  cell_text-ne-newline bits = ground arith

  split_line-cells_text :
      (left file rank : ℕ) (rest : List ℕ)
      → split_line (cells_text left file rank b ++ newline ∷ rest)
        ≡ (cells_text left file rank b, rest)
  unfolding cells_text split_line
  split_line-cells_text zero file rank rest = refl
  split_line-cells_text (suc left) file rank rest =
      rw (cell_text-ne-newline (bit_at file rank), split_line-cells_text left (file + 1) rank rest)

  take_line-cells_text :
      (rank : ℕ) (rest : List ℕ)
      → take_line (cells_text 8 0 rank b ++ newline ∷ rest) ≡ some (cells_text 8 0 rank b, rest)
  unfolding take_line cells_text
  take_line-cells_text rank rest =
      ap some (unfold cells_text in split_line-cells_text 8 0 rank rest)

  parse_board_row-cells_text :
      (rank : ℕ) (q : Board)
      → rank < 8
      → IsRead b 0 rank q
      → (n : Board) × (parse_board_row (cells_text 8 0 rank b) rank q ≡ some n) × IsRead b 8 rank n
  unfolding parse_board_row
  parse_board_row-cells_text rank q hr r =
      let (n, cells, rn) = parse_cells-cells_text 8 0 rank q refl hr r in
      (n, rw (length-cells_text 8 0 rank) cells, rn)

  next_rank : (rank : ℕ) (q : Board) → IsRead b 8 (suc rank) q → IsRead b 0 rank q
  unfolding seen
  next_rank rank q r = record {
    black_fits = r.black_fits;
    white_fits = r.white_fits;
    black_read = λ i h. ground (arith, r.black_read i h);
    white_read = λ i h. ground (arith, r.white_read i h);
  }

  pub parse_rows-rows_text :
      (rank : ℕ) (rest : List ℕ) (q : Board)
      → rank < 8
      → IsRead b 0 rank q
      → (n : Board) × (parse_rows (suc rank) (rows_text (suc rank) b ++ rest) q ≡ some (n, rest))
        × IsRead b 8 0 n
  unfolding parse_rows rows_text
  parse_rows-rows_text zero rest q hr r =
      let (n, row, rn) = parse_board_row-cells_text 0 q hr r in
      (n, rw (append_assoc, take_line-cells_text 0 rest, row), rn)
  parse_rows-rows_text (suc rank) rest q hr r =
      let (m, row, rm) = parse_board_row-cells_text (suc rank) q hr r in
      let (n, rows, rn) = parse_rows-rows_text rank rest m (omega arith) (next_rank rank m rm) in
      (n, rw (append_assoc, take_line-cells_text (suc rank) _, row) rows, rn)
