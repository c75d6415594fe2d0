-- ===== src/Notation/Accepts.antt =====
-- Boards that the parser accepts are well formed.
use vibe_othello_engine.Base.{
  ℕ, zero, suc, ◌+◌, ◌*◌, ◌<◌, ◌≡◌, refl, arith, List, [], ◌∷◌, Option, none, some, true, false,
  ◌&&◌, ◌||◌, ◌==◌, bit_or, length, Bool-cases, inl, inr, ◌⊎◌,
}
use vibe_othello_engine.Bits.Digit.{bit, bit-or}
use vibe_othello_engine.Bits.Word.{bit-zero}
use vibe_othello_engine.Bits.U64.{IsWord, single, bit-single, bit_or-IsWord, single-IsWord}
use vibe_othello_engine.Board.{Board}
use vibe_othello_engine.Board.Square.{square_index}
use vibe_othello_engine.Rules.Play.{IsBoard}
use vibe_othello_engine.Notation.{
  ◌>>=◌, bit_at, take_line, parse_cell, parse_cells, parse_board_row, parse_rows, no_discs,
  parse_side, at_end, board_from_string,
}
use vibe_othello_engine.Notation.Rows.{seen}

>>=-eq-some {ℓ κ} :
    {A : Type ℓ} {B : Type κ} (m : Option A) (f : A → Option B) {b : B}
    → (m >>= f) ≡ some b
    → (a : A) × (m ≡ some a) × (f a ≡ some b)
>>=-eq-some none f h = cc
>>=-eq-some (some a) f h = (a, refl, h)

-- The discs read so far stand on squares read so far, one on each.
record IsPartial (file rank : ℕ) (q : Board) : Type 0 where
  black_fits : IsWord q.black
  white_fits : IsWord q.white
  one_disc : (i : ℕ) → (bit i q.black && bit i q.white) ≡ false
  black_seen : (i : ℕ) → bit i q.black ≡ true → seen file rank i ≡ true
  white_seen : (i : ℕ) → bit i q.white ≡ true → seen file rank i ≡ true

not_seen : (file rank : ℕ) → file < 8 → seen file rank (rank * 8 + file) ≡ false
unfolding seen
not_seen file rank h = ground arith

seen_more :
    (file rank i : ℕ)
    → file < 8
    → seen (file + 1) rank i ≡ (seen file rank i || i == rank * 8 + file)
unfolding seen
seen_more file rank i h = ground arith

parse_cell_cases :
    (c bits : ℕ) (q n : Board)
    → parse_cell c bits q ≡ some n
    → (record q { black = bit_or q.black bits } ≡ n)
      ⊎ (record q { white = bit_or q.white bits } ≡ n)
      ⊎ (q ≡ n)
unfolding parse_cell
parse_cell_cases c bits q n e = ground arith

module _ (file rank : ℕ) (q : Board) (hf : file < 8) (hr : rank < 8)
    (r : IsPartial file rank q) where
  abbrev here : ℕ
  here = rank * 8 + file

  here-lt : here < 64
  here-lt = omega arith

  with_black : IsPartial (file + 1) rank (record q { black = bit_or q.black (single here) })
  with_black = record {
    black_fits = bit_or-IsWord _ _ r.black_fits (single-IsWord here);
    white_fits = r.white_fits;
    one_disc = λ i. ground (
      arith,
      bit-or i q.black (single here),
      bit-single i here here-lt,
      r.one_disc i,
      r.white_seen i,
      not_seen file rank hf,
    );
    black_seen = λ i h. ground (
      arith,
      bit-or i q.black (single here),
      bit-single i here here-lt,
      r.black_seen i,
      seen_more file rank i hf,
    );
    white_seen = λ i h. ground (arith, r.white_seen i h, seen_more file rank i hf);
  }

  with_white : IsPartial (file + 1) rank (record q { white = bit_or q.white (single here) })
  with_white = record {
    black_fits = r.black_fits;
    white_fits = bit_or-IsWord _ _ r.white_fits (single-IsWord here);
    one_disc = λ i. ground (
      arith,
      bit-or i q.white (single here),
      bit-single i here here-lt,
      r.one_disc i,
      r.black_seen i,
      not_seen file rank hf,
    );
    black_seen = λ i h. ground (arith, r.black_seen i h, seen_more file rank i hf);
    white_seen = λ i h. ground (
      arith,
      bit-or i q.white (single here),
      bit-single i here here-lt,
      r.white_seen i,
      seen_more file rank i hf,
    );
  }

  with_none : IsPartial (file + 1) rank q
  with_none = record {
    black_fits = r.black_fits;
    white_fits = r.white_fits;
    one_disc = r.one_disc;
    black_seen = λ i h. ground (arith, r.black_seen i h, seen_more file rank i hf);
    white_seen = λ i h. ground (arith, r.white_seen i h, seen_more file rank i hf);
  }

parse_cell-IsPartial :
    (c file rank : ℕ) (q n : Board)
    → file < 8
    → rank < 8
    → IsPartial file rank q
    → parse_cell c (bit_at file rank) q ≡ some n
    → IsPartial (file + 1) rank n
unfolding bit_at square_index
parse_cell-IsPartial c file rank q n hf hr r e =
    elim (parse_cell_cases c (single (rank * 8 + file)) q n e) [
      | inl is_black ↦ rw (← is_black) (with_black file rank q hf hr r)
      | inr (inl is_white) ↦ rw (← is_white) (with_white file rank q hf hr r)
      | inr (inr is_empty) ↦ rw (← is_empty) (with_none file rank q hf hr r)
    ]

parse_cells-IsPartial :
    (file rank : ℕ) (row : List ℕ) (q n : Board)
    → length row + file ≡ 8
    → rank < 8
    → IsPartial file rank q
    → parse_cells file rank row q ≡ some n
    → IsPartial 8 rank n
unfolding parse_cells
parse_cells-IsPartial file rank [] q n e hr r p =
    let same : q ≡ n = cc in let done : file ≡ 8 = omega arith in rw (← same, ← done) r
parse_cells-IsPartial file rank (c ∷ row) q n e hr r p =
    let (m, cell, rest) =
      >>=-eq-some (parse_cell c (bit_at file rank) q) (parse_cells (file + 1) rank row) p in
    parse_cells-IsPartial (file + 1) rank row m n (omega arith) hr
      (parse_cell-IsPartial c file rank q m (omega arith) hr r cell) rest

parse_board_row-IsPartial :
    (row : List ℕ) (rank : ℕ) (q n : Board)
    → rank < 8
    → IsPartial 0 rank q
    → parse_board_row row rank q ≡ some n
    → IsPartial 8 rank n
unfolding parse_board_row
parse_board_row-IsPartial row rank q n hr r p = elim (Bool-cases (length row == 8)) [
  | inl full ↦ parse_cells-IsPartial 0 rank row q n (ground arith) hr r (rw full at p)
  | inr short ↦ let none_read : none ≡ some n = rw short at p in cc
]

next_IsPartial : (rank : ℕ) (q : Board) → IsPartial 8 (suc rank) q → IsPartial 0 rank q
unfolding seen
next_IsPartial rank q r = record {
  black_fits = r.black_fits;
  white_fits = r.white_fits;
  one_disc = r.one_disc;
  black_seen = λ i h. ground (arith, r.black_seen i h);
  white_seen = λ i h. ground (arith, r.white_seen i h);
}

parse_rows-IsPartial :
    (rank : ℕ) (text rest : List ℕ) (q n : Board)
    → rank < 8
    → IsPartial 0 rank q
    → parse_rows (suc rank) text q ≡ some (n, rest)
    → IsPartial 8 0 n
unfolding parse_rows
parse_rows-IsPartial zero text rest q n hr r p =
    let ((row, left), line, after) = >>=-eq-some (take_line text) _ p in
    let (m, parsed, done) = >>=-eq-some (parse_board_row row 0 q) _ after in
    let same : m ≡ n = cc in rw (← same) (parse_board_row-IsPartial row 0 q m hr r parsed)
parse_rows-IsPartial (suc rank) text rest q n hr r p =
    let ((row, left), line, after) = >>=-eq-some (take_line text) _ p in
    let (m, parsed, more) = >>=-eq-some (parse_board_row row (suc rank) q) _ after in
    parse_rows-IsPartial rank left rest m n (omega arith)
      (next_IsPartial rank m (parse_board_row-IsPartial row (suc rank) q m hr r parsed)) more

no_discs-IsPartial : IsPartial 0 7 no_discs
no_discs-IsPartial = record {
  black_fits = omega arith;
  white_fits = omega arith;
  one_disc = λ i. ground (arith, bit-zero i);
  black_seen = λ i h. cc (bit-zero i);
  white_seen = λ i h. cc (bit-zero i);
}

at_end-eq-some : (left : List ℕ) (q b : Board) → at_end left q ≡ some b → q ≡ b
at_end-eq-some [] q b h = cc
at_end-eq-some (c ∷ left) q b h = cc

-- Whatever text the parser accepts, the board that it returns is well formed: no square holds two
-- discs, and both sets of discs fit the word.
pub board_from_string-IsBoard :
    (text : List ℕ) (b : Board) → board_from_string text ≡ some b → IsBoard b
unfolding board_from_string
board_from_string-IsBoard text b p =
    let ((q, rest), rows, after) = >>=-eq-some (parse_rows 8 text no_discs) _ p in
    let ((line, left), taken, more) = >>=-eq-some (take_line rest) _ after in
    let (side, parsed, last) = >>=-eq-some (parse_side line) _ more in
    let same = at_end-eq-some left (record q { side_to_move = side }) b last in
    let r = parse_rows-IsPartial 7 text rest no_discs q (omega arith) no_discs-IsPartial rows in
    rw (← same)
      (record { black_fits = r.black_fits; white_fits = r.white_fits; disjoint = r.one_disc })
