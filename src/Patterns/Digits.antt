-- ===== src/Patterns/Digits.antt =====
-- The index of a pattern against its squares: the digits, the bound, and the reads of the tables.
use native.Mathlib.Nat.{pow-suc}
use vibe_othello_engine.Base.{
  ℕ, zero, suc, ◌+◌, ◌*◌, ◌/◌, ◌%◌, ◌^◌, ◌<◌, ◌≡◌, refl, ◌∙◌, arith, Bool, true, ◌&&◌, ◌==◌, List,
  [], ◌∷◌, map, length,
}
use vibe_othello_engine.Patterns.Squares.{
  corner_2x3_squares, corner_3x3_squares, edge_8_squares, edge_x_10_squares, row_8_squares,
  column_8_squares, diagonal_4_squares, diagonal_5_squares, diagonal_6_squares, diagonal_7_squares,
  diagonal_8_squares, inner_row_8_squares, corner_2x4_squares,
}
use vibe_othello_engine.Patterns.Tables.{
  corner_2x3_pattern_table_size, corner_3x3_pattern_table_size, edge_8_pattern_table_size,
  edge_x_10_pattern_table_size, row_8_pattern_table_size, column_8_pattern_table_size,
  diagonal_4_pattern_table_size, diagonal_5_pattern_table_size, diagonal_6_pattern_table_size,
  diagonal_7_pattern_table_size, diagonal_8_pattern_table_size, inner_row_8_pattern_table_size,
  corner_2x4_pattern_table_size,
}
use vibe_othello_engine.Patterns.Index.{
  PatternIndexContext, square_state, index_loop, pattern_index_for_squares,
}

-- The number whose digits in base three, lowest first, are the states of the squares.
abbrev pub value_of : PatternIndexContext → List ℕ → ℕ
value_of context [] = 0
value_of context (s ∷ squares) = square_state context s + 3 * value_of context squares

index_loop-value_of :
    (context : PatternIndexContext) (squares : List ℕ) (index place_value : ℕ)
    → index_loop context squares index place_value ≡ index + value_of context squares * place_value
unfolding index_loop
index_loop-value_of context [] index p = omega arith
index_loop-value_of context (s ∷ squares) index p =
    index_loop-value_of context squares _ _ ∙ grind arith

pub square_state-lt : (context : PatternIndexContext) (s : ℕ) → square_state context s < 3
unfolding square_state
square_state-lt context s = ground arith

pub pattern_index-value_of :
    (context : PatternIndexContext) (squares : List ℕ)
    → pattern_index_for_squares context squares ≡ value_of context squares
unfolding pattern_index_for_squares
pattern_index-value_of context squares = omega (arith, index_loop-value_of context squares 0 1)

pub value_of-lt :
    (context : PatternIndexContext) (squares : List ℕ)
    → value_of context squares < 3 ^ length squares
value_of-lt context [] = omega arith
value_of-lt context (s ∷ squares) =
    omega
      (arith, pow-suc 3 (length squares), value_of-lt context squares, square_state-lt context s)

-- The digits of a number in base three, lowest first.
abbrev pub digits : ℕ → ℕ → List ℕ
digits zero index = []
digits (suc n) index = index % 3 ∷ digits n (index / 3)

pub low_digit : (d v : ℕ) → d < 3 → (d + 3 * v) % 3 ≡ d
low_digit d v h = omega arith

pub high_digits : (d v : ℕ) → d < 3 → (d + 3 * v) / 3 ≡ v
high_digits d v h = omega arith

digits-value_of :
    (context : PatternIndexContext) (squares : List ℕ)
    → digits (length squares) (value_of context squares) ≡ map (square_state context) squares
digits-value_of context [] = refl
digits-value_of context (s ∷ squares) =
    let v = value_of context squares in
    rw
      (
        low_digit (square_state context s) v (square_state-lt context s),
        high_digits (square_state context s) v (square_state-lt context s),
        digits-value_of context squares,
      )
      refl

-- The index of a pattern of n squares is below 3 ^ n, and its digits are the states of the squares.
pub pattern_index_for_squares-digits :
    (context : PatternIndexContext) (squares : List ℕ)
    → (pattern_index_for_squares context squares < 3 ^ length squares)
      × (digits (length squares) (pattern_index_for_squares context squares)
          ≡ map (square_state context) squares)
pattern_index_for_squares-digits context squares =
    rw (pattern_index-value_of context squares)
      (value_of-lt context squares, digits-value_of context squares)

-- Every index of the patterns is in a table of the size.
abbrev pub Reads : PatternIndexContext → ℕ → List (List ℕ) → Type 0
Reads context size [] = Unit {0}
Reads context size (squares ∷ patterns) =
    (pattern_index_for_squares context squares < size) × Reads context size patterns

abbrev all_length : ℕ → List (List ℕ) → Bool
all_length n [] = true
all_length n (squares ∷ patterns) = length squares == n && all_length n patterns

reads :
    (context : PatternIndexContext) (n : ℕ) (patterns : List (List ℕ))
    → all_length n patterns ≡ true
    → Reads context (3 ^ n) patterns
reads context n [] h = tt
reads context n (squares ∷ patterns) h =
    let e : length squares ≡ n = ground (arith, h) in
    (
      rw (← e) ((pattern_index_for_squares-digits context squares).0),
      reads context n patterns (ground (arith, h)),
    )

-- For all bitboards, no read of `evaluation_pattern_table_value` is out of the bounds of its table.
pub pattern_tables-Reads :
    (context : PatternIndexContext)
    → Reads context corner_2x3_pattern_table_size corner_2x3_squares
      × Reads context corner_3x3_pattern_table_size corner_3x3_squares
      × Reads context edge_8_pattern_table_size edge_8_squares
      × Reads context edge_x_10_pattern_table_size edge_x_10_squares
      × Reads context row_8_pattern_table_size row_8_squares
      × Reads context column_8_pattern_table_size column_8_squares
      × Reads context diagonal_4_pattern_table_size diagonal_4_squares
      × Reads context diagonal_5_pattern_table_size diagonal_5_squares
      × Reads context diagonal_6_pattern_table_size diagonal_6_squares
      × Reads context diagonal_7_pattern_table_size diagonal_7_squares
      × Reads context diagonal_8_pattern_table_size diagonal_8_squares
      × Reads context inner_row_8_pattern_table_size inner_row_8_squares
      × Reads context corner_2x4_pattern_table_size corner_2x4_squares
pattern_tables-Reads context = (
  reads context 6 corner_2x3_squares refl,
  reads context 9 corner_3x3_squares refl,
  reads context 8 edge_8_squares refl,
  reads context 10 edge_x_10_squares refl,
  reads context 8 row_8_squares refl,
  reads context 8 column_8_squares refl,
  reads context 4 diagonal_4_squares refl,
  reads context 5 diagonal_5_squares refl,
  reads context 6 diagonal_6_squares refl,
  reads context 7 diagonal_7_squares refl,
  reads context 8 diagonal_8_squares refl,
  reads context 8 inner_row_8_squares refl,
  reads context 8 corner_2x4_squares refl,
)
