-- ===== src/Patterns/Diagonals.antt =====
-- src/evaluation_patterns.cpp: the patterns along diagonals, square by square.
use vibe_othello_engine.Base.{ℕ, List, [], ◌∷◌, get_or}
use vibe_othello_engine.Base.Int.{ℤ, pos, negsuc}

pub record IndexedPatternSpec : Type 0 where
  pub instance_of : ℕ
  pub square_indexes : List ℕ

-- An instance out of range selects the first pattern.
unfoldable pub indexed_pattern_spec :
    List IndexedPatternSpec → IndexedPatternSpec → ℤ → IndexedPatternSpec
indexed_pattern_spec specs first (pos instance_index) = get_or specs instance_index first
indexed_pattern_spec specs first (negsuc n) = first

abbrev pub first_diagonal_4 : IndexedPatternSpec
first_diagonal_4 = record { instance_of = 0; square_indexes = 4 ∷ 13 ∷ 22 ∷ 31 ∷ [] }

abbrev pub diagonal_4_pattern_specs : List IndexedPatternSpec
diagonal_4_pattern_specs =
    first_diagonal_4
    ∷ record { instance_of = 1; square_indexes = 32 ∷ 41 ∷ 50 ∷ 59 ∷ [] }
    ∷ record { instance_of = 2; square_indexes = 3 ∷ 10 ∷ 17 ∷ 24 ∷ [] }
    ∷ record { instance_of = 3; square_indexes = 39 ∷ 46 ∷ 53 ∷ 60 ∷ [] }
    ∷ []

abbrev pub first_diagonal_5 : IndexedPatternSpec
first_diagonal_5 = record { instance_of = 0; square_indexes = 3 ∷ 12 ∷ 21 ∷ 30 ∷ 39 ∷ [] }

abbrev pub diagonal_5_pattern_specs : List IndexedPatternSpec
diagonal_5_pattern_specs =
    first_diagonal_5
    ∷ record { instance_of = 1; square_indexes = 24 ∷ 33 ∷ 42 ∷ 51 ∷ 60 ∷ [] }
    ∷ record { instance_of = 2; square_indexes = 4 ∷ 11 ∷ 18 ∷ 25 ∷ 32 ∷ [] }
    ∷ record { instance_of = 3; square_indexes = 31 ∷ 38 ∷ 45 ∷ 52 ∷ 59 ∷ [] }
    ∷ []

abbrev pub first_diagonal_6 : IndexedPatternSpec
first_diagonal_6 = record { instance_of = 0; square_indexes = 2 ∷ 11 ∷ 20 ∷ 29 ∷ 38 ∷ 47 ∷ [] }

abbrev pub diagonal_6_pattern_specs : List IndexedPatternSpec
diagonal_6_pattern_specs =
    first_diagonal_6
    ∷ record { instance_of = 1; square_indexes = 16 ∷ 25 ∷ 34 ∷ 43 ∷ 52 ∷ 61 ∷ [] }
    ∷ record { instance_of = 2; square_indexes = 5 ∷ 12 ∷ 19 ∷ 26 ∷ 33 ∷ 40 ∷ [] }
    ∷ record { instance_of = 3; square_indexes = 23 ∷ 30 ∷ 37 ∷ 44 ∷ 51 ∷ 58 ∷ [] }
    ∷ []

abbrev pub first_diagonal_7 : IndexedPatternSpec
first_diagonal_7 = record { instance_of = 0; square_indexes = 1 ∷ 10 ∷ 19 ∷ 28 ∷ 37 ∷ 46 ∷ 55 ∷ [] }

abbrev pub diagonal_7_pattern_specs : List IndexedPatternSpec
diagonal_7_pattern_specs =
    first_diagonal_7
    ∷ record { instance_of = 1; square_indexes = 8 ∷ 17 ∷ 26 ∷ 35 ∷ 44 ∷ 53 ∷ 62 ∷ [] }
    ∷ record { instance_of = 2; square_indexes = 6 ∷ 13 ∷ 20 ∷ 27 ∷ 34 ∷ 41 ∷ 48 ∷ [] }
    ∷ record { instance_of = 3; square_indexes = 15 ∷ 22 ∷ 29 ∷ 36 ∷ 43 ∷ 50 ∷ 57 ∷ [] }
    ∷ []

pub data Diagonal8PatternDiagonal : Type 0 where
  a1h8 h1a8 : Diagonal8PatternDiagonal

pub record Diagonal8PatternSpec : Type 0 where
  pub diagonal : Diagonal8PatternDiagonal
  pub square_indexes : List ℕ

abbrev pub first_diagonal_8 : Diagonal8PatternSpec
first_diagonal_8 = record {
  diagonal = Diagonal8PatternDiagonal.a1h8;
  square_indexes = 0 ∷ 9 ∷ 18 ∷ 27 ∷ 36 ∷ 45 ∷ 54 ∷ 63 ∷ [];
}

abbrev pub diagonal_8_pattern_specs : List Diagonal8PatternSpec
diagonal_8_pattern_specs =
    first_diagonal_8
    ∷ record {
      diagonal = Diagonal8PatternDiagonal.h1a8;
      square_indexes = 7 ∷ 14 ∷ 21 ∷ 28 ∷ 35 ∷ 42 ∷ 49 ∷ 56 ∷ [];
    }
    ∷ []

unfoldable pub diagonal_8_pattern_spec : Diagonal8PatternDiagonal → Diagonal8PatternSpec
diagonal_8_pattern_spec Diagonal8PatternDiagonal.a1h8 =
    get_or diagonal_8_pattern_specs 0 first_diagonal_8
diagonal_8_pattern_spec Diagonal8PatternDiagonal.h1a8 =
    get_or diagonal_8_pattern_specs 1 first_diagonal_8
