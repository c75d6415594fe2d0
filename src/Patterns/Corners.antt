-- ===== src/Patterns/Corners.antt =====
-- src/evaluation_patterns.cpp: the patterns at the corners, square by square.
use vibe_othello_engine.Base.{ℕ, List, [], ◌∷◌, get_or}

pub data Corner2x3PatternCorner : Type 0 where
  a1 h1 a8 h8 : Corner2x3PatternCorner

pub record Corner2x3PatternSpec : Type 0 where
  pub corner : Corner2x3PatternCorner
  pub square_indexes : List ℕ

abbrev pub first_corner_2x3 : Corner2x3PatternSpec
first_corner_2x3 = record {
  corner = Corner2x3PatternCorner.a1;
  square_indexes = 0 ∷ 1 ∷ 2 ∷ 8 ∷ 9 ∷ 10 ∷ [];
}

abbrev pub corner_2x3_pattern_specs : List Corner2x3PatternSpec
corner_2x3_pattern_specs =
    first_corner_2x3
    ∷ record { corner = Corner2x3PatternCorner.h1; square_indexes = 7 ∷ 6 ∷ 5 ∷ 15 ∷ 14 ∷ 13 ∷ [] }
    ∷ record {
      corner = Corner2x3PatternCorner.a8;
      square_indexes = 56 ∷ 57 ∷ 58 ∷ 48 ∷ 49 ∷ 50 ∷ [];
    }
    ∷ record {
      corner = Corner2x3PatternCorner.h8;
      square_indexes = 63 ∷ 62 ∷ 61 ∷ 55 ∷ 54 ∷ 53 ∷ [];
    }
    ∷ []

unfoldable pub corner_2x3_pattern_spec : Corner2x3PatternCorner → Corner2x3PatternSpec
corner_2x3_pattern_spec Corner2x3PatternCorner.a1 =
    get_or corner_2x3_pattern_specs 0 first_corner_2x3
corner_2x3_pattern_spec Corner2x3PatternCorner.h1 =
    get_or corner_2x3_pattern_specs 1 first_corner_2x3
corner_2x3_pattern_spec Corner2x3PatternCorner.a8 =
    get_or corner_2x3_pattern_specs 2 first_corner_2x3
corner_2x3_pattern_spec Corner2x3PatternCorner.h8 =
    get_or corner_2x3_pattern_specs 3 first_corner_2x3

pub data Corner3x3PatternCorner : Type 0 where
  a1 h1 a8 h8 : Corner3x3PatternCorner

pub record Corner3x3PatternSpec : Type 0 where
  pub corner : Corner3x3PatternCorner
  pub square_indexes : List ℕ

abbrev pub first_corner_3x3 : Corner3x3PatternSpec
first_corner_3x3 = record {
  corner = Corner3x3PatternCorner.a1;
  square_indexes = 0 ∷ 1 ∷ 2 ∷ 8 ∷ 9 ∷ 10 ∷ 16 ∷ 17 ∷ 18 ∷ [];
}

abbrev pub corner_3x3_pattern_specs : List Corner3x3PatternSpec
corner_3x3_pattern_specs =
    first_corner_3x3
    ∷ record {
      corner = Corner3x3PatternCorner.h1;
      square_indexes = 7 ∷ 6 ∷ 5 ∷ 15 ∷ 14 ∷ 13 ∷ 23 ∷ 22 ∷ 21 ∷ [];
    }
    ∷ record {
      corner = Corner3x3PatternCorner.a8;
      square_indexes = 56 ∷ 57 ∷ 58 ∷ 48 ∷ 49 ∷ 50 ∷ 40 ∷ 41 ∷ 42 ∷ [];
    }
    ∷ record {
      corner = Corner3x3PatternCorner.h8;
      square_indexes = 63 ∷ 62 ∷ 61 ∷ 55 ∷ 54 ∷ 53 ∷ 47 ∷ 46 ∷ 45 ∷ [];
    }
    ∷ []

unfoldable pub corner_3x3_pattern_spec : Corner3x3PatternCorner → Corner3x3PatternSpec
corner_3x3_pattern_spec Corner3x3PatternCorner.a1 =
    get_or corner_3x3_pattern_specs 0 first_corner_3x3
corner_3x3_pattern_spec Corner3x3PatternCorner.h1 =
    get_or corner_3x3_pattern_specs 1 first_corner_3x3
corner_3x3_pattern_spec Corner3x3PatternCorner.a8 =
    get_or corner_3x3_pattern_specs 2 first_corner_3x3
corner_3x3_pattern_spec Corner3x3PatternCorner.h8 =
    get_or corner_3x3_pattern_specs 3 first_corner_3x3

pub data Corner2x4PatternCorner : Type 0 where
  a1 h1 a8 h8 : Corner2x4PatternCorner

pub record Corner2x4PatternSpec : Type 0 where
  pub corner : Corner2x4PatternCorner
  pub square_indexes : List ℕ

abbrev pub first_corner_2x4 : Corner2x4PatternSpec
first_corner_2x4 = record {
  corner = Corner2x4PatternCorner.a1;
  square_indexes = 0 ∷ 1 ∷ 2 ∷ 3 ∷ 8 ∷ 9 ∷ 10 ∷ 11 ∷ [];
}

abbrev pub corner_2x4_pattern_specs : List Corner2x4PatternSpec
corner_2x4_pattern_specs =
    first_corner_2x4
    ∷ record {
      corner = Corner2x4PatternCorner.h1;
      square_indexes = 7 ∷ 6 ∷ 5 ∷ 4 ∷ 15 ∷ 14 ∷ 13 ∷ 12 ∷ [];
    }
    ∷ record {
      corner = Corner2x4PatternCorner.a8;
      square_indexes = 56 ∷ 57 ∷ 58 ∷ 59 ∷ 48 ∷ 49 ∷ 50 ∷ 51 ∷ [];
    }
    ∷ record {
      corner = Corner2x4PatternCorner.h8;
      square_indexes = 63 ∷ 62 ∷ 61 ∷ 60 ∷ 55 ∷ 54 ∷ 53 ∷ 52 ∷ [];
    }
    ∷ []

unfoldable pub corner_2x4_pattern_spec : Corner2x4PatternCorner → Corner2x4PatternSpec
corner_2x4_pattern_spec Corner2x4PatternCorner.a1 =
    get_or corner_2x4_pattern_specs 0 first_corner_2x4
corner_2x4_pattern_spec Corner2x4PatternCorner.h1 =
    get_or corner_2x4_pattern_specs 1 first_corner_2x4
corner_2x4_pattern_spec Corner2x4PatternCorner.a8 =
    get_or corner_2x4_pattern_specs 2 first_corner_2x4
corner_2x4_pattern_spec Corner2x4PatternCorner.h8 =
    get_or corner_2x4_pattern_specs 3 first_corner_2x4
