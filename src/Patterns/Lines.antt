-- ===== src/Patterns/Lines.antt =====
-- src/evaluation_patterns.cpp: the patterns along edges, rows and columns, square by square.
use vibe_othello_engine.Base.{ℕ, List, [], ◌∷◌, get_or}

pub data Edge8PatternEdge : Type 0 where
  top bottom left right : Edge8PatternEdge

pub record Edge8PatternSpec : Type 0 where
  pub edge : Edge8PatternEdge
  pub square_indexes : List ℕ

abbrev pub first_edge_8 : Edge8PatternSpec
first_edge_8 = record {
  edge = Edge8PatternEdge.top;
  square_indexes = 0 ∷ 1 ∷ 2 ∷ 3 ∷ 4 ∷ 5 ∷ 6 ∷ 7 ∷ [];
}

abbrev pub edge_8_pattern_specs : List Edge8PatternSpec
edge_8_pattern_specs =
    first_edge_8
    ∷ record {
      edge = Edge8PatternEdge.bottom;
      square_indexes = 56 ∷ 57 ∷ 58 ∷ 59 ∷ 60 ∷ 61 ∷ 62 ∷ 63 ∷ [];
    }
    ∷ record {
      edge = Edge8PatternEdge.left;
      square_indexes = 0 ∷ 8 ∷ 16 ∷ 24 ∷ 32 ∷ 40 ∷ 48 ∷ 56 ∷ [];
    }
    ∷ record {
      edge = Edge8PatternEdge.right;
      square_indexes = 7 ∷ 15 ∷ 23 ∷ 31 ∷ 39 ∷ 47 ∷ 55 ∷ 63 ∷ [];
    }
    ∷ []

unfoldable pub edge_8_pattern_spec : Edge8PatternEdge → Edge8PatternSpec
edge_8_pattern_spec Edge8PatternEdge.top = get_or edge_8_pattern_specs 0 first_edge_8
edge_8_pattern_spec Edge8PatternEdge.bottom = get_or edge_8_pattern_specs 1 first_edge_8
edge_8_pattern_spec Edge8PatternEdge.left = get_or edge_8_pattern_specs 2 first_edge_8
edge_8_pattern_spec Edge8PatternEdge.right = get_or edge_8_pattern_specs 3 first_edge_8

pub data EdgeX10PatternEdge : Type 0 where
  top bottom left right : EdgeX10PatternEdge

pub record EdgeX10PatternSpec : Type 0 where
  pub edge : EdgeX10PatternEdge
  pub square_indexes : List ℕ

abbrev pub first_edge_x_10 : EdgeX10PatternSpec
first_edge_x_10 = record {
  edge = EdgeX10PatternEdge.top;
  square_indexes = 0 ∷ 1 ∷ 2 ∷ 3 ∷ 4 ∷ 5 ∷ 6 ∷ 7 ∷ 9 ∷ 14 ∷ [];
}

abbrev pub edge_x_10_pattern_specs : List EdgeX10PatternSpec
edge_x_10_pattern_specs =
    first_edge_x_10
    ∷ record {
      edge = EdgeX10PatternEdge.bottom;
      square_indexes = 56 ∷ 57 ∷ 58 ∷ 59 ∷ 60 ∷ 61 ∷ 62 ∷ 63 ∷ 49 ∷ 54 ∷ [];
    }
    ∷ record {
      edge = EdgeX10PatternEdge.left;
      square_indexes = 0 ∷ 8 ∷ 16 ∷ 24 ∷ 32 ∷ 40 ∷ 48 ∷ 56 ∷ 9 ∷ 49 ∷ [];
    }
    ∷ record {
      edge = EdgeX10PatternEdge.right;
      square_indexes = 7 ∷ 15 ∷ 23 ∷ 31 ∷ 39 ∷ 47 ∷ 55 ∷ 63 ∷ 14 ∷ 54 ∷ [];
    }
    ∷ []

unfoldable pub edge_x_10_pattern_spec : EdgeX10PatternEdge → EdgeX10PatternSpec
edge_x_10_pattern_spec EdgeX10PatternEdge.top = get_or edge_x_10_pattern_specs 0 first_edge_x_10
edge_x_10_pattern_spec EdgeX10PatternEdge.bottom = get_or edge_x_10_pattern_specs 1 first_edge_x_10
edge_x_10_pattern_spec EdgeX10PatternEdge.left = get_or edge_x_10_pattern_specs 2 first_edge_x_10
edge_x_10_pattern_spec EdgeX10PatternEdge.right = get_or edge_x_10_pattern_specs 3 first_edge_x_10

pub data Row8PatternRow : Type 0 where
  rank_1 rank_2 rank_3 rank_4 rank_5 rank_6 rank_7 rank_8 : Row8PatternRow

pub record Row8PatternSpec : Type 0 where
  pub row : Row8PatternRow
  pub square_indexes : List ℕ

abbrev pub first_row_8 : Row8PatternSpec
first_row_8 = record {
  row = Row8PatternRow.rank_1;
  square_indexes = 0 ∷ 1 ∷ 2 ∷ 3 ∷ 4 ∷ 5 ∷ 6 ∷ 7 ∷ [];
}

abbrev pub row_8_pattern_specs : List Row8PatternSpec
row_8_pattern_specs =
    first_row_8
    ∷ record {
      row = Row8PatternRow.rank_2;
      square_indexes = 8 ∷ 9 ∷ 10 ∷ 11 ∷ 12 ∷ 13 ∷ 14 ∷ 15 ∷ [];
    }
    ∷ record {
      row = Row8PatternRow.rank_3;
      square_indexes = 16 ∷ 17 ∷ 18 ∷ 19 ∷ 20 ∷ 21 ∷ 22 ∷ 23 ∷ [];
    }
    ∷ record {
      row = Row8PatternRow.rank_4;
      square_indexes = 24 ∷ 25 ∷ 26 ∷ 27 ∷ 28 ∷ 29 ∷ 30 ∷ 31 ∷ [];
    }
    ∷ record {
      row = Row8PatternRow.rank_5;
      square_indexes = 32 ∷ 33 ∷ 34 ∷ 35 ∷ 36 ∷ 37 ∷ 38 ∷ 39 ∷ [];
    }
    ∷ record {
      row = Row8PatternRow.rank_6;
      square_indexes = 40 ∷ 41 ∷ 42 ∷ 43 ∷ 44 ∷ 45 ∷ 46 ∷ 47 ∷ [];
    }
    ∷ record {
      row = Row8PatternRow.rank_7;
      square_indexes = 48 ∷ 49 ∷ 50 ∷ 51 ∷ 52 ∷ 53 ∷ 54 ∷ 55 ∷ [];
    }
    ∷ record {
      row = Row8PatternRow.rank_8;
      square_indexes = 56 ∷ 57 ∷ 58 ∷ 59 ∷ 60 ∷ 61 ∷ 62 ∷ 63 ∷ [];
    }
    ∷ []

unfoldable pub row_8_pattern_spec : Row8PatternRow → Row8PatternSpec
row_8_pattern_spec Row8PatternRow.rank_1 = get_or row_8_pattern_specs 0 first_row_8
row_8_pattern_spec Row8PatternRow.rank_2 = get_or row_8_pattern_specs 1 first_row_8
row_8_pattern_spec Row8PatternRow.rank_3 = get_or row_8_pattern_specs 2 first_row_8
row_8_pattern_spec Row8PatternRow.rank_4 = get_or row_8_pattern_specs 3 first_row_8
row_8_pattern_spec Row8PatternRow.rank_5 = get_or row_8_pattern_specs 4 first_row_8
row_8_pattern_spec Row8PatternRow.rank_6 = get_or row_8_pattern_specs 5 first_row_8
row_8_pattern_spec Row8PatternRow.rank_7 = get_or row_8_pattern_specs 6 first_row_8
row_8_pattern_spec Row8PatternRow.rank_8 = get_or row_8_pattern_specs 7 first_row_8

pub data Column8PatternColumn : Type 0 where
  file_a file_b file_c file_d file_e file_f file_g file_h : Column8PatternColumn

pub record Column8PatternSpec : Type 0 where
  pub column : Column8PatternColumn
  pub square_indexes : List ℕ

abbrev pub first_column_8 : Column8PatternSpec
first_column_8 = record {
  column = Column8PatternColumn.file_a;
  square_indexes = 0 ∷ 8 ∷ 16 ∷ 24 ∷ 32 ∷ 40 ∷ 48 ∷ 56 ∷ [];
}

abbrev pub column_8_pattern_specs : List Column8PatternSpec
column_8_pattern_specs =
    first_column_8
    ∷ record {
      column = Column8PatternColumn.file_b;
      square_indexes = 1 ∷ 9 ∷ 17 ∷ 25 ∷ 33 ∷ 41 ∷ 49 ∷ 57 ∷ [];
    }
    ∷ record {
      column = Column8PatternColumn.file_c;
      square_indexes = 2 ∷ 10 ∷ 18 ∷ 26 ∷ 34 ∷ 42 ∷ 50 ∷ 58 ∷ [];
    }
    ∷ record {
      column = Column8PatternColumn.file_d;
      square_indexes = 3 ∷ 11 ∷ 19 ∷ 27 ∷ 35 ∷ 43 ∷ 51 ∷ 59 ∷ [];
    }
    ∷ record {
      column = Column8PatternColumn.file_e;
      square_indexes = 4 ∷ 12 ∷ 20 ∷ 28 ∷ 36 ∷ 44 ∷ 52 ∷ 60 ∷ [];
    }
    ∷ record {
      column = Column8PatternColumn.file_f;
      square_indexes = 5 ∷ 13 ∷ 21 ∷ 29 ∷ 37 ∷ 45 ∷ 53 ∷ 61 ∷ [];
    }
    ∷ record {
      column = Column8PatternColumn.file_g;
      square_indexes = 6 ∷ 14 ∷ 22 ∷ 30 ∷ 38 ∷ 46 ∷ 54 ∷ 62 ∷ [];
    }
    ∷ record {
      column = Column8PatternColumn.file_h;
      square_indexes = 7 ∷ 15 ∷ 23 ∷ 31 ∷ 39 ∷ 47 ∷ 55 ∷ 63 ∷ [];
    }
    ∷ []

unfoldable pub column_8_pattern_spec : Column8PatternColumn → Column8PatternSpec
column_8_pattern_spec Column8PatternColumn.file_a = get_or column_8_pattern_specs 0 first_column_8
column_8_pattern_spec Column8PatternColumn.file_b = get_or column_8_pattern_specs 1 first_column_8
column_8_pattern_spec Column8PatternColumn.file_c = get_or column_8_pattern_specs 2 first_column_8
column_8_pattern_spec Column8PatternColumn.file_d = get_or column_8_pattern_specs 3 first_column_8
column_8_pattern_spec Column8PatternColumn.file_e = get_or column_8_pattern_specs 4 first_column_8
column_8_pattern_spec Column8PatternColumn.file_f = get_or column_8_pattern_specs 5 first_column_8
column_8_pattern_spec Column8PatternColumn.file_g = get_or column_8_pattern_specs 6 first_column_8
column_8_pattern_spec Column8PatternColumn.file_h = get_or column_8_pattern_specs 7 first_column_8

pub data InnerRow8PatternLine : Type 0 where
  top bottom left right : InnerRow8PatternLine

pub record InnerRow8PatternSpec : Type 0 where
  pub line : InnerRow8PatternLine
  pub square_indexes : List ℕ

abbrev pub first_inner_row_8 : InnerRow8PatternSpec
first_inner_row_8 = record {
  line = InnerRow8PatternLine.top;
  square_indexes = 8 ∷ 9 ∷ 10 ∷ 11 ∷ 12 ∷ 13 ∷ 14 ∷ 15 ∷ [];
}

abbrev pub inner_row_8_pattern_specs : List InnerRow8PatternSpec
inner_row_8_pattern_specs =
    first_inner_row_8
    ∷ record {
      line = InnerRow8PatternLine.bottom;
      square_indexes = 48 ∷ 49 ∷ 50 ∷ 51 ∷ 52 ∷ 53 ∷ 54 ∷ 55 ∷ [];
    }
    ∷ record {
      line = InnerRow8PatternLine.left;
      square_indexes = 1 ∷ 9 ∷ 17 ∷ 25 ∷ 33 ∷ 41 ∷ 49 ∷ 57 ∷ [];
    }
    ∷ record {
      line = InnerRow8PatternLine.right;
      square_indexes = 6 ∷ 14 ∷ 22 ∷ 30 ∷ 38 ∷ 46 ∷ 54 ∷ 62 ∷ [];
    }
    ∷ []

unfoldable pub inner_row_8_pattern_spec : InnerRow8PatternLine → InnerRow8PatternSpec
inner_row_8_pattern_spec InnerRow8PatternLine.top =
    get_or inner_row_8_pattern_specs 0 first_inner_row_8
inner_row_8_pattern_spec InnerRow8PatternLine.bottom =
    get_or inner_row_8_pattern_specs 1 first_inner_row_8
inner_row_8_pattern_spec InnerRow8PatternLine.left =
    get_or inner_row_8_pattern_specs 2 first_inner_row_8
inner_row_8_pattern_spec InnerRow8PatternLine.right =
    get_or inner_row_8_pattern_specs 3 first_inner_row_8
