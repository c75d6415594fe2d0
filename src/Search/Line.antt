-- ===== src/Search/Line.antt =====
-- src/search_common.hpp: which of two moves is better, principal variations and node results.
use Prim.Native.Nat.{min}
use vibe_othello_engine.Base.{
  ℕ, zero, suc, ◌-◌, Bool, true, ◌||◌, Option, none, some, List, [], ◌∷◌, map, ltb, if◌then◌else◌,
  take, replicate, length,
}
use vibe_othello_engine.Base.Int.{ℤ, pos, ltb_ℤ}
use vibe_othello_engine.Board.Square.{Square, from_index, min_index, max_index}

unfoldable pub is_better_best_move_index : ℤ → ℕ → Option ℤ → Option ℕ → Bool
is_better_best_move_index candidate_score candidate_index none best_move_index = true
is_better_best_move_index candidate_score candidate_index (some best_score) best_move_index =
    if ltb_ℤ candidate_score best_score || ltb_ℤ best_score candidate_score
    then ltb_ℤ best_score candidate_score
    else elim best_move_index [ none ↦ true | some index ↦ ltb candidate_index index ]

unfoldable pub is_better_best_move : ℤ → Square → Option ℤ → Option Square → Bool
is_better_best_move candidate_score candidate none best_move = true
is_better_best_move candidate_score candidate (some best_score) best_move =
    if ltb_ℤ candidate_score best_score || ltb_ℤ best_score candidate_score
    then ltb_ℤ best_score candidate_score
    else elim best_move [ none ↦ true | some square ↦ ltb candidate.index square.index ]

-- The array of 64 indexes is a list; the first `size` of them are the line.
pub record PrincipalVariation : Type 0 where
  pub indexes : List ℤ
  pub size : ℕ

abbrev pub capacity : ℕ
capacity = 64

unfoldable pub no_variation : PrincipalVariation
no_variation = record { indexes = replicate capacity (pos 0); size = 0 }

-- The loop that writes the first count of the source over the target.
unfoldable pub copy_prefix : ℕ → List ℤ → List ℤ → List ℤ
copy_prefix zero source target = target
copy_prefix (suc count) (x ∷ source) (y ∷ target) = x ∷ copy_prefix count source target
copy_prefix (suc count) [] target = target
copy_prefix (suc count) (x ∷ source) [] = []

unfoldable pub principal_variation_with_move : Square → PrincipalVariation → PrincipalVariation
principal_variation_with_move move child_variation =
    let child_size = min child_variation.size (capacity - 1) in
    record {
      indexes =
          pos move.index
          ∷ copy_prefix child_size child_variation.indexes (replicate (capacity - 1) (pos 0));
      size = suc child_size;
    }

unfoldable pub principal_variation_single_move : Square → PrincipalVariation
principal_variation_single_move move = record {
  indexes = pos move.index ∷ replicate (capacity - 1) (pos 0);
  size = 1;
}

-- The squares of the indexes, those that are none left out.
unfoldable pub squares_of : List ℤ → List Square
squares_of [] = []
squares_of (index ∷ indexes) = elim (from_index index) [
  | none ↦ squares_of indexes
  | some square ↦ square ∷ squares_of indexes
]

unfoldable pub principal_variation_to_vector : PrincipalVariation → List Square
principal_variation_to_vector principal_variation =
    squares_of (take principal_variation.size principal_variation.indexes)

unfoldable pub index_of : Square → ℤ
index_of square = pos square.index

unfoldable pub principal_variation_from_vector : List Square → PrincipalVariation
principal_variation_from_vector principal_variation =
    let size = min (length principal_variation) capacity in
    record {
      indexes = copy_prefix size (map index_of principal_variation) (replicate capacity (pos 0));
      size = size;
    }

unfoldable pub square_from_transposition_index : ℤ → Option Square
square_from_transposition_index index =
    if ltb_ℤ index min_index || ltb_ℤ max_index index then none else from_index index

pub record NodeResult : Type 0 where
  pub best_move : Option Square
  pub score : ℤ
  pub principal_variation : PrincipalVariation

pub record SearchNodeResult : Type 0 where
  pub best_move : Option Square
  pub score : ℤ

unfoldable pub node_result_from_transposition_entry : ℤ → ℤ → NodeResult
node_result_from_transposition_entry score best_move_index =
    let best_move = square_from_transposition_index best_move_index in
    record {
      best_move = best_move;
      score = score;
      principal_variation = elim best_move [
        | none ↦ no_variation
        | some square ↦ principal_variation_single_move square
      ];
    }

unfoldable pub search_node_result_from_transposition_entry : ℤ → ℤ → SearchNodeResult
search_node_result_from_transposition_entry score best_move_index = record {
  best_move = square_from_transposition_index best_move_index;
  score = score;
}
