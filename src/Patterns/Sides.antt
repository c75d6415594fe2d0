-- ===== src/Patterns/Sides.antt =====
-- The scores of the corner and edge patterns with the two sides exchanged.
use native.Mathlib.Nat.{pow-zero, pow-succ', div-one, zero-div, div-div-eq-div-mul}
use vibe_othello_engine.Base.{
  ℕ, zero, suc, ◌+◌, ◌*◌, ◌/◌, ◌%◌, ◌^◌, ◌<◌, ◌≡◌, refl, ap, ◌∙◌, arith, false, List, [], ◌∷◌, map,
  get_or, leb,
}
use vibe_othello_engine.Base.Int.{ℤ, pos, int_laws}
use vibe_othello_engine.Bits.U64.{IsWord, test_single}
use vibe_othello_engine.Rules.Generate.{IsDisjoint}
use vibe_othello_engine.Patterns.Index.{
  PatternIndexContext, square_state, players_context, pattern_index_for_squares,
}
use vibe_othello_engine.Patterns.Digits.{
  value_of, square_state-lt, low_digit, high_digits, value_of-lt, pattern_index-value_of,
}
use vibe_othello_engine.Patterns.Rules.{
  pattern_signed_state, corner_2x3_pattern_state_at, corner_2x3_states_value, corner_2x3_rule_value,
  edge_8_cells_value, edge_8_rule_value,
}
use vibe_othello_engine.Patterns.RuleSides.{
  opposite, swap_state, signed-swap_state, corner_2x3_states_value-swap_state,
  edge_8_cells_value-opposite,
}
use vibe_othello_engine.Patterns.Tables.{
  fill_table, make_corner_2x3_pattern_table, make_edge_8_pattern_table, checked_value,
  corner_2x3_pattern_table_value, edge_8_pattern_table_value, sum_rule, corner_2x3_pattern_score,
  edge_8_pattern_score,
}

get_or-fill_table :
    (rule : ℕ → ℤ) (count index j : ℕ)
    → j < count
    → get_or (fill_table rule count index) j (pos 0) ≡ rule (j + index)
unfolding fill_table
get_or-fill_table rule zero index j h = absurd (omega arith)
get_or-fill_table rule (suc count) index zero h = ap rule (omega arith)
get_or-fill_table rule (suc count) index (suc j) h =
    get_or-fill_table rule count (suc index) j (omega arith) ∙ ap rule (omega arith)

not_reached : (size j : ℕ) → j < size → leb size j ≡ false
not_reached size j h = ground (arith, h)

checked_value-fill_table :
    (rule : ℕ → ℤ) (size j : ℕ)
    → j < size
    → checked_value (fill_table rule size 0) size (pos j) ≡ rule j
unfolding checked_value
checked_value-fill_table rule size j h =
    rw (not_reached size j h) (get_or-fill_table rule size 0 j h ∙ ap rule (omega arith))

digit_of :
    (context : PatternIndexContext) (squares : List ℕ) (k : ℕ)
    → value_of context squares / 3 ^ k % 3 ≡ get_or (map (square_state context) squares) k 0
digit_of context [] k = rw (zero-div (3 ^ k)) refl
digit_of context (s ∷ squares) zero =
    rw (pow-zero 3, div-one) (low_digit _ (value_of context squares) (square_state-lt context s))
digit_of context (s ∷ squares) (suc k) =
    rw
      (
        pow-succ' 3 k,
        ← div-div-eq-div-mul (square_state context s + 3 * value_of context squares) 3 (3 ^ k),
        high_digits _ (value_of context squares) (square_state-lt context s),
      )
      (digit_of context squares k)

state_at : (x k : ℕ) → corner_2x3_pattern_state_at x k ≡ x / 3 ^ k % 3
unfolding corner_2x3_pattern_state_at
state_at x zero = rw (pow-zero 3, div-one) refl
state_at x (suc k) = rw (pow-succ' 3 k, ← div-div-eq-div-mul x 3 (3 ^ k)) (state_at (x / 3) k)

corner_cell :
    (context : PatternIndexContext) (squares : List ℕ) (k : ℕ)
    → corner_2x3_pattern_state_at (value_of context squares) k
      ≡ get_or (map (square_state context) squares) k 0
corner_cell context squares k = state_at (value_of context squares) k ∙ digit_of context squares k

corner_rule :
    (context : PatternIndexContext) (a b c d e f : ℕ)
    → corner_2x3_rule_value (value_of context (a ∷ b ∷ c ∷ d ∷ e ∷ f ∷ []))
      ≡ corner_2x3_states_value
          (square_state context a)
          (square_state context b)
          (square_state context c)
          (square_state context d)
          (square_state context e)
          (square_state context f)
unfolding corner_2x3_rule_value
corner_rule context a b c d e f =
    let squares : List ℕ = a ∷ b ∷ c ∷ d ∷ e ∷ f ∷ [] in
    rw
      (
        corner_cell context squares 0,
        corner_cell context squares 1,
        corner_cell context squares 2,
        corner_cell context squares 3,
        corner_cell context squares 4,
        corner_cell context squares 5,
      )
      refl

abbrev signed_at : PatternIndexContext → ℕ → ℤ
signed_at context s = pattern_signed_state (square_state context s)

edge_rule :
    (context : PatternIndexContext) (a b c d e f g h : ℕ)
    → edge_8_rule_value (value_of context (a ∷ b ∷ c ∷ d ∷ e ∷ f ∷ g ∷ h ∷ []))
      ≡ edge_8_cells_value
          (signed_at context a)
          (signed_at context b)
          (signed_at context c)
          (signed_at context d)
          (signed_at context e)
          (signed_at context f)
          (signed_at context g)
          (signed_at context h)
unfolding edge_8_rule_value
edge_rule context a b c d e f g h =
    let squares : List ℕ = a ∷ b ∷ c ∷ d ∷ e ∷ f ∷ g ∷ h ∷ [] in
    rw
      (
        low_digit _ (value_of context (b ∷ c ∷ d ∷ e ∷ f ∷ g ∷ h ∷ [])) (square_state-lt context a),
        digit_of context squares 1,
        digit_of context squares 2,
        digit_of context squares 3,
        digit_of context squares 4,
        digit_of context squares 5,
        digit_of context squares 6,
        digit_of context squares 7,
      )
      refl

corner_table :
    (context : PatternIndexContext) (a b c d e f : ℕ)
    → corner_2x3_pattern_table_value
        (pos (pattern_index_for_squares context (a ∷ b ∷ c ∷ d ∷ e ∷ f ∷ [])))
      ≡ corner_2x3_states_value
          (square_state context a)
          (square_state context b)
          (square_state context c)
          (square_state context d)
          (square_state context e)
          (square_state context f)
unfolding corner_2x3_pattern_table_value make_corner_2x3_pattern_table
corner_table context a b c d e f =
    let squares : List ℕ = a ∷ b ∷ c ∷ d ∷ e ∷ f ∷ [] in
    rw (pattern_index-value_of context squares) (
      checked_value-fill_table corner_2x3_rule_value 729 (value_of context squares)
        (value_of-lt context squares)
      ∙ corner_rule context a b c d e f)

edge_table :
    (context : PatternIndexContext) (a b c d e f g h : ℕ)
    → edge_8_pattern_table_value
        (pos (pattern_index_for_squares context (a ∷ b ∷ c ∷ d ∷ e ∷ f ∷ g ∷ h ∷ [])))
      ≡ edge_8_cells_value
          (signed_at context a)
          (signed_at context b)
          (signed_at context c)
          (signed_at context d)
          (signed_at context e)
          (signed_at context f)
          (signed_at context g)
          (signed_at context h)
unfolding edge_8_pattern_table_value make_edge_8_pattern_table
edge_table context a b c d e f g h =
    let squares : List ℕ = a ∷ b ∷ c ∷ d ∷ e ∷ f ∷ g ∷ h ∷ [] in
    rw (pattern_index-value_of context squares) (
      checked_value-fill_table edge_8_rule_value 6561 (value_of context squares)
        (value_of-lt context squares)
      ∙ edge_rule context a b c d e f g h)

module _ (p o : ℕ) (wp : IsWord p) (wo : IsWord o) (apart : IsDisjoint p o) where
  -- The state of a square for the other side.
  square_state-swap_state :
      (s : ℕ)
      → s < 64
      → square_state (players_context o p) s ≡ swap_state (square_state (players_context p o) s)
  unfolding square_state players_context swap_state
  square_state-swap_state s h =
      rw (test_single p s wp h, test_single o s wo h) (ground (arith, apart s))

  signed_at-opposite :
      (s : ℕ)
      → s < 64
      → signed_at (players_context o p) s ≡ opposite (signed_at (players_context p o) s)
  signed_at-opposite s h =
      ap pattern_signed_state (square_state-swap_state s h) ∙ signed-swap_state _

  corner_value-opposite :
      (a b c d e f : ℕ)
      → a < 64
      → b < 64
      → c < 64
      → d < 64
      → e < 64
      → f < 64
      → corner_2x3_pattern_table_value
          (pos (pattern_index_for_squares (players_context o p) (a ∷ b ∷ c ∷ d ∷ e ∷ f ∷ [])))
        ≡ opposite (
            corner_2x3_pattern_table_value
              (pos (pattern_index_for_squares (players_context p o) (a ∷ b ∷ c ∷ d ∷ e ∷ f ∷ []))))
  corner_value-opposite a b c d e f ha hb hc hd he hf =
      rw
        (
          corner_table (players_context o p) a b c d e f,
          corner_table (players_context p o) a b c d e f,
          square_state-swap_state a ha,
          square_state-swap_state b hb,
          square_state-swap_state c hc,
          square_state-swap_state d hd,
          square_state-swap_state e he,
          square_state-swap_state f hf,
        )
        (corner_2x3_states_value-swap_state _ _ _ _ _ _ (square_state-lt (players_context p o) a))

  edge_value-opposite :
      (a b c d e f g i : ℕ)
      → a < 64
      → b < 64
      → c < 64
      → d < 64
      → e < 64
      → f < 64
      → g < 64
      → i < 64
      → edge_8_pattern_table_value (
          pos
            (pattern_index_for_squares (players_context o p) (a ∷ b ∷ c ∷ d ∷ e ∷ f ∷ g ∷ i ∷ [])))
        ≡ opposite (
            edge_8_pattern_table_value (
              pos (
                pattern_index_for_squares
                  (players_context p o)
                  (a ∷ b ∷ c ∷ d ∷ e ∷ f ∷ g ∷ i ∷ []))))
  edge_value-opposite a b c d e f g i ha hb hc hd he hf hg hi =
      rw
        (
          edge_table (players_context o p) a b c d e f g i,
          edge_table (players_context p o) a b c d e f g i,
          signed_at-opposite a ha,
          signed_at-opposite b hb,
          signed_at-opposite c hc,
          signed_at-opposite d hd,
          signed_at-opposite e he,
          signed_at-opposite f hf,
          signed_at-opposite g hg,
          signed_at-opposite i hi,
        )
        (edge_8_cells_value-opposite _ _ _ _ _ _ _ _)

  -- The scores are those of the other side with the sign turned.
  pub corner_2x3_pattern_score-opposite :
      corner_2x3_pattern_score o p ≡ opposite (corner_2x3_pattern_score p o)
  unfolding corner_2x3_pattern_score sum_rule
  corner_2x3_pattern_score-opposite =
      rw
        (
          corner_value-opposite 0 1 2 8 9 10 (omega arith) (omega arith) (omega arith) (omega arith)
              (omega arith) (omega arith),
          corner_value-opposite 7 6 5 15 14 13 (omega arith) (omega arith) (omega arith)
              (omega arith) (omega arith) (omega arith),
          corner_value-opposite 56 57 58 48 49 50 (omega arith) (omega arith) (omega arith)
              (omega arith) (omega arith) (omega arith),
          corner_value-opposite 63 62 61 55 54 53 (omega arith) (omega arith) (omega arith)
              (omega arith) (omega arith) (omega arith),
        )
        (omega int_laws)

  pub edge_8_pattern_score-opposite : edge_8_pattern_score o p ≡ opposite (edge_8_pattern_score p o)
  unfolding edge_8_pattern_score sum_rule
  edge_8_pattern_score-opposite =
      rw
        (
          edge_value-opposite 0 1 2 3 4 5 6 7 (omega arith) (omega arith) (omega arith)
              (omega arith) (omega arith) (omega arith) (omega arith) (omega arith),
          edge_value-opposite 56 57 58 59 60 61 62 63 (omega arith) (omega arith) (omega arith)
              (omega arith) (omega arith) (omega arith) (omega arith) (omega arith),
          edge_value-opposite 0 8 16 24 32 40 48 56 (omega arith) (omega arith) (omega arith)
              (omega arith) (omega arith) (omega arith) (omega arith) (omega arith),
          edge_value-opposite 7 15 23 31 39 47 55 63 (omega arith) (omega arith) (omega arith)
              (omega arith) (omega arith) (omega arith) (omega arith) (omega arith),
        )
        (omega int_laws)
