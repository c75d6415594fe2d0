-- ===== src/Patterns/Rules.antt =====
-- src/evaluation_patterns.cpp: the values of the states of a corner and of an edge, by rules.
use vibe_othello_engine.Base.{ℕ, zero, suc, ◌/◌, ◌%◌, Bool, not, ◌&&◌, ◌==◌, ltb, if◌then◌else◌}
use vibe_othello_engine.Base.Int.{ℤ, pos, negsuc, ◌+ℤ◌, ◌-ℤ◌, ◌*ℤ◌, ltb_ℤ, eqb_ℤ}

unfoldable pub pattern_signed_state : ℕ → ℤ
pattern_signed_state state = if state == 1 then pos 1 else if state == 2 then negsuc 0 else pos 0

unfoldable pub clamp_corner_2x3_pattern_value : ℤ → ℤ
clamp_corner_2x3_pattern_value value =
    if ltb_ℤ value (negsuc 5) then negsuc 5 else if ltb_ℤ (pos 6) value then pos 6 else value

unfoldable pub corner_2x3_pattern_state_at : ℕ → ℕ → ℕ
corner_2x3_pattern_state_at index zero = index % 3
corner_2x3_pattern_state_at index (suc cell) = corner_2x3_pattern_state_at (index / 3) cell

-- `corner_2x3_rule_value` on the states of the six squares.
unfoldable pub corner_2x3_states_value : ℕ → ℕ → ℕ → ℕ → ℕ → ℕ → ℤ
corner_2x3_states_value corner horizontal_c horizontal_far vertical_c x_square inner_support =
    let value =
      if corner == 1 then pos 0 +ℤ pos 4 else if corner == 2 then pos 0 -ℤ pos 4 else pos 0 in
    let adjacent_support = pattern_signed_state horizontal_c +ℤ pattern_signed_state vertical_c in
    let supported =
      if corner == 0
      then value
        -ℤ adjacent_support
        -ℤ pos 3 *ℤ pattern_signed_state x_square
        -ℤ pattern_signed_state horizontal_far
      else value
        +ℤ adjacent_support
        +ℤ pattern_signed_state horizontal_far
        +ℤ pattern_signed_state inner_support in
    clamp_corner_2x3_pattern_value supported

unfoldable pub corner_2x3_rule_value : ℕ → ℤ
corner_2x3_rule_value index =
    corner_2x3_states_value (corner_2x3_pattern_state_at index 0)
      (corner_2x3_pattern_state_at index 1) (corner_2x3_pattern_state_at index 2)
      (corner_2x3_pattern_state_at index 3) (corner_2x3_pattern_state_at index 4)
      (corner_2x3_pattern_state_at index 5)

unfoldable pub clamp_edge_8_pattern_value : ℤ → ℤ
clamp_edge_8_pattern_value value =
    if ltb_ℤ value (negsuc 9) then negsuc 9 else if ltb_ℤ (pos 10) value then pos 10 else value

-- The length of the run of the corner's colour along the edge, at most five.
unfoldable pub edge_chain : ℤ → ℤ → ℤ → ℤ → ℤ → ℕ
edge_chain corner first second third fourth =
    if not (eqb_ℤ first corner)
    then 1
    else if not (eqb_ℤ second corner)
    then 2
    else if not (eqb_ℤ third corner)
    then 3
    else if not (eqb_ℤ fourth corner)
    then 4
    else 5

-- The part of the value that one corner of the edge adds, with the four cells next to it.
unfoldable pub edge_corner_value : ℤ → ℤ → ℤ → ℤ → ℤ → ℤ → ℤ
edge_corner_value value corner c_square second third fourth =
    let chain = edge_chain corner c_square second third fourth in
    let away = value -ℤ pos 2 *ℤ c_square in
    if not (eqb_ℤ corner (pos 0))
    then value +ℤ corner *ℤ (if ltb 4 chain then pos 4 else pos chain) +ℤ c_square
    else if eqb_ℤ c_square (pos 0)
    then away -ℤ second
    else away

unfoldable pub all_are : ℤ → ℤ → ℤ → ℤ → ℤ → ℤ → ℤ → ℤ → ℤ → Bool
all_are v cell0 cell1 cell2 cell3 cell4 cell5 cell6 cell7 =
    eqb_ℤ cell0 v
    && eqb_ℤ cell1 v
    && eqb_ℤ cell2 v
    && eqb_ℤ cell3 v
    && eqb_ℤ cell4 v
    && eqb_ℤ cell5 v
    && eqb_ℤ cell6 v
    && eqb_ℤ cell7 v

-- `edge_8_rule_value` on the signed states of the eight squares.
unfoldable pub edge_8_cells_value : ℤ → ℤ → ℤ → ℤ → ℤ → ℤ → ℤ → ℤ → ℤ
edge_8_cells_value cell0 cell1 cell2 cell3 cell4 cell5 cell6 cell7 =
    let corners = pos 2 *ℤ (cell0 +ℤ cell7) in
    let left = edge_corner_value corners cell0 cell1 cell2 cell3 cell4 in
    let right = edge_corner_value left cell7 cell6 cell5 cell4 cell3 in
    let open_corners =
      if eqb_ℤ cell0 (pos 0) && eqb_ℤ cell7 (pos 0)
      then right -ℤ (cell1 +ℤ cell2 +ℤ cell3 +ℤ cell4 +ℤ cell5 +ℤ cell6)
      else right in
    clamp_edge_8_pattern_value (
      if all_are (pos 1) cell0 cell1 cell2 cell3 cell4 cell5 cell6 cell7
      then open_corners +ℤ pos 3
      else if all_are (negsuc 0) cell0 cell1 cell2 cell3 cell4 cell5 cell6 cell7
      then open_corners -ℤ pos 3
      else open_corners)

unfoldable pub edge_8_rule_value : ℕ → ℤ
edge_8_rule_value index =
    edge_8_cells_value (pattern_signed_state (index % 3)) (pattern_signed_state (index / 3 % 3))
      (pattern_signed_state (index / 9 % 3)) (pattern_signed_state (index / 27 % 3))
      (pattern_signed_state (index / 81 % 3)) (pattern_signed_state (index / 243 % 3))
      (pattern_signed_state (index / 729 % 3)) (pattern_signed_state (index / 2187 % 3))
