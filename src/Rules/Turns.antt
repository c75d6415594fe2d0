-- ===== src/Rules/Turns.antt =====
-- `has_legal_move`, `pass_turn`, `is_game_over` and `first_legal_move`: whose turn it is.
use vibe_othello_engine.Base.{
  ℕ, ◌≡◌, ◌∙◌, arith, true, false, ◌==◌, ◌<◌, Bool-cases, inl, inr, ◌⊎◌, bit_or, none, some,
}
use vibe_othello_engine.Base.Int.{pos}
use vibe_othello_engine.Bits.U64.{
  IsWord, nonzero_of_bit, bit_or-IsWord, bit_and-IsWord_right, complement-IsWord,
}
use vibe_othello_engine.Bits.Scan.{countr_zero, countr_zero-IsLowest}
use vibe_othello_engine.Board.{opponent, Board}
use vibe_othello_engine.Board.Square.{Square, IsSquare, from_index}
use vibe_othello_engine.Rules.Play.{IsBoard, is_some, apply_move-after_move}
use vibe_othello_engine.Rules.Moved.{apply_move-is_some}
use vibe_othello_engine.Rules.Moves.{
  legal_moves, legal_moves_for, legal_moves_in_direction, has_legal_move, with_side, apply_move,
  pass_turn, is_game_over,
}
use vibe_othello_engine.Player.{first_legal_move}

legal_moves_for-IsWord : (p o : ℕ) → IsWord (legal_moves_for p o)
unfolding legal_moves_for legal_moves_in_direction
legal_moves_for-IsWord p o =
    let e = λ (x : ℕ). bit_and-IsWord_right x _ (complement-IsWord (bit_or p o)) in
    bit_or-IsWord _ _
      (bit_or-IsWord _ _
        (bit_or-IsWord _ _
          (bit_or-IsWord _ _
            (bit_or-IsWord _ _ (bit_or-IsWord _ _ (bit_or-IsWord _ _ (e _) (e _)) (e _)) (e _))
            (e _))
          (e _))
        (e _))
      (e _)

legal_moves-IsWord : (b : Board) → IsWord (legal_moves b)
unfolding legal_moves
legal_moves-IsWord b = legal_moves_for-IsWord _ _

from_index-some : (n : ℕ) → n < 64 → from_index (pos n) ≡ some (record { index = n })
unfolding from_index
from_index-some n h = ground arith

module _ (b : Board) (v : IsBoard b) where
  -- A player without a legal move can place a disc nowhere.
  pub no_legal_move : has_legal_move b ≡ false → (s : Square) → IsSquare s → apply_move b s ≡ none
  unfolding has_legal_move
  no_legal_move e s h =
      apply_move-after_move b s v h ∙ ground (arith, nonzero_of_bit s.index (legal_moves b))

  -- The first legal move is none without legal moves; else it is a legal move that `apply_move`
  -- carries out, and no square with a lower index is one.
  pub first_legal_move_lem :
      ((has_legal_move b ≡ false) × (first_legal_move b ≡ none))
      ⊎ ((s : Square) × (has_legal_move b ≡ true)
          × (first_legal_move b ≡ some s)
          × (IsSquare s)
          × (is_some (apply_move b s) ≡ true)
          × ((t : Square) → t.index < s.index → IsSquare t → apply_move b t ≡ none))
  unfolding has_legal_move first_legal_move
  first_legal_move_lem = elim (Bool-cases (legal_moves b == 0)) [
    | inl nothing ↦ inl (rw nothing, rw nothing)
    | inr something ↦
        let (l, small) = countr_zero-IsLowest (legal_moves b) (legal_moves-IsWord b) something in
        let s : Square = record { index = countr_zero (legal_moves b) } in
        inr (
          s,
          rw something,
          rw something (from_index-some _ small),
          small,
          apply_move-is_some b s v small ∙ l.set,
          λ t lower k. apply_move-after_move b t v k ∙ rw (l.clear_below t.index lower),
        )
  ]

handed_over : Board → Board
handed_over b = record b { side_to_move = opponent b.side_to_move }

handed_over-IsBoard : (b : Board) → IsBoard b → IsBoard (handed_over b)
unfolding handed_over
handed_over-IsBoard b v = record {
  black_fits = v.black_fits;
  white_fits = v.white_fits;
  disjoint = v.disjoint;
}

abbrev pub CanMove : Board → Type 0
CanMove b = (s : Square) × (IsSquare s) × (is_some (apply_move b s) ≡ true)

abbrev pub CannotMove : Board → Type 0
CannotMove b = (s : Square) → IsSquare s → apply_move b s ≡ none

can_move : (b : Board) → IsBoard b → has_legal_move b ≡ true → CanMove b
can_move b v e = elim (first_legal_move_lem b v) [
  | inl (off, _) ↦ cc
  | inr (s, _, _, small, plays, _) ↦ (s, small, plays)
]

-- On a well-formed board one of three holds. The player can place a disc, and may not pass. Or
-- the player can place none, and the pass hands the same discs to a side that can. Or neither
-- side can place one, no pass is accepted, and the game is over.
pub turn_cases :
    (b : Board)
    → IsBoard b
    → (CanMove b × (pass_turn b ≡ none) × (is_game_over b ≡ false))
      ⊎ (CannotMove b
          × (pass_turn b ≡ some (record b { side_to_move = opponent b.side_to_move }))
          × CanMove (record b { side_to_move = opponent b.side_to_move })
          × (is_game_over b ≡ false))
      ⊎ (CannotMove b
          × CannotMove (record b { side_to_move = opponent b.side_to_move })
          × (pass_turn b ≡ none)
          × (is_game_over b ≡ true))
unfolding pass_turn is_game_over with_side handed_over
turn_cases b v =
    let next = handed_over b in
    let w = handed_over-IsBoard b v in
    elim (Bool-cases (has_legal_move b)) [
      | inl can ↦ inl (can_move b v can, rw can, rw can)
      | inr cannot ↦ elim (Bool-cases (has_legal_move next)) [
        | inl other ↦ inr (
            inl (
              no_legal_move b v cannot,
              rw (cannot, other),
              can_move next w other,
              rw (cannot, other),
            ))
        | inr over ↦ inr (
            inr (
              no_legal_move b v cannot,
              no_legal_move next w over,
              rw (cannot, over),
              rw (cannot, over),
            ))
      ]
    ]
