-- ===== src/Rules/Game.antt =====
-- A game as a sequence of moves and passes from the initial board.
use native.Mathlib.Nat.{add_comm}
use vibe_othello_engine.Base.{ℕ, suc, ◌+◌, ◌≡◌, ◌≤◌, refl, sym, ◌∙◌, arith, none, some, bit_or}
use vibe_othello_engine.Bits.Digit.{bit-or, bit-and}
use vibe_othello_engine.Bits.U64.{single, shift_left}
use vibe_othello_engine.Bits.Count.{popcount_union, popcount-le}
use vibe_othello_engine.Bits.Word.{bit-zero}
use vibe_othello_engine.Bits.Scan.{popcount, popcount_from}
use vibe_othello_engine.Board.{Side, opponent, Board, discs, discs_of, initial}
use vibe_othello_engine.Board.Square.{Square, IsSquare}
use vibe_othello_engine.Rules.Play.{IsBoard}
use vibe_othello_engine.Rules.Generate.{IsDisjoint}
use vibe_othello_engine.Rules.Moved.{apply_move-discs, disc_count-apply_move}
use vibe_othello_engine.Rules.Moves.{apply_move, pass_turn, disc_count, with_side}

-- The boards that a game reaches, with the number of discs placed.
pub data Reached : ℕ → Board → Type 0 where
  start : Reached 0 initial
  move :
      {n : ℕ} {b c : Board} (s : Square)
      → Reached n b
      → IsSquare s
      → apply_move b s ≡ some c
      → Reached (suc n) c
  pass : {n : ℕ} {b c : Board} → Reached n b → pass_turn b ≡ some c → Reached n c

pub initial-IsBoard : IsBoard initial
unfolding initial single shift_left
initial-IsBoard = record {
  black_fits = omega arith;
  white_fits = omega arith;
  disjoint = no_overlap;
}
  where
    no_overlap : IsDisjoint (bit_or (single 28) (single 35)) (bit_or (single 27) (single 36))
    no_overlap i = sym (bit-and i _ _) ∙ bit-zero i

pass-same : (b c : Board) → pass_turn b ≡ some c → (c.black ≡ b.black) × (c.white ≡ b.white)
unfolding pass_turn with_side
pass-same b c e = ground arith

total : Board → ℕ
total b = disc_count b Side.black + disc_count b Side.white

total_by_side :
    (b : Board) (side : Side) → disc_count b side + disc_count b (opponent side) ≡ total b
unfolding opponent total
total_by_side b Side.black = refl
total_by_side b Side.white = add_comm _ _

move-total :
    (b c : Board) (s : Square)
    → IsBoard b
    → IsSquare s
    → apply_move b s ≡ some c
    → total c ≡ total b + 1
move-total b c s v h e = omega (
  arith,
  total_by_side b b.side_to_move,
  total_by_side c b.side_to_move,
  disc_count-apply_move b s v h e,
)

pass-total : (b c : Board) → pass_turn b ≡ some c → total c ≡ total b
unfolding total disc_count discs discs_of
pass-total b c e = let (black, white) = pass-same b c e in rw (black, white)

-- Every board of a game is well formed, and holds four discs and one for each move.
pub Reached-IsBoard :
    (n : ℕ) (b : Board)
    → Reached n b
    → IsBoard b × (disc_count b Side.black + disc_count b Side.white ≡ n + 4)
unfolding total
Reached-IsBoard n b start = (
  initial-IsBoard,
  unfold disc_count discs discs_of initial single shift_left popcount popcount_from in refl,
)
Reached-IsBoard n b (move {n = k} {b = a} s r h e) =
    let (v, count) = Reached-IsBoard k a r in
    ((apply_move-discs a s v h e).0, omega (arith, move-total a b s v h e))
Reached-IsBoard n b (pass {b = a} r e) =
    let (v, count) = Reached-IsBoard n a r in
    let (black, white) = pass-same a b e in
    (
      record {
        black_fits = rw black v.black_fits;
        white_fits = rw white v.white_fits;
        disjoint = rw (black, white) v.disjoint;
      },
      omega (arith, pass-total a b e),
    )

discs_fit : (b : Board) → IsBoard b → disc_count b Side.black + disc_count b Side.white ≤ 64
unfolding disc_count discs discs_of
discs_fit b v = omega (
  arith,
  popcount_union b.black b.white (bit_or b.black b.white) (λ i. bit-or i b.black b.white)
      v.disjoint,
  popcount-le (bit_or b.black b.white),
)

-- A game has at most 60 moves.
pub Reached-le : (n : ℕ) (b : Board) → Reached n b → n ≤ 60
Reached-le n b r = let (v, count) = Reached-IsBoard n b r in omega (arith, discs_fit b v)

opponent-opponent : (side : Side) → opponent (opponent side) ≡ side
unfolding opponent
opponent-opponent Side.black = refl
opponent-opponent Side.white = refl

-- No pass answers a pass.
pub pass_turn-pass_turn : (b c : Board) → pass_turn b ≡ some c → pass_turn c ≡ none
unfolding pass_turn with_side
pass_turn-pass_turn b c e = ground (arith, opponent-opponent b.side_to_move)
