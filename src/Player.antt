-- ===== src/Player.antt =====
-- src/player.cpp: the first legal move.
use vibe_othello_engine.Base.{Option, none, ◌==◌, if◌then◌else◌}
use vibe_othello_engine.Base.Int.{pos}
use vibe_othello_engine.Bits.Scan.{countr_zero}
use vibe_othello_engine.Board.{Board}
use vibe_othello_engine.Board.Square.{Square, from_index}
use vibe_othello_engine.Rules.Moves.{legal_moves}

unfoldable pub first_legal_move : Board → Option Square
first_legal_move board =
    let moves = legal_moves board in
    if moves == 0 then none else from_index (pos (countr_zero moves))
