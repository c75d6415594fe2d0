-- ===== src/Lib.antt =====
-- A verification library for the Othello engine of this repository.
--
-- The engine keeps a position as two 64-bit words, one bit for each square, and the side to move.
-- The rules generate legal moves and flips with shifts of these words; the Zobrist hash of a board
-- is updated move by move; the search works on positions seen from the player to move and keeps
-- results in transposition tables. The modules follow the parts of the program:
--
-- Base, Bits: shared names, integers, lists, and 64-bit words. A word is a number below 2 ^ 64
--   and `bit i x` is its bit i; shifts left and complements are reduced to 64 bits. `int` is an
--   integer without bounds (Base/Int), where the scores and indexes that the program computes are
--   far below its limits. Where the depth of a search, which nothing limits, enters a score, the
--   result is reduced to 32 bits (Base/Int32).
-- Board: include/othello/types.hpp, include/othello/board.hpp, include/othello/square.hpp and
--   src/square.cpp. `Bitboard` is a number; a square is its index, and the constructor that
--   checks the index is `from_index`.
-- Rules: src/bitboard_ops.hpp (Rules/Shift), src/bitboard_rules.hpp and src/rules.cpp
--   (Rules/Moves). Rules/Rays is the rule of the game square by square, with no shift in it, to
--   which the flood (Rules/Generate) and the walk (Rules/Flips) are compared, first for a
--   direction and then for all eight (Rules/Legality, Rules/Consistent). Rules/Play, Rules/Moved,
--   Rules/Turns and Rules/Game follow a game: moves, passes, the end, and all boards reached.
-- Player: src/player.cpp.
-- Hash: src/hash.cpp and src/hash_update.hpp. The tables of random numbers are computed by the
--   generator as in the source.
-- Notation: src/notation.cpp. A text is a list of bytes.
-- Search: src/search_common.hpp (Search/Position, Search/Line) and src/tt_common.hpp
--   (Search/Bound); the lemmas are in Search/Agree, Search/Lines and Search/Cutoff.
-- Endgame: src/endgame_tt.hpp and the counters of include/othello/endgame.hpp (Endgame/Table,
--   Endgame/Access). A bucket is a list of entries, a pointer into it is the index of a slot,
--   and the table is a list of buckets or none. The counters are passed along and wrap at 64
--   bits. The exact value of a position is a parameter of Endgame/Sound: a function of the hash,
--   so two positions with one hash are taken to have one value, as the program takes them.
--   Endgame/Last is src/endgame_last_n.hpp: the solvers of at most four empty squares, with the
--   empty squares as a list and the solver of the next smaller number as an argument of the loop.
--   Endgame/Exact and Endgame/Minimax compare it with minimax, which tries every move.
--   Endgame/Regions and Endgame/Order are src/endgame_ordering.hpp: the regions of empty squares,
--   the score of a move and the order in which moves are tried, over Search/Sort, with
--   Search/Collect for the loop over the moves. The lemmas on regions are in Endgame/Flooded (the
--   rounds), Endgame/Visits, Endgame/Beside (the sides, by file and rank) and Endgame/Joined (the squares), those on the order in
--   Endgame/Ordered. A flood pushes each of the 64 squares at most once and a region takes at least
--   one square away, so 65 rounds of the one loop and 64 of the other are enough.
-- Patterns: src/evaluation_patterns.cpp and include/othello/evaluation_patterns.hpp. Patterns/Corners,
--   Patterns/Lines and Patterns/Diagonals hold the squares of the 13 families, Patterns/Index the
--   index of a pattern, a number in base three (Patterns/Digits), Patterns/Rules and
--   Patterns/Tables the two fixed tables, which the rules of the source fill, and Patterns/Bundle
--   the tables of a configuration. Patterns/RuleSides and Patterns/Sides exchange the two sides.
-- Evaluation: src/evaluation_features.cpp (Evaluation/Features, Evaluation/Edges),
--   include/othello/evaluation.hpp (Evaluation/Config),
--   include/othello/evaluation_feature_specs.hpp (Evaluation/Specs) and src/evaluation.cpp
--   (Evaluation/Terms, Evaluation/Evaluate). A pointer to a member is a projection or an update
--   of the record, and a shared pointer to tables is the tables or none. `evaluate_slow` is the
--   part of `evaluate_score_only` behind the fast path. Evaluation/Agree relates the ways to
--   evaluate, Evaluation/Over the evaluation and the rules, Evaluation/Sides the two sides.
-- Midgame: the parts of the search of the middle game. Midgame/Options is src/search_runtime_options.hpp
--   and the options of include/othello/search.hpp, Midgame/Stats include/othello/search_stats.hpp,
--   Midgame/Table and Midgame/Access src/search_tt.hpp (Midgame/Strength, Midgame/Replacement
--   and Midgame/Selection follow the slot that is replaced, Midgame/Sound the scores, Midgame/Ages the generations),
--   Midgame/Moves src/search_move_ordering.cpp with Midgame/Buckets, Midgame/Bucketed and
--   Midgame/Ordered over Search/Sort and Search/Sorted,
--   Midgame/Order src/search_ordering.hpp with Midgame/History, Midgame/Aspiration
--   src/search_aspiration.cpp and src/search_bounds.hpp with Midgame/Window, Midgame/Session
--   src/search_session.cpp with Midgame/Identity, and Midgame/RootPolicy
--   src/search_root_policy.cpp with Midgame/RootDecision. The loop over windows takes the search of a window as an argument;
--   it ends since every round spends one of the researches that are left. As in Endgame, the
--   value of a position is a function of its hash, here with the mode, the evaluation and the depth.
-- Tests: runs at concrete inputs, and the theorems applied at inputs where their hypotheses hold.
--
-- Loops over the bits of a word are recursion on fuel: 64 rounds for each_bit, since every round
-- clears a bit; 8 for flips_loop, since a run that stays on the board has at most 7 squares, which is the
-- subject of Rules/Flips; 63 doublings for bit_ceil, which reach every power of two of 64 bits; 2 turns for a solver that calls itself after a pass, since the side that the
-- pass leaves to move has a move. An allocation that fails is an argument of `new_table`.
--
-- Not modelled: the endgame solver above four empty squares (src/endgame.cpp, solve_last_n_generic_node),
-- and the nodes of the search of the middle game (src/search.cpp, src/search_node.cpp). Command lines,
-- files, reports, benchmarks and the Python scripts under tools/ are left out: they are input and
-- output around this core.
mod Base
mod Bits
pub mod Board
pub mod Player
pub mod Rules
pub mod Midgame
pub mod Hash
pub mod Notation
pub mod Search
pub mod Endgame
pub mod Patterns
pub mod Evaluation
mod Tests
