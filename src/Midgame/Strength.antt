-- ===== src/Midgame/Strength.antt =====
-- What a store of the middle game goes by, apart from the code of src/search_tt.hpp: which entry is
-- that of a position, how strong an entry is, and which of two entries is the weaker.
use Prim.Native.Nat.{min}
use vibe_othello_engine.Base.{ℕ, ◌*◌, ◌^◌, ◌≤◌, ◌<◌, ◌≡◌, refl, arith, true, false}
use vibe_othello_engine.Base.Int.{ℤ, pos, negsuc, ◌≤ℤ◌, ◌-ℤ◌, ◌*ℤ◌}
use vibe_othello_engine.Base.Int32.{wrap_int, wrap_int-IsInt, IsInt}
use vibe_othello_engine.Midgame.Options.{SearchMode}
use vibe_othello_engine.Midgame.Table.{
  TranspositionEntry, TranspositionScope, generation_age, max_ℤ, replacement_protection_score,
  same_mode, entry_matches,
}

-- The entry holds a result for the position in the scope.
pub record IsFor (hash : ℕ) (scope : TranspositionScope) (e : TranspositionEntry) : Type 0 where
  pub full : e.occupied ≡ true
  pub same_hash : e.hash ≡ hash
  pub mode_of : e.mode ≡ scope.mode
  pub same_evaluation : e.eval_identity ≡ scope.eval_identity

-- The plies of a depth, none for a depth below 0.
abbrev plies : ℤ → ℕ
plies (pos n) = n
plies (negsuc n) = 0

-- Four for each ply, less one for each search since, but no more than eight.
abbrev pub strength : ℤ → ℕ → ℤ
strength depth age = pos (4 * plies depth) -ℤ pos (min age 8)

abbrev pub strength_of : ℕ → TranspositionEntry → ℤ
strength_of generation e = strength e.depth (generation_age generation e.generation)

-- The depth is one for which four points for each ply are an `int`.
abbrev pub IsModest : ℤ → Type 0
IsModest depth = plies depth < 2 ^ 29

score_IsInt : (depth : ℤ) (age : ℕ) → IsModest depth → IsInt (strength depth age)
unfolding ◌-ℤ◌
score_IsInt (pos n) age h = record { below = ground arith; above = ground arith }
score_IsInt (negsuc n) age h = record { below = ground arith; above = ground arith }

product_lem : (depth : ℤ) → max_ℤ depth (pos 0) *ℤ pos 4 ≡ pos (4 * plies depth)
unfolding max_ℤ ◌*ℤ◌
product_lem (pos n) = ground arith
product_lem (negsuc n) = ground arith

weighted :
    (depth : ℤ) → IsModest depth → wrap_int (max_ℤ depth (pos 0) *ℤ pos 4) ≡ pos (4 * plies depth)
weighted depth h = rw (product_lem depth) (
    wrap_int-IsInt (pos (4 * plies depth))
      (record { below = omega (arith, h); above = omega arith }))

pub replacement_protection_score_lem :
    (depth : ℤ) (age : ℕ)
    → IsModest depth
    → replacement_protection_score depth age ≡ strength depth age
unfolding replacement_protection_score
replacement_protection_score_lem depth age h =
    rw (weighted depth h) (wrap_int-IsInt (strength depth age) (score_IsInt depth age h))

-- The entry e is no weaker than the chosen one: it is as strong, if no stronger then no older, and
-- if no stronger and no younger then as deep.
pub record IsNoWeaker (generation : ℕ) (chosen e : TranspositionEntry) : Type 0 where
  pub as_strong : strength_of generation chosen ≤ℤ strength_of generation e
  pub no_older :
      strength_of generation e ≤ℤ strength_of generation chosen
      → generation_age generation e.generation ≤ generation_age generation chosen.generation
  pub as_deep :
      strength_of generation e ≤ℤ strength_of generation chosen
      → generation_age generation chosen.generation ≤ generation_age generation e.generation
      → chosen.depth ≤ℤ e.depth

same_mode_sound : (a b : SearchMode) → same_mode a b ≡ true → a ≡ b
unfolding same_mode
same_mode_sound SearchMode.fixed_depth SearchMode.fixed_depth h = refl
same_mode_sound SearchMode.fixed_depth SearchMode.iterative h = absurd (ground (arith, h))
same_mode_sound SearchMode.fixed_depth SearchMode.exact_endgame h = absurd (ground (arith, h))
same_mode_sound SearchMode.fixed_depth SearchMode.selective h = absurd (ground (arith, h))
same_mode_sound SearchMode.iterative SearchMode.fixed_depth h = absurd (ground (arith, h))
same_mode_sound SearchMode.iterative SearchMode.iterative h = refl
same_mode_sound SearchMode.iterative SearchMode.exact_endgame h = absurd (ground (arith, h))
same_mode_sound SearchMode.iterative SearchMode.selective h = absurd (ground (arith, h))
same_mode_sound SearchMode.exact_endgame SearchMode.fixed_depth h = absurd (ground (arith, h))
same_mode_sound SearchMode.exact_endgame SearchMode.iterative h = absurd (ground (arith, h))
same_mode_sound SearchMode.exact_endgame SearchMode.exact_endgame h = refl
same_mode_sound SearchMode.exact_endgame SearchMode.selective h = absurd (ground (arith, h))
same_mode_sound SearchMode.selective SearchMode.fixed_depth h = absurd (ground (arith, h))
same_mode_sound SearchMode.selective SearchMode.iterative h = absurd (ground (arith, h))
same_mode_sound SearchMode.selective SearchMode.exact_endgame h = absurd (ground (arith, h))
same_mode_sound SearchMode.selective SearchMode.selective h = refl

same_mode_self : (a : SearchMode) → same_mode a a ≡ true
unfolding same_mode
same_mode_self SearchMode.fixed_depth = refl
same_mode_self SearchMode.iterative = refl
same_mode_self SearchMode.exact_endgame = refl
same_mode_self SearchMode.selective = refl

pub entry_matches-IsFor :
    (hash : ℕ) (scope : TranspositionScope) (e : TranspositionEntry)
    → entry_matches hash scope e ≡ true
    → IsFor hash scope e
unfolding entry_matches
entry_matches-IsFor hash scope e h = record {
  full = ground (arith, h);
  same_hash = ground (arith, h);
  mode_of = same_mode_sound e.mode scope.mode (ground (arith, h));
  same_evaluation = ground (arith, h);
}

pub not_matching :
    (hash : ℕ) (scope : TranspositionScope) (e : TranspositionEntry)
    → entry_matches hash scope e ≡ false
    → ¬ (IsFor hash scope e)
unfolding entry_matches
not_matching hash scope e h v =
    let mode : same_mode e.mode scope.mode ≡ true = rw v.mode_of (same_mode_self scope.mode) in
    ground (arith, h, v.full, v.same_hash, mode, v.same_evaluation)
