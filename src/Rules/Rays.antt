-- ===== src/Rules/Rays.antt =====
-- The rule of the game, square by square: a disc placed on a square captures, in each direction,
-- the unbroken run of opponent discs that starts beside it and ends beside a disc of the player.
use vibe_othello_engine.Base.{
  ℕ, zero, suc, Bool, true, false, ◌||◌, ◌==◌, if◌then◌else◌, Option, none, some, List, [], ◌∷◌,
}
use vibe_othello_engine.Bits.Digit.{bit}
use vibe_othello_engine.Rules.Compass.{Direction, step}

abbrev pub cons_to : ℕ → Option (List ℕ) → Option (List ℕ)
cons_to s none = none
cons_to s (some l) = some (s ∷ l)

abbrev pub or_nil : Option (List ℕ) → List ℕ
or_nil none = []
or_nil (some l) = l

abbrev pub has_some : Option (List ℕ) → Bool
has_some none = false
has_some (some l) = true

abbrev pub is_nonempty : List ℕ → Bool
is_nonempty [] = false
is_nonempty (s ∷ l) = true

abbrev pub further : ℕ → Option ℕ → (ℕ → Option (List ℕ)) → Option (List ℕ)
further s none next = none
further s (some t) next = cons_to s (next t)

unfoldable pub mem : ℕ → List ℕ → Bool
mem j [] = false
mem j (s ∷ l) = j == s || mem j l

module _ (player opponent_discs : ℕ) (d : Direction) where
  -- The opponent discs from a square on, if a disc of the player ends them within n squares.
  unfoldable pub run : ℕ → ℕ → Option (List ℕ)
  run zero s = none
  run (suc n) s =
      if bit s opponent_discs
      then further s (step d s) (run n)
      else if bit s player
      then some []
      else none

  captures_from : Option ℕ → List ℕ
  captures_from none = []
  captures_from (some t) = or_nil (run 7 t)

  -- A ray has seven squares at most.
  unfoldable pub captures : ℕ → List ℕ
  unfolding captures_from
  captures s = captures_from (step d s)

abbrev pub any_direction : (Direction → Bool) → Bool
any_direction f =
    ((((((f Direction.east || f Direction.west) || f Direction.north) || f Direction.south)
          || f Direction.northeast)
        || f Direction.northwest)
      || f Direction.southeast)
    || f Direction.southwest

module _ (player opponent_discs : ℕ) where
  -- A move to s turns the disc on j over.
  unfoldable pub is_captured : ℕ → ℕ → Bool
  is_captured s j = any_direction (λ d. mem j (captures player opponent_discs d s))

  -- A move to s turns some disc over.
  unfoldable pub is_bracketing : ℕ → Bool
  is_bracketing s = any_direction (λ d. is_nonempty (captures player opponent_discs d s))
