-- ===== src/Rules/Compass.antt =====
-- The eight directions by file and rank, as the rules of the game state them, and what each
-- shift of a bitboard does to a square.
use vibe_othello_engine.Base.{
  ℕ, zero, suc, ◌+◌, ◌-◌, ◌*◌, ◌/◌, ◌%◌, ◌<◌, bit_and, ◌≡◌, refl, sym, ap, ◌∙◌, arith, Bool, true,
  false, ◌&&◌, ◌==◌, ltb, leb, if◌then◌else◌, Option, none, some, Bool-cases, ◌⊎◌, inl, inr,
}
use vibe_othello_engine.Bits.Digit.{bit, bit-and}
use vibe_othello_engine.Bits.U64.{
  IsWord, shift_left, shift_right, bit-shift_left_word, bit-shift_left_word_low,
  bit-shift_right_word, bit_outside, bit_and-IsWord, shift_left-IsWord, shift_right-IsWord,
  complement, word_mod, word_ext,
}
use vibe_othello_engine.Rules.Shift.{
  not_a_file, not_h_file, shift_east, shift_west, shift_north, shift_south, shift_northeast,
  shift_northwest, shift_southeast, shift_southwest,
}

pub data Direction : Type 0 where
  east west north south northeast northwest southeast southwest : Direction

-- A change of a file or a rank by one, on the board.
pub data Delta : Type 0 where
  minus same plus : Delta

nudge : Delta → ℕ → Option ℕ
nudge Delta.minus zero = none
nudge Delta.minus (suc x) = some x
nudge Delta.same x = some x
nudge Delta.plus x = if ltb x 7 then some (x + 1) else none

file_delta : Direction → Delta
file_delta Direction.east = Delta.plus
file_delta Direction.northeast = Delta.plus
file_delta Direction.southeast = Delta.plus
file_delta Direction.west = Delta.minus
file_delta Direction.northwest = Delta.minus
file_delta Direction.southwest = Delta.minus
file_delta Direction.north = Delta.same
file_delta Direction.south = Delta.same

rank_delta : Direction → Delta
rank_delta Direction.north = Delta.plus
rank_delta Direction.northeast = Delta.plus
rank_delta Direction.northwest = Delta.plus
rank_delta Direction.south = Delta.minus
rank_delta Direction.southeast = Delta.minus
rank_delta Direction.southwest = Delta.minus
rank_delta Direction.east = Delta.same
rank_delta Direction.west = Delta.same

square_at : Option ℕ → Option ℕ → Option ℕ
square_at none r = none
square_at (some f) none = none
square_at (some f) (some r) = some (r * 8 + f)

-- The neighbour of a square, if it is on the board.
unfoldable pub step : Direction → ℕ → Option ℕ
unfolding nudge file_delta rank_delta square_at
step d s = square_at (nudge (file_delta d) (s % 8)) (nudge (rank_delta d) (s / 8))

unfoldable pub reverse : Direction → Direction
reverse Direction.east = Direction.west
reverse Direction.west = Direction.east
reverse Direction.north = Direction.south
reverse Direction.south = Direction.north
reverse Direction.northeast = Direction.southwest
reverse Direction.southwest = Direction.northeast
reverse Direction.northwest = Direction.southeast
reverse Direction.southeast = Direction.northwest

unfoldable pub shift_of : Direction → ℕ → ℕ
shift_of Direction.east = shift_east
shift_of Direction.west = shift_west
shift_of Direction.north = shift_north
shift_of Direction.south = shift_south
shift_of Direction.northeast = shift_northeast
shift_of Direction.northwest = shift_northwest
shift_of Direction.southeast = shift_southeast
shift_of Direction.southwest = shift_southwest

-- A test of a square that may be off the board.
abbrev pub on : Option ℕ → (ℕ → Bool) → Bool
on none p = false
on (some s) p = p s

-- A test that holds of every number below a bound, found by running it.
unfoldable pub holds_below : (ℕ → Bool) → ℕ → Bool
holds_below test zero = true
holds_below test (suc bound) = if test bound then holds_below test bound else false

pub test_of_holds_below :
    (test : ℕ → Bool) (bound i : ℕ) → i < bound → holds_below test bound ≡ true → test i ≡ true
unfolding holds_below
test_of_holds_below test zero i lt run = absurd (omega arith)
test_of_holds_below test (suc bound) i lt run = elim (Bool-cases (test bound)) [
  | inl passes ↦ ground (arith, test_of_holds_below test bound i)
  | inr fails ↦ ground arith
]

same_square : Option ℕ → Option ℕ → Bool
same_square none none = true
same_square (some a) (some b) = a == b
same_square _ _ = false

same_square_sound : (a b : Option ℕ) → same_square a b ≡ true → a ≡ b
unfolding same_square
same_square_sound none none h = refl
same_square_sound none (some b) h = cc
same_square_sound (some a) none h = cc
same_square_sound (some a) (some b) h = ground arith

-- Where the digit j of `(x & mask) << k`, and of `(x & mask) >> k`, comes from.
from_left : ℕ → ℕ → ℕ → Option ℕ
from_left mask k j = if leb k j && bit (j - k) mask then some (j - k) else none

from_right : ℕ → ℕ → ℕ → Option ℕ
from_right mask k j = if ltb (j + k) 64 && bit (j + k) mask then some (j + k) else none

abbrev agree : (ℕ → Option ℕ) → (ℕ → Option ℕ) → Bool
agree f g = holds_below (λ j. same_square (f j) (g j)) 64

agree_sound : (f g : ℕ → Option ℕ) (j : ℕ) → agree f g ≡ true → j < 64 → f j ≡ g j
agree_sound f g j h lt =
    same_square_sound (f j) (g j) (test_of_holds_below (λ i. same_square (f i) (g i)) 64 j lt h)

left_lem :
    (mask k x j : ℕ)
    → j < 64
    → bit j (shift_left (bit_and x mask) k) ≡ on (from_left mask k j) (λ i. bit i x)
unfolding from_left
left_lem mask k x j h = elim (Bool-cases (leb k j)) [
  | inl up ↦
      let e : j - k + k ≡ j = ground arith in
      let shifted = bit-shift_left_word (j - k) k (bit_and x mask) in
      rw e at shifted ∙ ground (arith, bit-and (j - k) x mask)
  | inr low ↦ bit-shift_left_word_low j k (bit_and x mask) (ground arith) ∙ ground arith
]

right_lem :
    (mask k x j : ℕ)
    → IsWord x
    → bit j (shift_right (bit_and x mask) k) ≡ on (from_right mask k j) (λ i. bit i x)
unfolding from_right
right_lem mask k x j w = ground (
  arith,
  bit-shift_right_word j k (bit_and x mask),
  bit-and (j + k) x mask,
  bit_outside (j + k) x w,
)

all_ones : (x : ℕ) → IsWord x → bit_and x (word_mod - 1) ≡ x
unfolding holds_below bit
all_ones x w = word_ext (bit_and-IsWord x _ w) w (λ i h.
    bit-and i x (word_mod - 1)
    ∙ ground (arith, test_of_holds_below (λ j. bit j (word_mod - 1)) 64 i h refl))

module _ (x j : ℕ) (w : IsWord x) (h : j < 64) where
  abbrev from : Option ℕ → Bool
  from o = on o (λ i. bit i x)

  -- A square of a shifted board is that of its neighbour against the direction.
  pub bit-shift_of : (d : Direction) → bit j (shift_of d x) ≡ from (step (reverse d) j)
  unfolding shift_of reverse shift_east shift_west shift_north shift_south shift_northeast
      shift_northwest shift_southeast shift_southwest from_left from_right bit step same_square
      holds_below not_a_file not_h_file complement
  bit-shift_of Direction.east =
      left_lem not_h_file 1 x j h
      ∙ ap from (agree_sound (from_left not_h_file 1) (step Direction.west) j refl h)
  bit-shift_of Direction.northeast =
      left_lem not_h_file 9 x j h
      ∙ ap from (agree_sound (from_left not_h_file 9) (step Direction.southwest) j refl h)
  bit-shift_of Direction.northwest =
      left_lem not_a_file 7 x j h
      ∙ ap from (agree_sound (from_left not_a_file 7) (step Direction.southeast) j refl h)
  bit-shift_of Direction.north =
      ap (λ y. bit j (shift_left y 8)) (sym (all_ones x w))
      ∙ left_lem (word_mod - 1) 8 x j h
      ∙ ap from (agree_sound (from_left (word_mod - 1) 8) (step Direction.south) j refl h)
  bit-shift_of Direction.west =
      right_lem not_a_file 1 x j w
      ∙ ap from (agree_sound (from_right not_a_file 1) (step Direction.east) j refl h)
  bit-shift_of Direction.southeast =
      right_lem not_h_file 7 x j w
      ∙ ap from (agree_sound (from_right not_h_file 7) (step Direction.northwest) j refl h)
  bit-shift_of Direction.southwest =
      right_lem not_a_file 9 x j w
      ∙ ap from (agree_sound (from_right not_a_file 9) (step Direction.northeast) j refl h)
  bit-shift_of Direction.south =
      ap (λ y. bit j (shift_right y 8)) (sym (all_ones x w))
      ∙ right_lem (word_mod - 1) 8 x j w
      ∙ ap from (agree_sound (from_right (word_mod - 1) 8) (step Direction.north) j refl h)

pub shift_of-IsWord : (d : Direction) (x : ℕ) → IsWord x → IsWord (shift_of d x)
unfolding shift_of shift_east shift_west shift_north shift_south shift_northeast shift_northwest
    shift_southeast shift_southwest
shift_of-IsWord Direction.east x w = shift_left-IsWord _ 1
shift_of-IsWord Direction.northeast x w = shift_left-IsWord _ 9
shift_of-IsWord Direction.northwest x w = shift_left-IsWord _ 7
shift_of-IsWord Direction.north x w = shift_left-IsWord _ 8
shift_of-IsWord Direction.west x w = shift_right-IsWord _ 1 (bit_and-IsWord x _ w)
shift_of-IsWord Direction.southeast x w = shift_right-IsWord _ 7 (bit_and-IsWord x _ w)
shift_of-IsWord Direction.southwest x w = shift_right-IsWord _ 9 (bit_and-IsWord x _ w)
shift_of-IsWord Direction.south x w = shift_right-IsWord x 8 w

returns : Direction → ℕ → Bool
returns d s = elim (step d s) [
  | none ↦ true
  | some t ↦ same_square (step (reverse d) t) (some s) && ltb t 64
]

returns_all : (d : Direction) → holds_below (returns d) 64 ≡ true
unfolding holds_below returns step reverse same_square
returns_all Direction.east = refl
returns_all Direction.west = refl
returns_all Direction.north = refl
returns_all Direction.south = refl
returns_all Direction.northeast = refl
returns_all Direction.northwest = refl
returns_all Direction.southeast = refl
returns_all Direction.southwest = refl

returns_lem :
    (d : Direction) (s t : ℕ)
    → returns d s ≡ true
    → step d s ≡ some t
    → (step (reverse d) t ≡ some s) × (t < 64)
unfolding returns
returns_lem d s t r e =
    let facts : (same_square (step (reverse d) t) (some s) ≡ true) × (ltb t 64 ≡ true) =
      ground arith in
    (same_square_sound _ _ facts.0, ground arith)

-- A step leads to a square of the board, and the opposite step leads back.
pub step_back :
    (d : Direction) (s t : ℕ)
    → s < 64
    → step d s ≡ some t
    → (step (reverse d) t ≡ some s) × (t < 64)
step_back d s t h e = returns_lem d s t (test_of_holds_below (returns d) 64 s h (returns_all d)) e

pub reverse-reverse : (d : Direction) → reverse (reverse d) ≡ d
unfolding reverse
reverse-reverse Direction.east = refl
reverse-reverse Direction.west = refl
reverse-reverse Direction.north = refl
reverse-reverse Direction.south = refl
reverse-reverse Direction.northeast = refl
reverse-reverse Direction.northwest = refl
reverse-reverse Direction.southeast = refl
reverse-reverse Direction.southwest = refl

pub Option-cases : (o : Option ℕ) → (o ≡ none) ⊎ ((t : ℕ) × (o ≡ some t))
Option-cases none = inl refl
Option-cases (some t) = inr (t, refl)

-- The neighbour of a square, or none, with what is known of it.
pub step_cases :
    (d : Direction) (s : ℕ)
    → s < 64
    → (step d s ≡ none) ⊎ ((t : ℕ) × (step d s ≡ some t) × (t < 64) × (step (reverse d) t ≡ some s))
step_cases d s h = elim (Option-cases (step d s)) [
  | inl e ↦ inl e
  | inr (t, e) ↦ inr (t, e, (step_back d s t h e).1, (step_back d s t h e).0)
]

pub on_congr :
    (d : Direction) (s : ℕ) (f g : ℕ → Bool)
    → s < 64
    → ((t : ℕ) → t < 64 → f t ≡ g t)
    → on (step d s) f ≡ on (step d s) g
on_congr d s f g h e = elim (step_cases d s h) [
  | inl off ↦ rw off
  | inr (t, there, lt, back) ↦ rw there (e t lt)
]
