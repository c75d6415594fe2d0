-- ===== src/Rules/Generate.antt =====
-- `legal_moves_in_direction`: flooding from the player's discs finds the squares from which a
-- ray against the direction captures something.
use vibe_othello_engine.Base.{
  ℕ, zero, suc, bit_or, bit_and, ◌≡◌, refl, ap, ◌∙◌, arith, Bool, true, false, ◌&&◌, ◌||◌,
  if◌then◌else◌, Option, none, some, List, ◌<◌, Bool-cases, inl, inr,
}
use vibe_othello_engine.Bits.Digit.{bit, bit-and, bit-or}
use vibe_othello_engine.Bits.U64.{IsWord, bit_or-IsWord, bit_and-IsWord_right}
use vibe_othello_engine.Rules.Compass.{
  Direction, step, on, reverse, shift_of, bit-shift_of, on_congr, step_cases, Option-cases,
}
use vibe_othello_engine.Rules.Rays.{run, captures, has_some, is_nonempty, or_nil, cons_to, further}
use vibe_othello_engine.Rules.Moves.{extend_captured, legal_moves_in_direction}

-- No square holds a disc of both sides.
abbrev pub IsDisjoint : ℕ → ℕ → Type 0
IsDisjoint p o = (i : ℕ) → (bit i p && bit i o) ≡ false

has_some-cons_to : (t : ℕ) (l : Option (List ℕ)) → has_some (cons_to t l) ≡ has_some l
has_some-cons_to t none = refl
has_some-cons_to t (some l) = refl

has_some-further :
    (t : ℕ) (there : Option ℕ) (next : ℕ → Option (List ℕ))
    → has_some (further t there next) ≡ on there (λ u. has_some (next u))
has_some-further t none next = refl
has_some-further t (some u) next = has_some-cons_to t (next u)

module _ (p o : ℕ) (d : Direction) where
  nonempty_further :
      (t : ℕ) (there : Option ℕ) (next : ℕ → Option (List ℕ))
      → is_nonempty (or_nil (further t there next)) ≡ has_some (further t there next)
  nonempty_further t none next = refl
  nonempty_further t (some u) next = nonempty_cons (next u)
    where
      nonempty_cons :
          (l : Option (List ℕ)) → is_nonempty (or_nil (cons_to t l)) ≡ has_some (cons_to t l)
      nonempty_cons none = refl
      nonempty_cons (some l) = refl

  nonempty_run :
      (n t : ℕ)
      → is_nonempty (or_nil (run p o d (suc n) t)) ≡ (bit t o && has_some (run p o d (suc n) t))
  unfolding run
  nonempty_run n t = ground (arith, nonempty_further t (step d t) (run p o d n))

  pub nonempty_captures :
      (s : ℕ)
      → is_nonempty (captures p o d s) ≡ on (step d s) (λ t. bit t o && has_some (run p o d 7 t))
  unfolding captures
  nonempty_captures s = elim (Option-cases (step d s)) [
    | inl off ↦ rw off
    | inr (t, there) ↦ rw there (nonempty_run 6 t)
  ]

module _ (p o : ℕ) (d : Direction) (wp : IsWord p) (wo : IsWord o) where
  abbrev grow : ℕ → ℕ
  grow c = bit_or c (bit_and (shift_of d c) o)

  grow-IsWord : (c : ℕ) → IsWord c → IsWord (grow c)
  grow-IsWord c w = bit_or-IsWord c _ w (bit_and-IsWord_right _ o wo)

  extend-grow :
      (n c : ℕ)
      → extend_captured (shift_of d) n o (grow c) ≡ grow (extend_captured (shift_of d) n o c)
  unfolding extend_captured
  extend-grow zero c = refl
  extend-grow (suc n) c = extend-grow n (grow c)

  extend-IsWord : (n c : ℕ) → IsWord c → IsWord (extend_captured (shift_of d) n o c)
  unfolding extend_captured
  extend-IsWord zero c w = w
  extend-IsWord (suc n) c w = extend-IsWord n (grow c) (grow-IsWord c w)

  abbrev seed : ℕ
  seed = bit_and (shift_of d p) o

  seed-IsWord : IsWord seed
  seed-IsWord = bit_and-IsWord_right _ o wo

  -- The squares that n rounds of the flood reach.
  anchored : ℕ → ℕ → Bool
  anchored zero t = bit t o && on (step (reverse d) t) (λ u. bit u p)
  anchored (suc n) t = anchored n t || bit t o && on (step (reverse d) t) (anchored n)

  extend-anchored :
      (n t : ℕ) → t < 64 → bit t (extend_captured (shift_of d) n o seed) ≡ anchored n t
  unfolding extend_captured anchored
  extend-anchored zero t h = bit-and t (shift_of d p) o ∙ ground (arith, bit-shift_of p t wp h d)
  extend-anchored (suc n) t h =
      let flood = extend_captured (shift_of d) n o seed in
      let w : IsWord flood = extend-IsWord n seed seed-IsWord in
      ap (bit t) (extend-grow n seed)
      ∙ bit-or t flood _
      ∙ ground (
        arith,
        extend-anchored n t h,
        bit-and t (shift_of d flood) o,
        bit-shift_of flood t w h d,
        on_congr (reverse d) t (λ u. bit u flood) (anchored n) h (extend-anchored n),
      )

  module _ (disjoint : IsDisjoint p o) where
    abbrev back : Direction
    back = reverse d

    -- Within n squares against the direction the opponent's discs end at one of the player's.
    abbrev closes : ℕ → ℕ → Bool
    closes n t = has_some (run p o back n t)

    closes-suc :
        (n t : ℕ) → closes (suc n) t ≡ (if bit t o then on (step back t) (closes n) else bit t p)
    unfolding run
    closes-suc n t = elim (Bool-cases (bit t o)) [
      | inr off ↦ rw off (ground arith)
      | inl opp ↦ rw opp (has_some-further t (step back t) (run p o back n))
    ]

    none_runs : (t : ℕ) → closes 0 t ≡ false
    unfolding run
    none_runs t = refl

    last_square : (u : ℕ) → closes 1 u ≡ (if bit u o then false else bit u p)
    last_square u = closes-suc 0 u ∙ ground (arith, none_after (step back u))
      where
        none_after : (there : Option ℕ) → on there (closes 0) ≡ false
        none_after none = refl
        none_after (some t) = none_runs t

    closes_mono : (n t : ℕ) → t < 64 → closes n t ≡ true → closes (suc n) t ≡ true
    closes_mono zero t h e = cc (none_runs t)
    closes_mono (suc n) t h e = elim (step_cases back t h) [
      | inl off ↦ ground (arith, closes-suc n t, closes-suc (suc n) t)
      | inr (u, there, lt, _) ↦
          ground (arith, closes-suc n t, closes-suc (suc n) t, closes_mono n u lt)
    ]

    one_more :
        (n t : ℕ)
        → t < 64
        → (closes (suc n) t || bit t o && closes (suc (suc n)) t) ≡ closes (suc (suc n)) t
    one_more n t h = ground (arith, closes-suc n t, closes-suc (suc n) t, closes_mono (suc n) t h)

    anchored-closes : (n t : ℕ) → t < 64 → anchored n t ≡ (bit t o && closes (suc (suc n)) t)
    unfolding anchored
    anchored-closes zero t h = elim (step_cases back t h) [
      | inl off ↦ ground (arith, closes-suc 1 t)
      | inr (u, there, lt, _) ↦ ground (arith, closes-suc 1 t, last_square u, disjoint u)
    ]
    anchored-closes (suc n) t h = elim (step_cases back t h) [
      | inl off ↦
          ground (arith, anchored-closes n t h, closes-suc (suc n) t, closes-suc (suc (suc n)) t)
      | inr (u, there, lt, _) ↦ ground (
        arith,
        anchored-closes n t h,
        anchored-closes n u lt,
        closes-suc (suc n) t,
        closes-suc (suc (suc n)) t,
        one_more n u lt,
      )
    ]

  -- The generated moves are the empty squares with something to capture against the direction.
  pub bit-legal_moves_in_direction :
      (empty_squares s : ℕ)
      → IsDisjoint p o
      → s < 64
      → bit s (legal_moves_in_direction (shift_of d) p o empty_squares)
        ≡ (bit s empty_squares && is_nonempty (captures p o (reverse d) s))
  unfolding legal_moves_in_direction
  bit-legal_moves_in_direction empty_squares s disjoint h =
      let flood = extend_captured (shift_of d) 5 o seed in
      bit-and s (shift_of d flood) empty_squares
      ∙ ground (
        arith,
        bit-shift_of flood s (extend-IsWord 5 seed seed-IsWord) h d,
        on_congr (reverse d) s (λ t. bit t flood) (λ t. bit t o && closes disjoint 7 t) h
            (λ t lt. extend-anchored 5 t lt ∙ anchored-closes disjoint 5 t lt),
        nonempty_captures p o (reverse d) s,
      )
