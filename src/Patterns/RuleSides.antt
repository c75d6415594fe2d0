-- ===== src/Patterns/RuleSides.antt =====
-- The rules of src/evaluation_patterns.cpp with the two sides exchanged.
use vibe_othello_engine.Base.{
  ℕ, zero, suc, ◌+◌, ◌*◌, ◌<◌, ◌≡◌, refl, ap, ◌∙◌, arith, Bool, true, false, ◌&&◌, ◌==◌,
  if◌then◌else◌, Bool-cases, inl, inr,
}
use vibe_othello_engine.Base.Int.{
  ℤ, sub_ℕ, pos, negsuc, ◌+ℤ◌, ◌-ℤ◌, ◌*ℤ◌, eqb_ℤ, pos_part, neg_part, int_laws,
}
use vibe_othello_engine.Patterns.Rules.{
  pattern_signed_state, clamp_corner_2x3_pattern_value, corner_2x3_states_value,
  clamp_edge_8_pattern_value, edge_chain, edge_corner_value, all_are, edge_8_cells_value,
}

abbrev pub opposite : ℤ → ℤ
opposite a = pos 0 -ℤ a

-- The state of a square for the other side.
unfoldable pub swap_state : ℕ → ℕ
swap_state state = if state == 1 then 2 else if state == 2 then 1 else state

pub signed-swap_state :
    (s : ℕ) → pattern_signed_state (swap_state s) ≡ opposite (pattern_signed_state s)
unfolding pattern_signed_state swap_state ◌-ℤ◌
signed-swap_state s = ground arith

clamp_corner_2x3-opposite :
    (v : ℤ)
    → clamp_corner_2x3_pattern_value (opposite v) ≡ opposite (clamp_corner_2x3_pattern_value v)
unfolding clamp_corner_2x3_pattern_value ◌-ℤ◌
clamp_corner_2x3-opposite v = ground arith

clamp_edge_8-opposite :
    (v : ℤ) → clamp_edge_8_pattern_value (opposite v) ≡ opposite (clamp_edge_8_pattern_value v)
unfolding clamp_edge_8_pattern_value ◌-ℤ◌
clamp_edge_8-opposite v = ground arith

triple : (a : ℤ) → pos 3 *ℤ a ≡ a +ℤ a +ℤ a
unfolding ◌*ℤ◌ ◌+ℤ◌
triple a = ground arith

free_corner :
    (b c d e b' c' d' e' : ℤ)
    → b' ≡ opposite b
    → c' ≡ opposite c
    → d' ≡ opposite d
    → e' ≡ opposite e
    → clamp_corner_2x3_pattern_value (pos 0 -ℤ (b' +ℤ d') -ℤ pos 3 *ℤ e' -ℤ c')
      ≡ opposite (clamp_corner_2x3_pattern_value (pos 0 -ℤ (b +ℤ d) -ℤ pos 3 *ℤ e -ℤ c))
free_corner b c d e b' c' d' e' hb hc hd he =
    ap clamp_corner_2x3_pattern_value {y = opposite (pos 0 -ℤ (b +ℤ d) -ℤ pos 3 *ℤ e -ℤ c)}
      (rw (hb, hc, hd, he, triple (opposite e), triple e) (omega int_laws))
    ∙ clamp_corner_2x3-opposite _

taken_corner :
    (k b c d f k' b' c' d' f' : ℤ)
    → k' ≡ opposite k
    → b' ≡ opposite b
    → c' ≡ opposite c
    → d' ≡ opposite d
    → f' ≡ opposite f
    → clamp_corner_2x3_pattern_value (k' +ℤ (b' +ℤ d') +ℤ c' +ℤ f')
      ≡ opposite (clamp_corner_2x3_pattern_value (k +ℤ (b +ℤ d) +ℤ c +ℤ f))
taken_corner k b c d f k' b' c' d' f' hk hb hc hd hf =
    ap clamp_corner_2x3_pattern_value {y = opposite (k +ℤ (b +ℤ d) +ℤ c +ℤ f)}
      (rw (hk, hb, hc, hd, hf) (omega int_laws))
    ∙ clamp_corner_2x3-opposite _

pub corner_2x3_states_value-swap_state :
    (a b c d e f : ℕ)
    → a < 3
    → corner_2x3_states_value
        (swap_state a)
        (swap_state b)
        (swap_state c)
        (swap_state d)
        (swap_state e)
        (swap_state f)
      ≡ opposite (corner_2x3_states_value a b c d e f)
unfolding corner_2x3_states_value swap_state
corner_2x3_states_value-swap_state zero b c d e f h =
    free_corner _ _ _ _ _ _ _ _ (signed-swap_state b) (signed-swap_state c) (signed-swap_state d)
      (signed-swap_state e)
corner_2x3_states_value-swap_state (suc zero) b c d e f h =
    taken_corner (pos 0 +ℤ pos 4) _ _ _ _ (pos 0 -ℤ pos 4) _ _ _ _ (omega int_laws)
      (signed-swap_state b) (signed-swap_state c) (signed-swap_state d) (signed-swap_state f)
corner_2x3_states_value-swap_state (suc (suc zero)) b c d e f h =
    taken_corner (pos 0 -ℤ pos 4) _ _ _ _ (pos 0 +ℤ pos 4) _ _ _ _ (omega int_laws)
      (signed-swap_state b) (signed-swap_state c) (signed-swap_state d) (signed-swap_state f)
corner_2x3_states_value-swap_state (suc (suc (suc a))) b c d e f h = absurd (omega arith)

-- A test for equality does not see the sides exchanged.
eqb-opposite : (a b : ℤ) → eqb_ℤ (opposite a) (opposite b) ≡ eqb_ℤ a b
unfolding ◌-ℤ◌
eqb-opposite a b = ground arith

edge_chain-opposite :
    (a b c d e : ℤ)
    → edge_chain (opposite a) (opposite b) (opposite c) (opposite d) (opposite e)
      ≡ edge_chain a b c d e
unfolding edge_chain
edge_chain-opposite a b c d e =
    rw (eqb-opposite b a, eqb-opposite c a, eqb-opposite d a, eqb-opposite e a) refl

zero_opposite : (a : ℤ) → eqb_ℤ (opposite a) (pos 0) ≡ eqb_ℤ a (pos 0)
unfolding ◌-ℤ◌
zero_opposite a = ground arith

pos_part-opposite : (a : ℤ) → pos_part (opposite a) ≡ neg_part a
unfolding ◌-ℤ◌
pos_part-opposite a = ground arith

neg_part-opposite : (a : ℤ) → neg_part (opposite a) ≡ pos_part a
unfolding ◌-ℤ◌
neg_part-opposite a = ground arith

opposite-sub_ℕ : (m n k l : ℕ) → m ≡ l → n ≡ k → sub_ℕ m n ≡ opposite (sub_ℕ k l)
unfolding ◌-ℤ◌
opposite-sub_ℕ m n k l e f = ground (arith, e, f)

opposite-times : (a b : ℤ) → opposite a *ℤ b ≡ opposite (a *ℤ b)
unfolding ◌*ℤ◌
opposite-times a b =
    rw (pos_part-opposite a, neg_part-opposite a)
      (opposite-sub_ℕ (neg_part a * pos_part b + pos_part a * neg_part b)
        (neg_part a * neg_part b + pos_part a * pos_part b)
        (pos_part a * pos_part b + neg_part a * neg_part b)
        (pos_part a * neg_part b + neg_part a * pos_part b) (omega arith) (omega arith))

double : (a : ℤ) → pos 2 *ℤ a ≡ a +ℤ a
unfolding ◌*ℤ◌ ◌+ℤ◌
double a = ground arith

edge_corner_value-opposite :
    (v a b c d e : ℤ)
    → edge_corner_value
        (opposite v)
        (opposite a)
        (opposite b)
        (opposite c)
        (opposite d)
        (opposite e)
      ≡ opposite (edge_corner_value v a b c d e)
unfolding edge_corner_value
edge_corner_value-opposite v a b c d e =
    rw (edge_chain-opposite a b c d e, zero_opposite a, zero_opposite b)
      (elim (Bool-cases (eqb_ℤ a (pos 0))) [
        | inr n ↦ rw n (rw (opposite-times a _) (omega int_laws))
        | inl z ↦ rw z (elim (Bool-cases (eqb_ℤ b (pos 0))) [
          | inl y ↦ rw y (rw (double (opposite b), double b) (omega int_laws))
          | inr y ↦ rw y (rw (double (opposite b), double b) (omega int_laws))
        ])
      ])

is_one : (a : ℤ) → eqb_ℤ (opposite a) (pos 1) ≡ eqb_ℤ a (negsuc 0)
unfolding ◌-ℤ◌
is_one a = ground arith

is_minus : (a : ℤ) → eqb_ℤ (opposite a) (negsuc 0) ≡ eqb_ℤ a (pos 1)
unfolding ◌-ℤ◌
is_minus a = ground arith

all_ones_opposite :
    (a b c d e f g h : ℤ)
    → all_are
        (pos 1)
        (opposite a)
        (opposite b)
        (opposite c)
        (opposite d)
        (opposite e)
        (opposite f)
        (opposite g)
        (opposite h)
      ≡ all_are (negsuc 0) a b c d e f g h
unfolding all_are
all_ones_opposite a b c d e f g h =
    rw (is_one a, is_one b, is_one c, is_one d, is_one e, is_one f, is_one g, is_one h) refl

all_minus_opposite :
    (a b c d e f g h : ℤ)
    → all_are
        (negsuc 0)
        (opposite a)
        (opposite b)
        (opposite c)
        (opposite d)
        (opposite e)
        (opposite f)
        (opposite g)
        (opposite h)
      ≡ all_are (pos 1) a b c d e f g h
unfolding all_are
all_minus_opposite a b c d e f g h =
    rw
      (
        is_minus a,
        is_minus b,
        is_minus c,
        is_minus d,
        is_minus e,
        is_minus f,
        is_minus g,
        is_minus h,
      )
      refl

not_both :
    (a b c d e f g h : ℤ)
    → all_are (pos 1) a b c d e f g h ≡ true
    → all_are (negsuc 0) a b c d e f g h ≡ false
unfolding all_are
not_both a b c d e f g h t = ground (arith, t)

-- The bonus of a full edge.
full_edge :
    (x : ℤ) (ones minus : Bool)
    → (ones ≡ true → minus ≡ false)
    → (if minus then opposite x +ℤ pos 3 else if ones then opposite x -ℤ pos 3 else opposite x)
      ≡ opposite (if ones then x +ℤ pos 3 else if minus then x -ℤ pos 3 else x)
full_edge x true true h = absurd (ground (arith, h refl))
full_edge x true false h = omega int_laws
full_edge x false true h = omega int_laws
full_edge x false false h = refl

open_edge :
    (x b c d e f g : ℤ) (free : Bool)
    → (if free
        then opposite x
          -ℤ (opposite b +ℤ opposite c +ℤ opposite d +ℤ opposite e +ℤ opposite f +ℤ opposite g)
        else opposite x)
      ≡ opposite (if free then x -ℤ (b +ℤ c +ℤ d +ℤ e +ℤ f +ℤ g) else x)
open_edge x b c d e f g true = omega int_laws
open_edge x b c d e f g false = refl

corners_opposite : (a h : ℤ) → pos 2 *ℤ (opposite a +ℤ opposite h) ≡ opposite (pos 2 *ℤ (a +ℤ h))
corners_opposite a h = rw (double (opposite a +ℤ opposite h), double (a +ℤ h)) (omega int_laws)

pub edge_8_cells_value-opposite :
    (a b c d e f g h : ℤ)
    → edge_8_cells_value
        (opposite a)
        (opposite b)
        (opposite c)
        (opposite d)
        (opposite e)
        (opposite f)
        (opposite g)
        (opposite h)
      ≡ opposite (edge_8_cells_value a b c d e f g h)
unfolding edge_8_cells_value
edge_8_cells_value-opposite a b c d e f g h =
    let corners = pos 2 *ℤ (a +ℤ h) in
    let left = edge_corner_value corners a b c d e in
    let right = edge_corner_value left h g f e d in
    rw
      (
        corners_opposite a h,
        edge_corner_value-opposite corners a b c d e,
        edge_corner_value-opposite left h g f e d,
        zero_opposite a,
        zero_opposite h,
        open_edge right b c d e f g (eqb_ℤ a (pos 0) && eqb_ℤ h (pos 0)),
        all_ones_opposite a b c d e f g h,
        all_minus_opposite a b c d e f g h,
        full_edge _ (all_are (pos 1) a b c d e f g h) (all_are (negsuc 0) a b c d e f g h)
            (not_both a b c d e f g h),
      )
      (clamp_edge_8-opposite _)
