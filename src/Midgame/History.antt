-- ===== src/Midgame/History.antt =====
-- The history stays between 0 and its cap, the two killers of a depth differ, and what both add to
-- the score of a move is small.
use mathlib.Core.Path.{subst}
use native.Mathlib.Nat.{mul-le-mul}
use vibe_othello_engine.Base.{
  ℕ, zero, suc, ◌*◌, ◌≤◌, ◌≡◌, refl, arith, false, List, [], ◌∷◌, map, get_or, AllOf, AllOf-set,
  AllOf-get_or, some_injective, Bool-cases, inl, inr,
}
use vibe_othello_engine.Base.Int.{ℤ, pos, negsuc, ◌≤ℤ◌, ◌+ℤ◌, ◌-ℤ◌, ◌*ℤ◌, ltb_ℤ, eqb_ℤ}
use vibe_othello_engine.Base.Int32.{wrap_int, wrap_int-IsInt}
use vibe_othello_engine.Midgame.Table.{max_ℤ}
use vibe_othello_engine.Midgame.Aspiration.{half}
use vibe_othello_engine.Midgame.Order.{
  HistoryKillerOrderingParams, default_history_killer_ordering_params, Killers, no_killers,
  HistoryKillerState, depth_bucket, depth_history_increment, decay_history, min_ℤ, index_of_move,
  is_off_board, add_history, record_history_cutoff, push_killer, record_killer_cutoff, killer_bonus,
  history_killer_bonus, record_history_killer_cutoff,
}

pub record IsBetween (cap v : ℤ) : Type 0 where
  pub not_negative : pos 0 ≤ℤ v
  pub not_above : v ≤ℤ cap

-- The second killer is another move than the first, unless there is no first.
abbrev pub AreDistinct : Killers → Type 0
AreDistinct killers =
    eqb_ℤ killers.first (negsuc 0) ≡ false → eqb_ℤ killers.first killers.second ≡ false

pub record IsHistory (cap : ℤ) (state : HistoryKillerState) : Type 0 where
  pub bounded : AllOf (IsBetween cap) state.history
  pub distinct : AllOf AreDistinct state.killer_moves

half-IsBetween : (cap v : ℤ) → IsBetween cap v → IsBetween cap (half v)
unfolding half
half-IsBetween cap (pos n) v = record {
  not_negative = omega arith;
  not_above = omega (arith, v.not_above);
}
half-IsBetween cap (negsuc n) v = absurd (omega (arith, v.not_negative))

map-half : (cap : ℤ) (xs : List ℤ) → AllOf (IsBetween cap) xs → AllOf (IsBetween cap) (map half xs)
map-half cap [] all j e g = absurd (ground (arith, g))
map-half cap (x ∷ xs) all zero e g =
    subst (IsBetween cap) (some_injective (half x) e g) (half-IsBetween cap x (all 0 x refl))
map-half cap (x ∷ xs) all (suc j) e g = map-half cap xs (λ k o h. all (suc k) o h) j e g

product_lem :
    (depth : ℤ)
    → depth ≤ℤ pos 46340
    → (m : ℕ) × (max_ℤ depth (pos 1) *ℤ max_ℤ depth (pos 1) ≡ pos (m * m)) × (m ≤ 46340)
unfolding max_ℤ ◌*ℤ◌
product_lem (negsuc n) h = (1, ground arith, omega arith)
product_lem (pos zero) h = (1, ground arith, omega arith)
product_lem (pos (suc n)) h = (suc n, ground arith, omega arith)

-- Up to the depth 46340, the square of the depth is an `int`.
increment-IsBetween :
    (depth : ℤ)
    → depth ≤ℤ pos 46340
    → IsBetween (pos (46340 * 46340)) (depth_history_increment depth)
unfolding depth_history_increment
increment-IsBetween depth h =
    let (m, e, small) = product_lem depth h in
    let square : m * m ≤ 46340 * 46340 = mul-le-mul small small in
    let whole =
      wrap_int-IsInt (pos (m * m))
        (record { below = omega (arith, square); above = omega arith }) in
    rw (depth_history_increment, e, whole)
      (record { not_negative = omega arith; not_above = omega (arith, square) })

sum-IsBetween :
    (cap v i : ℤ)
    → pos 0 ≤ℤ cap
    → cap ≤ℤ pos 88047
    → IsBetween cap v
    → IsBetween (pos (46340 * 46340)) i
    → IsBetween cap (min_ℤ (wrap_int (v +ℤ i)) cap)
unfolding min_ℤ ◌+ℤ◌
sum-IsBetween cap v i c small b p =
    let whole : wrap_int (v +ℤ i) ≡ v +ℤ i = wrap_int-IsInt (v +ℤ i) (record {
      below = ground (arith, small, b.not_above, b.not_negative, p.not_above, p.not_negative);
      above = ground (arith, b.not_negative, p.not_negative);
    }) in
    rw whole (record {
      not_negative = ground (arith, c, b.not_negative, p.not_negative);
      not_above = ground (arith, c, b.not_negative, p.not_negative);
    })

push_killer-AreDistinct :
    (move : ℤ) (killers : Killers) → AreDistinct killers → AreDistinct (push_killer move killers)
unfolding push_killer
push_killer-AreDistinct move killers d = elim (Bool-cases (eqb_ℤ killers.first move)) [
  | inl same ↦ rw same d
  | inr other ↦ elim (Bool-cases (eqb_ℤ killers.second move)) [
    | inl swaps ↦ rw (other, swaps) (λ h. ground (arith, other, swaps))
    | inr shifts ↦ rw (other, shifts) (λ h. ground (arith, other))
  ]
]

module _ (params : HistoryKillerOrderingParams) (cap : pos 0 ≤ℤ params.history_cap)
    (cap_small : params.history_cap ≤ℤ pos 88047) where
  abbrev Bounded : List ℤ → Type 0
  Bounded = AllOf (IsBetween params.history_cap)

  add_history-Bounded :
      (state : HistoryKillerState) (index : ℕ) (increment : ℤ)
      → IsBetween (pos (46340 * 46340)) increment
      → Bounded state.history
      → Bounded (add_history state index increment params.history_cap).history
  unfolding add_history
  add_history-Bounded state index increment p all =
      AllOf-set (IsBetween params.history_cap) state.history index _ all (
        sum-IsBetween _ _ _ cap cap_small
          (AllOf-get_or (IsBetween params.history_cap) state.history index (pos 0) all
            (record { not_negative = omega arith; not_above = cap }))
          p)

  record_history_cutoff-Bounded :
      (state : HistoryKillerState) (move depth : ℤ)
      → depth ≤ℤ pos 46340
      → Bounded state.history
      → Bounded (record_history_cutoff state move depth params).history
  unfolding record_history_cutoff decay_history
  record_history_cutoff-Bounded state move depth low all =
      let increment = depth_history_increment depth in
      let p = increment-IsBetween depth low in
      elim (Bool-cases (is_off_board move)) [
        | inl off ↦ rw off all
        | inr on ↦
            rw on
              (elim (Bool-cases (
                ltb_ℤ (wrap_int (params.history_cap -ℤ increment))
                  (get_or state.history (index_of_move move) (pos 0)))) [
                    | inl decays ↦
                        rw decays
                          (add_history-Bounded (decay_history state) _ _ p (map-half _ _ all))
                    | inr keeps ↦ rw keeps (add_history-Bounded state _ _ p all)
                  ])
      ]

  record_killer_cutoff-AreDistinct :
      (state : HistoryKillerState) (move depth : ℤ)
      → AllOf AreDistinct state.killer_moves
      → AllOf AreDistinct (record_killer_cutoff state move depth).killer_moves
  unfolding record_killer_cutoff
  record_killer_cutoff-AreDistinct state move depth all = elim (Bool-cases (is_off_board move)) [
    | inl off ↦ rw off all
    | inr on ↦ rw on (
        AllOf-set AreDistinct state.killer_moves (depth_bucket depth) _ all (
          push_killer-AreDistinct move _ (
            AllOf-get_or AreDistinct state.killer_moves (depth_bucket depth) no_killers all
              (λ h. absurd (ground (arith, h))))))
  ]

  killers_kept :
      (state : HistoryKillerState) (move depth : ℤ)
      → (record_history_cutoff state move depth params).killer_moves ≡ state.killer_moves
  unfolding record_history_cutoff add_history decay_history
  killers_kept state move depth = elim (Bool-cases (is_off_board move)) [
    | inl off ↦ rw off refl
    | inr on ↦
        rw on
          (elim (Bool-cases (
            ltb_ℤ (wrap_int (params.history_cap -ℤ depth_history_increment depth))
              (get_or state.history (index_of_move move) (pos 0)))) [
                | inl decays ↦ rw decays refl
                | inr keeps ↦ rw keeps refl
              ])
  ]

  history_kept :
      (state : HistoryKillerState) (move depth : ℤ)
      → (record_killer_cutoff state move depth).history ≡ state.history
  unfolding record_killer_cutoff
  history_kept state move depth = elim (Bool-cases (is_off_board move)) [
    | inl off ↦ rw off refl
    | inr on ↦ rw on refl
  ]

  -- With a cap between 0 and 88047, recording a cutoff of any move at a depth of at most 46340 keeps
  -- every history value between 0 and the cap, in the arithmetic of 32 bits, and the two killers of
  -- each depth distinct when there is a first.
  pub record_history_killer_cutoff-IsHistory :
      (state : HistoryKillerState) (move depth : ℤ)
      → depth ≤ℤ pos 46340
      → IsHistory params.history_cap state
      → IsHistory params.history_cap (record_history_killer_cutoff state move depth params)
  unfolding record_history_killer_cutoff
  record_history_killer_cutoff-IsHistory state move depth low v = record {
    bounded =
        rw (history_kept (record_history_cutoff state move depth params) move depth)
          (record_history_cutoff-Bounded state move depth low v.bounded);
    distinct =
        record_killer_cutoff-AreDistinct (record_history_cutoff state move depth params) move depth
          (rw (killers_kept state move depth) v.distinct);
  }

small_sum :
    (v : ℤ) (killers : Killers) (move : ℤ)
    → IsBetween (pos 96) v
    → IsBetween
        (pos 20)
        (min_ℤ v (pos 12) +ℤ killer_bonus killers move default_history_killer_ordering_params)
unfolding min_ℤ killer_bonus ◌+ℤ◌
small_sum v killers move b = record {
  not_negative = ground (arith, b.not_negative);
  not_above = ground (arith, b.not_negative);
}

-- With the default parameters the bonus of a move is between 0 and 20.
pub history_killer_bonus-IsBetween :
    (state : HistoryKillerState) (move depth : ℤ)
    → IsHistory (pos 96) state
    → IsBetween
        (pos 20)
        (history_killer_bonus state move depth default_history_killer_ordering_params)
unfolding history_killer_bonus
history_killer_bonus-IsBetween state move depth v = elim (Bool-cases (is_off_board move)) [
  | inl off ↦ rw off (record { not_negative = omega arith; not_above = omega arith })
  | inr on ↦ rw on (
      small_sum _ _ move (
        AllOf-get_or (IsBetween (pos 96)) state.history (index_of_move move) (pos 0) v.bounded
          (record { not_negative = omega arith; not_above = omega arith })))
]
