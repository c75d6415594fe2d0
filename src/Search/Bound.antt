-- ===== src/Search/Bound.antt =====
-- src/tt_common.hpp: what a stored score says of the exact one, and the number of buckets.
use vibe_othello_engine.Base.{
  ℕ, zero, suc, ◌+◌, ◌-◌, ◌*◌, ◌/◌, ◌≡◌, Bool, true, not, ◌||◌, ◌==◌, leb, if◌then◌else◌,
}
use vibe_othello_engine.Base.Int.{ℤ, ◌≤ℤ◌, ltb_ℤ}

pub data BoundKind : Type 0 where
  exact : BoundKind
  lower : BoundKind
  upper : BoundKind

unfoldable pub bound_for_score : ℤ → ℤ → ℤ → BoundKind
bound_for_score score original_alpha beta =
    if not (ltb_ℤ original_alpha score)
    then BoundKind.upper
    else if not (ltb_ℤ score beta)
    then BoundKind.lower
    else BoundKind.exact

unfoldable pub proves_cutoff : BoundKind → ℤ → ℤ → ℤ → Bool
proves_cutoff BoundKind.exact score alpha beta = true
proves_cutoff BoundKind.lower score alpha beta = not (ltb_ℤ score beta)
proves_cutoff BoundKind.upper score alpha beta = not (ltb_ℤ alpha score)

-- `std::bit_ceil`: the least power of two that is not below n, doubling from p. The standard leaves it
-- undefined when this is no `std::size_t`, for n above 2 ^ 63, where nothing is stated of it.
unfoldable pub bit_ceil_from : ℕ → ℕ → ℕ → ℕ
bit_ceil_from zero p n = p
bit_ceil_from (suc fuel) p n =
    let rest = bit_ceil_from fuel (2 * p) n in if leb n p then p else rest

unfoldable pub bit_ceil : ℕ → ℕ
bit_ceil n = bit_ceil_from 63 1 n

unfoldable pub bucket_count_for_entry_count : ℕ → ℕ → ℕ
bucket_count_for_entry_count entry_count bucket_width =
    if entry_count == 0 || bucket_width == 0
    then 0
    else bit_ceil ((entry_count - 1) / bucket_width + 1)

-- A fail-soft result of the search of a window: the score is the value, or an upper bound of it
-- at or below alpha, or a lower bound at or above beta.
pub data IsFailSoft (value alpha beta score : ℤ) : Type 0 where
  inside : value ≡ score → IsFailSoft value alpha beta score
  low : value ≤ℤ score → score ≤ℤ alpha → IsFailSoft value alpha beta score
  high : score ≤ℤ value → beta ≤ℤ score → IsFailSoft value alpha beta score

-- What a bound says of the value.
abbrev pub Bounds : BoundKind → ℤ → ℤ → Type 0
Bounds BoundKind.exact score value = value ≡ score
Bounds BoundKind.lower score value = score ≤ℤ value
Bounds BoundKind.upper score value = value ≤ℤ score
