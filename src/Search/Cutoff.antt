-- ===== src/Search/Cutoff.antt =====
-- Stored scores are sound, and the number of buckets is a power of two that suffices.

use native.Mathlib.Nat.{mul_assoc, mul-le-mul_left, lt-mul-div-succ, mul-div-le, one-le-pow}
use vibe_othello_engine.Base.{
  ℕ, zero, suc, ◌+◌, ◌*◌, ◌/◌, ◌^◌, ◌≤◌, ◌<◌, ◌≡◌, refl, true, leb, arith, inl, inr, Bool-cases,
  leb→le, not_leb→lt,
}
use vibe_othello_engine.Bits.Word.{double, double_mul}
use vibe_othello_engine.Base.Int.{ℤ, ltb_ℤ}
use vibe_othello_engine.Search.Bound.{
  BoundKind, bound_for_score, proves_cutoff, bit_ceil_from, bit_ceil, bucket_count_for_entry_count,
  IsFailSoft, Bounds,
}

-- The kind that `bound_for_score` gives to the score of a fail-soft search of a window is true
-- of the value searched for.
pub bound_for_score-Bounds :
    (value score alpha beta : ℤ)
    → ltb_ℤ alpha beta ≡ true
    → IsFailSoft value alpha beta score
    → Bounds (bound_for_score score alpha beta) score value
unfolding bound_for_score
bound_for_score-Bounds value score alpha beta w (IsFailSoft.inside e) = ground (arith, e)
bound_for_score-Bounds value score alpha beta w (IsFailSoft.low v s) = ground (arith, w, v, s)
bound_for_score-Bounds value score alpha beta w (IsFailSoft.high s v) = ground (arith, w, v, s)

-- A bound that proves a cutoff in another window is a fail-soft result for that window.
pub proves_cutoff-IsFailSoft :
    (kind : BoundKind) (value score alpha beta : ℤ)
    → Bounds kind score value
    → proves_cutoff kind score alpha beta ≡ true
    → IsFailSoft value alpha beta score
unfolding proves_cutoff
proves_cutoff-IsFailSoft BoundKind.exact value score alpha beta e h = IsFailSoft.inside e
proves_cutoff-IsFailSoft BoundKind.lower value score alpha beta e h =
    IsFailSoft.high e (ground (arith, h))
proves_cutoff-IsFailSoft BoundKind.upper value score alpha beta e h =
    IsFailSoft.low e (ground (arith, h))

-- The least power of two that is not below n.
pub record IsCeil (n r : ℕ) : Type 0 where
  pub exponent : ℕ
  pub is_power : r ≡ 2 ^ exponent
  pub enough : n ≤ r
  pub least : r < 2 * n

bit_ceil_from-IsCeil :
    (fuel p n k : ℕ) → p ≡ 2 ^ k → n ≤ p * 2 ^ fuel → p < 2 * n → IsCeil n (bit_ceil_from fuel p n)
unfolding bit_ceil_from
bit_ceil_from-IsCeil zero p n k e h l = record {
  exponent = k;
  is_power = e;
  enough = omega arith;
  least = l;
}
bit_ceil_from-IsCeil (suc fuel) p n k e h l = elim (Bool-cases (leb n p)) [
  | inl m ↦ rw m (record { exponent = k; is_power = e; enough = leb→le n p m; least = l })
  | inr m ↦ rw m (
      bit_ceil_from-IsCeil fuel (2 * p) n (suc k) (omega (arith, double k))
        (omega (arith, double_mul p fuel, mul_assoc 2 p (2 ^ fuel)))
        (omega (arith, not_leb→lt n p m)))
]

bit_ceil-IsCeil : (n : ℕ) → 0 < n → n ≤ 2 ^ 63 → IsCeil n (bit_ceil n)
unfolding bit_ceil
bit_ceil-IsCeil n h fits = bit_ceil_from-IsCeil 63 1 n 0 refl (omega arith) (omega arith)

bit_ceil_from-le : (fuel p n : ℕ) → bit_ceil_from fuel p n ≤ p * 2 ^ fuel
unfolding bit_ceil_from
bit_ceil_from-le zero p n = omega arith
bit_ceil_from-le (suc fuel) p n = elim (Bool-cases (leb n p)) [
  | inl m ↦ rw m (omega (arith, mul-le-mul_left p (one-le-pow (suc fuel) 2 (omega arith))))
  | inr m ↦
      rw m (
        omega (arith, bit_ceil_from-le fuel (2 * p) n, double_mul p fuel, mul_assoc 2 p (2 ^ fuel)))
]

bit_ceil-le : (n : ℕ) → bit_ceil n ≤ 2 ^ 63
unfolding bit_ceil
bit_ceil-le n = omega (arith, bit_ceil_from-le 63 1 n)

-- The number of buckets asked for is one that `std::bit_ceil` can round up.
requested_fits : (e w : ℕ) → suc e ≤ suc w * 2 ^ 63 → e / suc w + 1 ≤ 2 ^ 63
requested_fits e w h = elim (Bool-cases (leb (2 ^ 63) (e / suc w))) [
  | inr few ↦ omega (arith, not_leb→lt (2 ^ 63) (e / suc w) few)
  | inl many ↦ absurd (
      omega (
        arith,
        h,
        mul-div-le e (suc w),
        mul-le-mul_left (suc w) (leb→le (2 ^ 63) (e / suc w) many),
      ))
]

buckets : (e w : ℕ) → bucket_count_for_entry_count (suc e) (suc w) ≡ bit_ceil (e / suc w + 1)
unfolding bucket_count_for_entry_count
buckets e w = ground arith

-- For at least one and less than 2 ^ 64 entries, a positive width, and no more entries than 2 ^ 63
-- buckets hold, the table
-- of `bucket_count_for_entry_count` has a number of buckets that is a power of two and at most
-- 2 ^ 63, that holds the entries, and of which half does not hold them.
pub bucket_count_for_entry_count-least :
    (entries width : ℕ)
    → 0 < entries
    → entries < 2 ^ 64
    → 0 < width
    → entries ≤ width * 2 ^ 63
    → let count = bucket_count_for_entry_count entries width in
      ((k : ℕ) × (count ≡ 2 ^ k))
      × (count ≤ 2 ^ 63)
      × (entries ≤ width * count)
      × (width * (count / 2) < entries)
bucket_count_for_entry_count-least zero width h size k fits = elim h [ ]
bucket_count_for_entry_count-least (suc e) zero h size k fits = elim k [ ]
bucket_count_for_entry_count-least (suc e) (suc w) h size k fits =
    let found = bit_ceil-IsCeil (e / suc w + 1) (omega arith) (requested_fits e w fits) in
    let count = bit_ceil (e / suc w + 1) in
    let above = mul-le-mul_left (suc w) found.enough in
    let below =
      mul-le-mul_left {m = count / 2} {n = e / suc w} (suc w)
        (let l = found.least in omega arith) in
    rw (buckets e w) (
      (found.exponent, found.is_power),
      bit_ceil-le (e / suc w + 1),
      omega (arith, above, lt-mul-div-succ e k),
      omega (arith, below, mul-div-le e (suc w)),
    )
