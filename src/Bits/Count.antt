-- ===== src/Bits/Count.antt =====
-- `std::popcount` of unions, of single squares and of parts.
use vibe_othello_engine.Base.{
  ℕ, zero, suc, ◌+◌, ◌/◌, ◌≤◌, ◌<◌, ◌≡◌, refl, arith, true, false, ◌&&◌, ◌||◌, ◌==◌,
}
use vibe_othello_engine.Bits.Digit.{bit}
use vibe_othello_engine.Bits.U64.{single, bit-single, IsWord}
use vibe_othello_engine.Bits.Word.{bit_of_nonzero}
use vibe_othello_engine.Bits.Scan.{popcount, popcount_from}

popcount_from_union :
    (n a b c : ℕ)
    → ((i : ℕ) → bit i c ≡ (bit i a || bit i b))
    → ((i : ℕ) → (bit i a && bit i b) ≡ false)
    → popcount_from n c ≡ popcount_from n a + popcount_from n b
unfolding popcount_from bit
popcount_from_union zero a b c u d = refl
popcount_from_union (suc n) a b c u d = ground (
  arith,
  u 0,
  d 0,
  popcount_from_union n (a / 2) (b / 2) (c / 2) (λ i. u (suc i)) (λ i. d (suc i)),
)

-- The count of a disjoint union.
pub popcount_union :
    (a b c : ℕ)
    → ((i : ℕ) → bit i c ≡ (bit i a || bit i b))
    → ((i : ℕ) → (bit i a && bit i b) ≡ false)
    → popcount c ≡ popcount a + popcount b
unfolding popcount
popcount_union a b c u d = popcount_from_union 64 a b c u d

popcount_from_none : (n x : ℕ) → ((i : ℕ) → bit i x ≡ false) → popcount_from n x ≡ 0
unfolding popcount_from bit
popcount_from_none zero x h = refl
popcount_from_none (suc n) x h = ground (arith, h 0, popcount_from_none n (x / 2) (λ i. h (suc i)))

popcount_from_one : (n i x : ℕ) → i < n → ((j : ℕ) → bit j x ≡ (j == i)) → popcount_from n x ≡ 1
unfolding popcount_from bit
popcount_from_one zero i x h e = absurd (omega arith)
popcount_from_one (suc n) zero x h e =
    ground (arith, e 0, popcount_from_none n (x / 2) (λ i. ground (arith, e (suc i))))
popcount_from_one (suc n) (suc i) x h e =
    ground
      (arith, e 0, popcount_from_one n i (x / 2) (omega arith) (λ j. ground (arith, e (suc j))))

pub popcount-single : (i : ℕ) → i < 64 → popcount (single i) ≡ 1
unfolding popcount
popcount-single i h = popcount_from_one 64 i (single i) h (λ j. bit-single j i h)

pub popcount-zero : popcount 0 ≡ 0
unfolding popcount popcount_from
popcount-zero = refl

popcount_from-le : (n x : ℕ) → popcount_from n x ≤ n
unfolding popcount_from
popcount_from-le zero x = omega arith
popcount_from-le (suc n) x = omega (arith, popcount_from-le n (x / 2))

pub popcount-le : (x : ℕ) → popcount x ≤ 64
unfolding popcount
popcount-le x = popcount_from-le 64 x

popcount_from_pos : (n i x : ℕ) → i < n → bit i x ≡ true → 0 < popcount_from n x
unfolding popcount_from bit
popcount_from_pos zero i x h e = absurd (omega arith)
popcount_from_pos (suc n) zero x h e = ground arith
popcount_from_pos (suc n) (suc i) x h e =
    omega (arith, popcount_from_pos n i (x / 2) (omega arith) e)

pub popcount_pos : (x : ℕ) → IsWord x → (x == 0) ≡ false → 0 < popcount x
unfolding popcount
popcount_pos x w h =
    let (i, below, set) = bit_of_nonzero 64 x w (λ e. ground arith) in
    popcount_from_pos 64 i x below set
