-- ===== src/Bits/Scan.antt =====
-- `std::countr_zero`, `std::popcount`, `x & (x - 1)`, and the loop that visits the digits that
-- are set, lowest first.
use vibe_othello_engine.Base.{
  ℕ, zero, suc, ◌+◌, ◌-◌, ◌/◌, ◌%◌, ◌^◌, ◌≤◌, ◌<◌, bit_and, ◌≡◌, refl, ap, ◌∙◌, arith, true, false,
  not, ◌&&◌, ◌==◌, if◌then◌else◌, Bool-cases, inl, inr,
}
use vibe_othello_engine.Bits.Digit.{bit, bit-and}
use vibe_othello_engine.Bits.Word.{bit-zero, double}
use vibe_othello_engine.Bits.U64.{IsWord, minus_one, zero_of_bits, nonzero_of_bit, bit_and-IsWord}

unfoldable pub countr_zero_from : ℕ → ℕ → ℕ
countr_zero_from zero x = 0
countr_zero_from (suc n) x = if x % 2 == 1 then 0 else suc (countr_zero_from n (x / 2))

unfoldable pub countr_zero : ℕ → ℕ
countr_zero x = countr_zero_from 64 x

unfoldable pub popcount_from : ℕ → ℕ → ℕ
popcount_from zero x = 0
popcount_from (suc n) x = x % 2 + popcount_from n (x / 2)

unfoldable pub popcount : ℕ → ℕ
popcount x = popcount_from 64 x

unfoldable pub clear_lowest : ℕ → ℕ
clear_lowest x = bit_and x (minus_one x)

-- `while (bits != 0) { i = countr_zero(bits); bits &= bits - 1; body(i); }`
unfoldable pub each_bit {ℓ} : {S : Type ℓ} → ℕ → (ℕ → S → S) → ℕ → S → S
each_bit zero body bits s = s
each_bit (suc fuel) body bits s =
    let rest = each_bit fuel body (clear_lowest bits) (body (countr_zero bits) s) in
    if bits == 0 then s else rest

-- The digits from i on, n of them, each visited if it is set.
unfoldable pub fold_bits {ℓ} : {S : Type ℓ} → ℕ → ℕ → (ℕ → S → S) → ℕ → S → S
fold_bits zero i body bits s = s
fold_bits (suc n) i body bits s = fold_bits n (i + 1) body bits (if bit i bits then body i s else s)

-- i is the lowest digit of x that is set.
pub record IsLowest (i x : ℕ) : Type 0 where
  pub set : bit i x ≡ true
  pub clear_below : (j : ℕ) → j < i → bit j x ≡ false

countr_zero_from-lowest : (n i x : ℕ) → i < n → IsLowest i x → countr_zero_from n x ≡ i
unfolding countr_zero_from bit
countr_zero_from-lowest zero i x h l = absurd (omega arith)
countr_zero_from-lowest (suc n) zero x h l = rw (l.set)
countr_zero_from-lowest (suc n) (suc i) x h l = rw (l.clear_below 0 (omega arith)) (
    ap suc (
      countr_zero_from-lowest n i (x / 2) (omega arith)
        (record { set = l.set; clear_below = λ j k. l.clear_below (suc j) (omega arith) })))

pub countr_zero-lowest : (i x : ℕ) → i < 64 → IsLowest i x → countr_zero x ≡ i
unfolding countr_zero
countr_zero-lowest i x h l = countr_zero_from-lowest 64 i x h l

nonzero_of_lowest : (i x : ℕ) → IsLowest i x → 0 < x
nonzero_of_lowest i zero l = cc (bit-zero i, l.set)
nonzero_of_lowest i (suc x) l = omega arith

bit_below : (i x j : ℕ) → IsLowest i x → (bit j x && bit j (x - 1)) ≡ (bit j x && not (j == i))
unfolding bit
bit_below zero x zero l = ground (arith, l.set)
bit_below zero x (suc j) l =
    let e : (x - 1) / 2 ≡ x / 2 = ground (arith, l.set) in rw e (ground arith)
bit_below (suc i) x zero l = ground (arith, l.clear_below 0 (omega arith))
bit_below (suc i) x (suc j) l =
    let low : IsLowest i (x / 2) = record {
      set = l.set;
      clear_below = λ k h. l.clear_below (suc k) (omega arith);
    } in
    let pos = nonzero_of_lowest i (x / 2) low in
    let e : (x - 1) / 2 ≡ x / 2 - 1 = ground (arith, l.clear_below 0 (omega arith)) in
    rw e (bit_below i (x / 2) j low ∙ ground arith)

-- Clearing the lowest digit leaves the others alone.
pub bit-clear_lowest :
    (i x j : ℕ) → IsWord x → IsLowest i x → bit j (clear_lowest x) ≡ (bit j x && not (j == i))
unfolding clear_lowest
bit-clear_lowest i x j w l =
    let e : minus_one x ≡ x - 1 = unfold minus_one in omega (arith, nonzero_of_lowest i x l) in
    rw (e) (bit-and j x (x - 1) ∙ bit_below i x j l)

-- Digits from i on decide the fold from i on.
fold_bits_congr {ℓ} :
    {S : Type ℓ} (n i : ℕ) (body : ℕ → S → S) (x y : ℕ) (s : S)
    → ((j : ℕ) → i ≤ j → bit j x ≡ bit j y)
    → fold_bits n i body x s ≡ fold_bits n i body y s
unfolding fold_bits
fold_bits_congr zero i body x y s h = refl
fold_bits_congr (suc n) i body x y s h =
    rw (h i (omega arith)) (fold_bits_congr n (i + 1) body x y _ (λ j k. h j (omega arith)))

each_bit-zero {ℓ} : {S : Type ℓ} (fuel : ℕ) (body : ℕ → S → S) (s : S) → each_bit fuel body 0 s ≡ s
unfolding each_bit
each_bit-zero zero body s = refl
each_bit-zero (suc fuel) body s = refl

clear_lowest-IsWord : (x : ℕ) → IsWord x → IsWord (clear_lowest x)
unfolding clear_lowest
clear_lowest-IsWord x w = bit_and-IsWord x (minus_one x) w

each_bit_step {ℓ} :
    {S : Type ℓ} (fuel : ℕ) (body : ℕ → S → S) (x : ℕ) (s : S) (i : ℕ)
    → i < 64
    → IsLowest i x
    → each_bit (suc fuel) body x s ≡ each_bit fuel body (clear_lowest x) (body i s)
unfolding each_bit
each_bit_step fuel body x s i h l = rw (nonzero_of_bit i x l.set, countr_zero-lowest i x h l)

each_bit_from {ℓ} :
    {S : Type ℓ} (n i fuel : ℕ) (body : ℕ → S → S) (x : ℕ) (s : S)
    → n + i ≡ 64
    → n ≤ fuel
    → IsWord x
    → ((j : ℕ) → j < i → bit j x ≡ false)
    → each_bit fuel body x s ≡ fold_bits n i body x s
unfolding fold_bits
each_bit_from zero i fuel body x s e f w low =
    rw (zero_of_bits x w (λ j k. low j (omega arith))) (each_bit-zero fuel body s)
each_bit_from (suc n) i zero body x s e f w low = absurd (omega arith)
each_bit_from (suc n) i (suc fuel) body x s e f w low = elim (Bool-cases (bit i x)) [
  | inr off ↦ rw off (
      each_bit_from n (i + 1) (suc fuel) body x s (omega arith) (omega arith) w
        (λ j k. ground (arith, low j)))
  | inl on ↦
      let l : IsLowest i x = record { set = on; clear_below = low } in
      each_bit_step fuel body x s i (omega arith) l
      ∙ each_bit_from n (i + 1) fuel body (clear_lowest x) (body i s) (omega arith) (omega arith)
          (clear_lowest-IsWord x w) (λ j k. bit-clear_lowest i x j w l ∙ ground (arith, low j))
      ∙ fold_bits_congr n (i + 1) body (clear_lowest x) x (body i s)
          (λ j k. bit-clear_lowest i x j w l ∙ ground arith)
      ∙ rw on
]

-- With 64 rounds the loop visits exactly the digits that are set, in ascending order.
pub each_bit-fold {ℓ} :
    {S : Type ℓ} (body : ℕ → S → S) (x : ℕ) (s : S)
    → IsWord x
    → each_bit 64 body x s ≡ fold_bits 64 0 body x s
each_bit-fold body x s w =
    each_bit_from 64 0 64 body x s (omega arith) (omega arith) w (λ j h. absurd (omega arith))

countr_zero_from-IsLowest :
    (n x : ℕ)
    → x < 2 ^ n
    → (x == 0) ≡ false
    → IsLowest (countr_zero_from n x) x × (countr_zero_from n x < n)
unfolding countr_zero_from bit
countr_zero_from-IsLowest zero x h p = absurd (ground arith)
countr_zero_from-IsLowest (suc n) x h p = elim (Bool-cases (x % 2 == 1)) [
  | inl odd ↦ rw odd (record { set = odd; clear_below = λ j k. absurd (omega arith) }, omega arith)
  | inr even ↦
      let (l, small) =
        countr_zero_from-IsLowest n (x / 2) (omega (arith, double n)) (ground arith) in
      rw even (record { set = l.set; clear_below = below n x even l }, omega arith)
]
  where
    below :
        (n x : ℕ)
        → (x % 2 == 1) ≡ false
        → IsLowest (countr_zero_from n (x / 2)) (x / 2)
        → (j : ℕ) → j < suc (countr_zero_from n (x / 2))
        → bit j x ≡ false
    below n x even l zero k = even
    below n x even l (suc j) k = l.clear_below j (omega arith)

-- The count of trailing zeros of a nonzero word is its lowest digit that is set.
pub countr_zero-IsLowest :
    (x : ℕ) → IsWord x → (x == 0) ≡ false → IsLowest (countr_zero x) x × (countr_zero x < 64)
unfolding countr_zero
countr_zero-IsLowest x w p = countr_zero_from-IsLowest 64 x w p
