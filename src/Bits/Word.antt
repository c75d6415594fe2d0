-- ===== src/Bits/Word.antt =====
-- Digits of masks, shifts, complements and powers of two, and equality of words by digits.
use native.Mathlib.Nat.{
  pow-suc, one-le-pow, div-div-eq-div-mul, div-add-mod, mod-lt, add-zero, div-one, mul-one,
}
use vibe_othello_engine.Base.{
  ℕ, zero, suc, ◌+◌, ◌-◌, ◌*◌, ◌/◌, ◌%◌, ◌^◌, ◌≤◌, ◌<◌, ◌≡◌, refl, ◌∙◌, ap, sym, arith, true, false,
  not, ◌&&◌, ◌==◌, ltb, inl, inr, ◌≢◌, Bool-cases,
}
use mathlib.Core.Path.{ap₂, ◌≡⟨◌⟩◌, ◌∎}
use vibe_othello_engine.Bits.Digit.{bit}

pow_pos : (n : ℕ) → 0 < 2 ^ n
pow_pos n = one-le-pow n 2 (omega arith)

pub double : (n : ℕ) → 2 ^ suc n ≡ 2 * 2 ^ n
double n = omega (arith, pow-suc 2 n)

pub double_mul : (x n : ℕ) → x * 2 ^ suc n ≡ 2 * (x * 2 ^ n)
double_mul x n = omega (arith, ap (λ (t : ℕ). x * t) (double n))

div_double : (x n : ℕ) → x / 2 ^ suc n ≡ x / 2 / 2 ^ n
div_double x n = rw (double n) (sym (div-div-eq-div-mul x 2 (2 ^ n)))

mod_double : (x p : ℕ) → 0 < p → x % (2 * p) / 2 ≡ x / 2 % p
mod_double x p h = omega (
  arith,
  ap (λ (t : ℕ). p * t) (div-div-eq-div-mul x 2 p),
  div-add-mod x (2 * p),
  div-add-mod (x / 2) p,
  mod-lt x {m = 2 * p} (omega arith),
)

mod_double_low : (x p : ℕ) → x % (2 * p) % 2 ≡ x % 2
mod_double_low x p = omega (arith, div-add-mod x (2 * p))

pub bit-zero : (i : ℕ) → bit i 0 ≡ false
unfolding bit
bit-zero zero = refl
bit-zero (suc i) = bit-zero i

pub bit-shift_right : (k i x : ℕ) → bit i (x / 2 ^ k) ≡ bit (i + k) x
unfolding bit
bit-shift_right zero i x = rw (div-one, add-zero)
bit-shift_right (suc k) i x =
    bit i (x / 2 ^ suc k)
    ≡⟨ ap (bit i) (div_double x k) ⟩ bit i (x / 2 / 2 ^ k)
    ≡⟨ bit-shift_right k i (x / 2) ⟩ bit (suc (i + k)) x
    ≡⟨ ap (λ (t : ℕ). bit t x) {x = suc (i + k)} {y = i + suc k} (omega arith) ⟩ bit (i + suc k) x ∎

pub bit-shift_left : (k i x : ℕ) → bit (i + k) (x * 2 ^ k) ≡ bit i x
unfolding bit
bit-shift_left zero i x = rw (mul-one, add-zero)
bit-shift_left (suc k) i x =
    bit (i + suc k) (x * 2 ^ suc k)
    ≡⟨ ap₂ bit {x = i + suc k} {y = suc (i + k)} (omega arith) (double_mul x k) ⟩
      bit (i + k) (2 * (x * 2 ^ k) / 2)
    ≡⟨ ap (bit (i + k)) (omega arith) ⟩ bit (i + k) (x * 2 ^ k)
    ≡⟨ bit-shift_left k i x ⟩ bit i x ∎

pub bit-shift_left_low : (k i x : ℕ) → i < k → bit i (x * 2 ^ k) ≡ false
unfolding bit
bit-shift_left_low zero i x h = absurd (omega arith)
bit-shift_left_low (suc k) zero x h = ground (arith, double_mul x k)
bit-shift_left_low (suc k) (suc i) x h =
    ap (bit i) (let e : x * 2 ^ suc k / 2 ≡ x * 2 ^ k = omega (arith, double_mul x k) in e)
    ∙ bit-shift_left_low k i x (omega arith)

pub bit-mod : (n i x : ℕ) → bit i (x % 2 ^ n) ≡ (ltb i n && bit i x)
unfolding bit
bit-mod zero i x = ap (bit i) (omega arith) ∙ bit-zero i ∙ ground arith
bit-mod (suc n) zero x = rw (double n) (ground (arith, mod_double_low x (2 ^ n)))
bit-mod (suc n) (suc i) x =
    rw (double n, mod_double x (2 ^ n) (pow_pos n)) (bit-mod n i (x / 2) ∙ ground arith)

pub bit-complement : (n i x : ℕ) → x < 2 ^ n → i < n → bit i (2 ^ n - 1 - x) ≡ not (bit i x)
unfolding bit
bit-complement zero i x h k = absurd (omega arith)
bit-complement (suc n) zero x h k = ground (arith, double n)
bit-complement (suc n) (suc i) x h k =
    ap (bit i) (let e : (2 ^ suc n - 1 - x) / 2 ≡ 2 ^ n - 1 - x / 2 = omega (arith, double n) in e)
    ∙ bit-complement n i (x / 2) (omega (arith, double n)) (omega arith)

pub bit-pow : (k i : ℕ) → bit i (2 ^ k) ≡ (i == k)
unfolding bit
bit-pow zero zero = refl
bit-pow zero (suc i) = bit-zero i ∙ ground arith
bit-pow (suc k) zero = ground (arith, double k)
bit-pow (suc k) (suc i) =
    ap (bit i) (let e : 2 ^ suc k / 2 ≡ 2 ^ k = omega (arith, double k) in e)
    ∙ bit-pow k i
    ∙ ground arith

pub bit_above : (n i x : ℕ) → x < 2 ^ n → n ≤ i → bit i x ≡ false
unfolding bit
bit_above zero i x h k = ap (bit i) (omega arith) ∙ bit-zero i
bit_above (suc n) zero x h k = elim k [ ]
bit_above (suc n) (suc i) x h k = bit_above n i (x / 2) (omega (arith, double n)) (omega arith)

-- Two numbers below 2 ^ n with the same digits are equal.
pub eq_of_bits : (n x y : ℕ) → x < 2 ^ n → y < 2 ^ n → ((i : ℕ) → i < n → bit i x ≡ bit i y) → x ≡ y
unfolding bit
eq_of_bits zero x y p q h = omega arith
eq_of_bits (suc n) x y p q h =
    let halves =
      eq_of_bits n (x / 2) (y / 2) (omega (arith, double n)) (omega (arith, double n))
        (λ i k. h (suc i) (omega arith)) in
    ground (arith, h 0)

-- A nonzero word has a digit that is set.
pub bit_of_nonzero : (n x : ℕ) → x < 2 ^ n → x ≢ 0 → (i : ℕ) × (i < n) × (bit i x ≡ true)
unfolding bit
bit_of_nonzero zero x p h = absurd (h (omega arith))
bit_of_nonzero (suc n) x p h = elim (Bool-cases (x % 2 == 1)) [
  | inl odd ↦ (0, omega arith, odd)
  | inr even ↦
      let (i, below, set) =
        bit_of_nonzero n (x / 2) (omega (arith, double n)) (λ e. h (ground arith)) in
      (suc i, omega arith, set)
]

pub lt-two-pow : (n : ℕ) → n < 2 ^ n
lt-two-pow zero = omega arith
lt-two-pow (suc n) = omega (arith, double n, lt-two-pow n)

-- A number without digits from n on is below 2 ^ n.
pub lt_of_bits : (n x : ℕ) → ((i : ℕ) → n ≤ i → bit i x ≡ false) → x < 2 ^ n
unfolding bit
lt_of_bits zero zero h = omega arith
lt_of_bits zero (suc x) h =
    let (i, below, set) = bit_of_nonzero (suc x) (suc x) (lt-two-pow (suc x)) (omega arith) in
    cc (h i (omega arith))
lt_of_bits (suc n) x h =
    omega (arith, double n, lt_of_bits n (x / 2) (λ i k. h (suc i) (omega arith)))
