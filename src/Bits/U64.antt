-- ===== src/Bits/U64.antt =====
-- The operators of `std::uint64_t` that are not native, and the digits of their results.
use vibe_othello_engine.Base.{
  ℕ, zero, suc, ◌+◌, ◌-◌, ◌*◌, ◌/◌, ◌%◌, ◌^◌, ◌≤◌, ◌<◌, bit_and, bit_or, bit_xor, ◌≡◌, ap, sym, ◌∙◌,
  arith, true, false, not, ◌&&◌, xor, ◌==◌, ltb, Bool-cases, inl, inr,
}
use native.Mathlib.Nat.{mod-lt, mod-eq_of_lt, pow-le-pow_right}
use vibe_othello_engine.Bits.Digit.{bit, bit-and, bit-or, bit-xor}
use vibe_othello_engine.Bits.Word.{
  bit-mod, bit-complement, bit-shift_left, bit-shift_left_low, bit-shift_right, bit_above,
  eq_of_bits, lt_of_bits, bit-pow, bit-zero,
}

abbrev pub word_mod : ℕ
word_mod = 2 ^ 64

abbrev pub IsWord : ℕ → Type 0
IsWord x = x < word_mod

-- `~x`, `x << k` and `x >> k`.
unfoldable pub complement : ℕ → ℕ
complement x = word_mod - 1 - x

unfoldable pub shift_left : ℕ → ℕ → ℕ
shift_left x k = x * 2 ^ k % word_mod

unfoldable pub shift_right : ℕ → ℕ → ℕ
shift_right x k = x / 2 ^ k

-- `x - 1`, which wraps at 0.
unfoldable pub minus_one : ℕ → ℕ
minus_one x = (x + word_mod - 1) % word_mod

-- Digits below 64 decide a word.
pub word_ext : {x y : ℕ} → IsWord x → IsWord y → ((i : ℕ) → i < 64 → bit i x ≡ bit i y) → x ≡ y
word_ext {x} {y} p q h = eq_of_bits 64 x y p q h

pub bit_outside : (i x : ℕ) → IsWord x → 64 ≤ i → bit i x ≡ false
bit_outside i x h k = bit_above 64 i x h k

pub bit_and-IsWord : (a b : ℕ) → IsWord a → IsWord (bit_and a b)
bit_and-IsWord a b h = lt_of_bits 64 (bit_and a b) (λ i k. rw (bit-and, bit_above 64 i a h k))

pub bit_and-IsWord_right : (a b : ℕ) → IsWord b → IsWord (bit_and a b)
bit_and-IsWord_right a b h =
    lt_of_bits 64 (bit_and a b) (λ i k. rw (bit-and, bit_above 64 i b h k) (ground arith))

pub bit_or-IsWord : (a b : ℕ) → IsWord a → IsWord b → IsWord (bit_or a b)
bit_or-IsWord a b h k =
    lt_of_bits 64 (bit_or a b) (λ i l. rw (bit-or, bit_above 64 i a h l, bit_above 64 i b k l))

pub bit_xor-IsWord : (a b : ℕ) → IsWord a → IsWord b → IsWord (bit_xor a b)
unfolding xor
bit_xor-IsWord a b h k =
    lt_of_bits 64 (bit_xor a b) (λ i l. rw (bit-xor, bit_above 64 i a h l, bit_above 64 i b k l))

pub complement-IsWord : (x : ℕ) → IsWord (complement x)
unfolding complement
complement-IsWord x = omega arith

pub shift_left-IsWord : (x k : ℕ) → IsWord (shift_left x k)
unfolding shift_left
shift_left-IsWord x k = mod-lt (x * 2 ^ k) (omega arith)

pub shift_right-IsWord : (x k : ℕ) → IsWord x → IsWord (shift_right x k)
unfolding shift_right
shift_right-IsWord x k h =
    lt_of_bits 64 (x / 2 ^ k)
      (λ i l. bit-shift_right k i x ∙ bit_above 64 (i + k) x h (omega arith))

pub bit-complement_word : (i x : ℕ) → IsWord x → i < 64 → bit i (complement x) ≡ not (bit i x)
unfolding complement
bit-complement_word i x h k = bit-complement 64 i x h k

pub bit-shift_right_word : (i k x : ℕ) → bit i (shift_right x k) ≡ bit (i + k) x
unfolding shift_right
bit-shift_right_word i k x = bit-shift_right k i x

pub bit-shift_left_word : (i k x : ℕ) → bit (i + k) (shift_left x k) ≡ (ltb (i + k) 64 && bit i x)
unfolding shift_left
bit-shift_left_word i k x =
    bit-mod 64 (i + k) (x * 2 ^ k) ∙ ap (λ b. ltb (i + k) 64 && b) (bit-shift_left k i x)

pub bit-shift_left_word_low : (i k x : ℕ) → i < k → bit i (shift_left x k) ≡ false
unfolding shift_left
bit-shift_left_word_low i k x h =
    bit-mod 64 i (x * 2 ^ k) ∙ ap (λ b. ltb i 64 && b) (bit-shift_left_low k i x h) ∙ ground arith

-- `Bitboard{1} << i`.
unfoldable pub single : ℕ → ℕ
single i = shift_left 1 i

single_fits : (i : ℕ) → i < 64 → 2 ^ i < word_mod
single_fits i h =
    let p : 2 ^ i ≤ 2 ^ 63 =
      pow-le-pow_right {n = 2} (omega arith) {i = i} {j = 63} (omega arith) in
    omega arith

single-pow : (i : ℕ) → i < 64 → single i ≡ 2 ^ i
unfolding single shift_left
single-pow i h = omega (arith, mod-eq_of_lt {n = 2 ^ i} {m = word_mod} (single_fits i h))

pub single-IsWord : (i : ℕ) → IsWord (single i)
unfolding single
single-IsWord i = shift_left-IsWord 1 i

pub bit-single : (i j : ℕ) → j < 64 → bit i (single j) ≡ (i == j)
bit-single i j h = rw (single-pow j h) (bit-pow j i)

pub nonzero_of_bit : (i x : ℕ) → bit i x ≡ true → (x == 0) ≡ false
nonzero_of_bit i zero h = cc (bit-zero i)
nonzero_of_bit i (suc x) h = ground arith

pub zero_of_bits : (x : ℕ) → IsWord x → ((i : ℕ) → i < 64 → bit i x ≡ false) → x ≡ 0
zero_of_bits x p h = word_ext p (omega arith) (λ i k. h i k ∙ sym (bit-zero i))

pub zero-bit_and : (x : ℕ) → bit_and 0 x ≡ 0
zero-bit_and x =
    zero_of_bits _ (bit_and-IsWord 0 x (omega arith))
      (λ i h. bit-and i 0 x ∙ ground (arith, bit-zero i))

-- The test `(x & (1 << i)) == 0`.
pub test_single : (x i : ℕ) → IsWord x → i < 64 → (bit_and x (single i) == 0) ≡ not (bit i x)
test_single x i w h = elim (Bool-cases (bit i x)) [
  | inl on ↦
      rw (on) (
        nonzero_of_bit i (bit_and x (single i)) (rw (bit-and, on, bit-single i i h) (ground arith)))
  | inr off ↦
      let cleared : bit_and x (single i) ≡ 0 =
        zero_of_bits _ (bit_and-IsWord x (single i) w)
          (λ j k. bit-and j x (single i) ∙ ground (arith, bit-single j i h)) in
      rw (off, cleared)
]
