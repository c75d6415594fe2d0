-- ===== src/Hash/Xor.antt =====
-- `^` is associative and commutative, and cancels; and folds of it over digits.
use vibe_othello_engine.Base.{ℕ, ◌+◌, ◌^◌, ◌≤◌, ◌≡◌, arith, xor, bit_xor}
use vibe_othello_engine.Bits.Digit.{bit, bit-xor}
use vibe_othello_engine.Bits.Word.{eq_of_bits, bit-zero, lt-two-pow}
use native.Mathlib.Nat.{pow-le-pow_right}

-- Two numbers with the same digits are equal, whatever their size.
pub bits_ext : (x y : ℕ) → ((i : ℕ) → bit i x ≡ bit i y) → x ≡ y
bits_ext x y h =
    let p : 2 ^ x ≤ 2 ^ (x + y) =
      pow-le-pow_right {n = 2} (omega arith) {i = x} {j = x + y} (omega arith) in
    let q : 2 ^ y ≤ 2 ^ (x + y) =
      pow-le-pow_right {n = 2} (omega arith) {i = y} {j = x + y} (omega arith) in
    eq_of_bits (x + y) x y (omega (arith, lt-two-pow x)) (omega (arith, lt-two-pow y)) (λ i k. h i)

pub xor_comm : (a b : ℕ) → bit_xor a b ≡ bit_xor b a
unfolding xor
xor_comm a b = bits_ext _ _ (λ i. simp bit-xor (ground arith))

pub xor_assoc : (a b c : ℕ) → bit_xor (bit_xor a b) c ≡ bit_xor a (bit_xor b c)
unfolding xor
xor_assoc a b c = bits_ext _ _ (λ i. simp bit-xor (ground arith))

pub xor_left_comm : (a b c : ℕ) → bit_xor a (bit_xor b c) ≡ bit_xor b (bit_xor a c)
unfolding xor
xor_left_comm a b c = bits_ext _ _ (λ i. simp bit-xor (ground arith))

pub xor_zero : (a : ℕ) → bit_xor a 0 ≡ a
unfolding xor
xor_zero a = bits_ext _ _ (λ i. simp (bit-xor, bit-zero) (ground arith))

pub xor_self : (a : ℕ) → bit_xor a a ≡ 0
unfolding xor
xor_self a = bits_ext _ _ (λ i. simp (bit-xor, bit-zero) (ground arith))
