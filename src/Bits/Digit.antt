-- ===== src/Bits/Digit.antt =====
-- The digits of a number, and those of the native `&`, `|` and `^`.
use Prim.Native.Nat.{
  min, max, differ, digits, bitwise, bit_and-bitwise, bit_or-bitwise, bit_xor-bitwise,
}
use native.Mathlib.Nat.{le_refl}
use vibe_othello_engine.Base.{
  ℕ, zero, suc, ◌+◌, ◌-◌, ◌*◌, ◌/◌, ◌%◌, ◌≤◌, ◌<◌, bit_and, bit_or, bit_xor, ◌≡◌, refl, ap, ◌∙◌,
  arith, Bool, ◌&&◌, ◌||◌, xor, ◌==◌,
}

-- The digit of weight 2 ^ i.
unfoldable pub bit : ℕ → ℕ → Bool
bit zero x = x % 2 == 1
bit (suc i) x = bit i (x / 2)

-- The fuel of the digit recursion does not matter once it reaches the first number.
module _ (rest : ℕ → ℕ) (digit : ℕ → ℕ → ℕ) where
  one_round_more :
      (fuel x y : ℕ) → x ≤ fuel → digits rest digit (suc fuel) x y ≡ digits rest digit fuel x y
  one_round_more zero (suc x) y enough = absurd (omega arith)
  one_round_more (suc fuel) (suc x) y enough =
      rw (one_round_more fuel (suc x / 2) (y / 2) (omega arith))
  one_round_more zero zero y enough = refl
  one_round_more (suc fuel) zero y enough = refl

  rounds_more :
      (spare fuel least x y : ℕ)
      → fuel ≡ spare + least
      → x ≤ least
      → digits rest digit fuel x y ≡ digits rest digit least x y
  rounds_more zero fuel least x y sum enough =
      let same : fuel ≡ least = omega arith in ap (λ k. digits rest digit k x y) same
  rounds_more (suc spare) zero least x y sum enough = absurd (omega arith)
  rounds_more (suc spare) (suc fuel) least x y sum enough =
      one_round_more fuel x y (omega arith) ∙ rounds_more spare fuel least x y (omega arith) enough

  halves :
      (x y : ℕ)
      → bitwise rest digit (suc x) y
        ≡ bitwise rest digit (suc x / 2) (y / 2) * 2 + digit (suc x % 2) (y % 2)
  halves x y =
      let half = suc x / 2 in
      omega (arith, rounds_more (x - half) x half half (y / 2) (omega arith) (le_refl half))

and_halves : (x y : ℕ) → bit_and x y ≡ bit_and (x / 2) (y / 2) * 2 + min (x % 2) (y % 2)
and_halves (suc x) y = simp bit_and-bitwise (halves (λ _. 0) min x y)
and_halves zero y = simp bit_and-bitwise (omega arith)

or_halves : (x y : ℕ) → bit_or x y ≡ bit_or (x / 2) (y / 2) * 2 + max (x % 2) (y % 2)
or_halves (suc x) y = simp bit_or-bitwise (halves (λ d. d) max x y)
or_halves zero y = simp bit_or-bitwise (omega arith)

differ_small : (x y : ℕ) → x < 2 → y < 2 → differ x y ≡ (x + y) % 2
differ_small zero y p q = omega arith
differ_small (suc zero) zero p q = refl
differ_small (suc zero) (suc zero) p q = refl
differ_small (suc zero) (suc (suc y)) p q = absurd (omega arith)
differ_small (suc (suc x)) y p q = absurd (omega arith)

xor_halves : (x y : ℕ) → bit_xor x y ≡ bit_xor (x / 2) (y / 2) * 2 + differ (x % 2) (y % 2)
xor_halves (suc x) y = simp bit_xor-bitwise (halves (λ d. d) differ x y)
xor_halves zero y = simp bit_xor-bitwise (omega arith)

differ_digits : (a b : ℕ) → differ (a % 2) (b % 2) ≡ (a + b) % 2
differ_digits a b = omega (arith, differ_small (a % 2) (b % 2) (omega arith) (omega arith))

half_and : (a b : ℕ) → bit_and a b / 2 ≡ bit_and (a / 2) (b / 2)
half_and a b = omega (arith, and_halves a b)

half_or : (a b : ℕ) → bit_or a b / 2 ≡ bit_or (a / 2) (b / 2)
half_or a b = omega (arith, or_halves a b)

half_xor : (a b : ℕ) → bit_xor a b / 2 ≡ bit_xor (a / 2) (b / 2)
half_xor a b = omega (arith, xor_halves a b, differ_digits a b)

pub bit-and : (i a b : ℕ) → bit i (bit_and a b) ≡ (bit i a && bit i b)
unfolding bit
bit-and zero a b = ground (arith, and_halves a b)
bit-and (suc i) a b = rw (half_and a b) (bit-and i (a / 2) (b / 2))

pub bit-or : (i a b : ℕ) → bit i (bit_or a b) ≡ (bit i a || bit i b)
unfolding bit
bit-or zero a b = ground (arith, or_halves a b)
bit-or (suc i) a b = rw (half_or a b) (bit-or i (a / 2) (b / 2))

pub bit-xor : (i a b : ℕ) → bit i (bit_xor a b) ≡ xor (bit i a) (bit i b)
unfolding bit xor
bit-xor zero a b = ground (arith, xor_halves a b, differ_digits a b)
bit-xor (suc i) a b = rw (half_xor a b) (bit-xor i (a / 2) (b / 2))
