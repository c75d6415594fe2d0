-- ===== src/Hash/Sum.antt =====
-- The `^` of a table over the digits of a word.
use vibe_othello_engine.Base.{
  ℕ, zero, suc, ◌+◌, ◌<◌, ◌≡◌, refl, ap, sym, ◌∙◌, arith, Bool, true, false, bit_xor, if◌then◌else◌,
  ◌&&◌, ◌||◌, ◌==◌, leb, ltb, Bool-cases, inl, inr,
}
use mathlib.Core.Path.{ap₂}
use vibe_othello_engine.Bits.Digit.{bit}
use vibe_othello_engine.Bits.U64.{IsWord}
use vibe_othello_engine.Bits.Scan.{each_bit, fold_bits, each_bit-fold}
use vibe_othello_engine.Hash.Xor.{xor_comm, xor_assoc, xor_left_comm, xor_zero}

xor_sum : (ℕ → ℕ) → ℕ → ℕ → ℕ → ℕ
xor_sum table zero i bits = 0
xor_sum table (suc n) i bits =
    bit_xor (if bit i bits then table i else 0) (xor_sum table n (i + 1) bits)

-- The `^` of the table's entries at the digits of a word.
pub xor_over : (ℕ → ℕ) → ℕ → ℕ
xor_over table bits = xor_sum table 64 0 bits

fold_bits-xor_sum :
    (table : ℕ → ℕ) (n i bits h : ℕ)
    → fold_bits n i (λ j s. bit_xor s (table j)) bits h ≡ bit_xor h (xor_sum table n i bits)
unfolding fold_bits xor_sum
fold_bits-xor_sum table zero i bits h = sym (xor_zero h)
fold_bits-xor_sum table (suc n) i bits h = elim (Bool-cases (bit i bits)) [
  | inl set ↦
      rw set (fold_bits-xor_sum table n (i + 1) bits (bit_xor h (table i)) ∙ xor_assoc h _ _)
  | inr clear ↦
      rw clear (fold_bits-xor_sum table n (i + 1) bits h ∙ ap (bit_xor h) (sym (zero_xor _)))
]
  where
    zero_xor : (x : ℕ) → bit_xor 0 x ≡ x
    zero_xor x = xor_comm 0 x ∙ xor_zero x

-- The loop of the source over the digits that are set.
pub each_bit-xor_over :
    (table : ℕ → ℕ) (bits h : ℕ)
    → IsWord bits
    → each_bit 64 (λ j s. bit_xor s (table j)) bits h ≡ bit_xor h (xor_over table bits)
unfolding xor_over
each_bit-xor_over table bits h w =
    each_bit-fold (λ j s. bit_xor s (table j)) bits h w ∙ fold_bits-xor_sum table 64 0 bits h

exchange : (a b c d : ℕ) → bit_xor (bit_xor a b) (bit_xor c d) ≡ bit_xor (bit_xor a c) (bit_xor b d)
exchange a b c d = xor_assoc a b _ ∙ ap (bit_xor a) (xor_left_comm b c d) ∙ sym (xor_assoc a c _)

xor_sum_union :
    (table : ℕ → ℕ) (n i a b c : ℕ)
    → ((j : ℕ) → bit j c ≡ (bit j a || bit j b))
    → ((j : ℕ) → (bit j a && bit j b) ≡ false)
    → xor_sum table n i c ≡ bit_xor (xor_sum table n i a) (xor_sum table n i b)
unfolding xor_sum
xor_sum_union table zero i a b c u d = sym (xor_zero 0)
xor_sum_union table (suc n) i a b c u d =
    ap₂ bit_xor (here (bit i a) (bit i b) (bit i c) (u i) (d i))
      (xor_sum_union table n (i + 1) a b c u d)
    ∙ exchange _ _ _ _
  where
    here :
        (x y z : Bool)
        → z ≡ (x || y)
        → (x && y) ≡ false
        → (if z then table i else 0) ≡ bit_xor (if x then table i else 0) (if y then table i else 0)
    here true true z e f = cc
    here true false z e f = rw e (sym (xor_zero _))
    here false true z e f = rw e (sym (xor_comm 0 _ ∙ xor_zero _))
    here false false z e f = rw e (sym (xor_zero 0))

pub xor_over_union :
    (table : ℕ → ℕ) (a b c : ℕ)
    → ((j : ℕ) → bit j c ≡ (bit j a || bit j b))
    → ((j : ℕ) → (bit j a && bit j b) ≡ false)
    → xor_over table c ≡ bit_xor (xor_over table a) (xor_over table b)
unfolding xor_over
xor_over_union table a b c u d = xor_sum_union table 64 0 a b c u d

xor_sum_one :
    (table : ℕ → ℕ) (n i k x : ℕ)
    → ((j : ℕ) → bit j x ≡ (j == k))
    → xor_sum table n i x ≡ (if leb i k && ltb k (i + n) then table k else 0)
unfolding xor_sum
xor_sum_one table zero i k x e = ground arith
xor_sum_one table (suc n) i k x e = ground (
  arith,
  e i,
  xor_sum_one table n (i + 1) k x e,
  xor_zero (table i),
  xor_zero 0,
  xor_comm 0 (table k),
  xor_zero (table k),
)

pub xor_over_one :
    (table : ℕ → ℕ) (k x : ℕ) → k < 64 → ((j : ℕ) → bit j x ≡ (j == k)) → xor_over table x ≡ table k
unfolding xor_over
xor_over_one table k x h e = xor_sum_one table 64 0 k x e ∙ ground arith

xor_sum_both :
    (f g : ℕ → ℕ) (n i x : ℕ)
    → xor_sum (λ j. bit_xor (f j) (g j)) n i x ≡ bit_xor (xor_sum f n i x) (xor_sum g n i x)
unfolding xor_sum
xor_sum_both f g zero i x = sym (xor_zero 0)
xor_sum_both f g (suc n) i x =
    ap₂ bit_xor (here (bit i x)) (xor_sum_both f g n (i + 1) x) ∙ exchange _ _ _ _
  where
    here :
        (set : Bool)
        → (if set then bit_xor (f i) (g i) else 0)
          ≡ bit_xor (if set then f i else 0) (if set then g i else 0)
    here true = refl
    here false = sym (xor_zero 0)

pub xor_over_both :
    (f g : ℕ → ℕ) (x : ℕ)
    → xor_over (λ j. bit_xor (f j) (g j)) x ≡ bit_xor (xor_over f x) (xor_over g x)
unfolding xor_over
xor_over_both f g x = xor_sum_both f g 64 0 x
