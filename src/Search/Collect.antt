-- ===== src/Search/Collect.antt =====
-- The loop over the bits of a word that appends what each bit gives.
use mathlib.Core.List.{Perm, append-nil, append_assoc}
use mathlib.Core.List.Perm
use vibe_othello_engine.Base.{
  ℕ, zero, suc, ◌+◌, ◌<◌, ◌≡◌, refl, ap, sym, ◌∙◌, arith, true, false, ◌&&◌, ◌||◌, List, [], ◌∷◌,
  ◌++◌, if◌then◌else◌, Bool-cases, inl, inr,
}
use vibe_othello_engine.Bits.Digit.{bit}
use vibe_othello_engine.Bits.U64.{IsWord}
use vibe_othello_engine.Bits.Scan.{each_bit, fold_bits, each_bit-fold}

module _ {A : Type 0} (make : ℕ → List A) where
  -- What the bits from i on give, n of them, in ascending order.
  abbrev pub collect : ℕ → ℕ → ℕ → List A
  collect zero i bits = []
  collect (suc n) i bits = (if bit i bits then make i else []) ++ collect n (i + 1) bits

  module _ (body : ℕ → List A → List A)
      (appends : (i : ℕ) (so_far : List A) → i < 64 → body i so_far ≡ so_far ++ make i) where
    fold_step :
        (i bits : ℕ) (so_far : List A)
        → i < 64
        → (if bit i bits then body i so_far else so_far)
          ≡ so_far ++ (if bit i bits then make i else [])
    fold_step i bits so_far h = elim (Bool-cases (bit i bits)) [
      | inr off ↦ rw off (sym (append-nil so_far))
      | inl on ↦ rw on (appends i so_far h)
    ]

    fold_bits-collect :
        (n i bits : ℕ) (so_far : List A)
        → n + i ≡ 64
        → fold_bits n i body bits so_far ≡ so_far ++ collect n i bits
    unfolding fold_bits
    fold_bits-collect zero i bits so_far e = sym (append-nil so_far)
    fold_bits-collect (suc n) i bits so_far e =
        ap (λ s. fold_bits n (i + 1) body bits s) (fold_step i bits so_far (omega arith))
        ∙ fold_bits-collect n (i + 1) bits _ (omega arith)
        ∙ append_assoc so_far (if bit i bits then make i else []) (collect n (i + 1) bits)

    pub each_bit-collect :
        (bits : ℕ) (so_far : List A)
        → IsWord bits
        → each_bit 64 body bits so_far ≡ so_far ++ collect 64 0 bits
    each_bit-collect bits so_far w =
        each_bit-fold body bits so_far w ∙ fold_bits-collect 64 0 bits so_far refl

  cons-Perm_middle : (y : A) (xs zs : List A) → Perm (xs ++ (y ∷ zs)) (y ∷ (xs ++ zs))
  cons-Perm_middle y [] zs = Perm.refl _
  cons-Perm_middle y (x ∷ xs) zs =
      Perm.trans (Perm.cons x (cons-Perm_middle y xs zs)) (Perm.swap y x (xs ++ zs))

  append-Perm_swap : (xs ys zs : List A) → Perm (xs ++ (ys ++ zs)) (ys ++ (xs ++ zs))
  append-Perm_swap xs [] zs = Perm.refl _
  append-Perm_swap xs (y ∷ ys) zs =
      Perm.trans (cons-Perm_middle y xs (ys ++ zs)) (Perm.cons y (append-Perm_swap xs ys zs))

  -- What two disjoint words give is what their union gives.
  pub collect-Perm :
      (n i a b c : ℕ)
      → ((j : ℕ) → bit j c ≡ (bit j a || bit j b))
      → ((j : ℕ) → (bit j a && bit j b) ≡ false)
      → Perm (collect n i a ++ collect n i b) (collect n i c)
  collect-Perm zero i a b c u d = Perm.refl _
  collect-Perm (suc n) i a b c u d =
      let rest = collect-Perm n (i + 1) a b c u d in
      elim (Bool-cases (bit i a)) [
        | inl on ↦
            let off : bit i b ≡ false = ground (arith, on, d i) in
            let there : bit i c ≡ true = ground (arith, on, u i) in
            rw (on, off, there)
              (rw (append_assoc (make i) (collect n (i + 1) a) (collect n (i + 1) b))
                (Perm.append_left (make i) rest))
        | inr out ↦ elim (Bool-cases (bit i b)) [
          | inl on ↦
              let there : bit i c ≡ true = ground (arith, on, u i) in
              rw (out, on, there)
                (Perm.trans (append-Perm_swap (collect n (i + 1) a) (make i) (collect n (i + 1) b))
                  (Perm.append_left (make i) rest))
          | inr off ↦
              let none_there : bit i c ≡ false = ground (arith, out, off, u i) in
              rw (out, off, none_there) rest
        ]
      ]

-- Only the bits that are set decide what is given.
pub collect_congr :
    {A : Type 0} (make other : ℕ → List A) (n i bits : ℕ)
    → ((j : ℕ) → bit j bits ≡ true → make j ≡ other j)
    → collect make n i bits ≡ collect other n i bits
collect_congr make other zero i bits h = refl
collect_congr make other (suc n) i bits h =
    let rest = collect_congr make other n (i + 1) bits h in
    elim (Bool-cases (bit i bits)) [
      | inl on ↦ rw (on, h i on, rest) refl
      | inr off ↦ rw (off, rest) refl
    ]
