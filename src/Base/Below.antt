-- ===== src/Base/Below.antt =====
-- What holds for the entries of a list below a position, as a loop over the list knows it.
use native.Mathlib.Decide.{dec_lt}
use Prim.Native.Nat.{ℕ, zero, suc, ◌<◌}
use mathlib.Core.Path.{subst, ◌≡◌, sym, ap, ◌∙◌}
use mathlib.Core.Option.{none, some}
use mathlib.Core.List.{List, [], ◌∷◌}
use native.Mathlib.Omega.{arith}
use vibe_othello_engine.Base.Lists.{get_elem?, some_injective}

module _ {ℓ} {A : Type ℓ} where
  abbrev pub AllBelow : List A → ℕ → (A → Type 0) → Type ℓ
  AllBelow xs k P = (j : ℕ) (e : A) → j < k → get_elem? xs j ≡ some e → P e

  pub below_suc :
      (xs : List A) (k : ℕ) (e : A) (P : A → Type 0)
      → get_elem? xs k ≡ some e
      → P e
      → AllBelow xs k P
      → AllBelow xs (suc k) P
  below_suc xs k e P here p below j o h g = elim (dec_lt j k) [
    | yes m ↦ below j o m g
    | no m ↦
        let same : j ≡ k = omega arith in
        subst P (some_injective e o (sym here ∙ ap (get_elem? xs) (sym same) ∙ g)) p
  ]

  -- A position without an entry is behind all entries.
  pub below_end :
      (xs : List A) (k : ℕ)
      → get_elem? xs k ≡ none
      → (j : ℕ) (e : A) → get_elem? xs j ≡ some e
      → j < k
  below_end [] k h j e g = ground (arith, g)
  below_end (x ∷ xs) zero h j e g = ground (arith, h)
  below_end (x ∷ xs) (suc k) h zero e g = omega arith
  below_end (x ∷ xs) (suc k) h (suc j) e g = omega (arith, below_end xs k h j e g)
