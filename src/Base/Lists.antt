-- ===== src/Base/Lists.antt =====
-- Lists measured and indexed by native numbers, under the library's names.
use Prim.Native.Nat.{ℕ, zero, suc, ◌+◌, ◌-◌, ◌<◌, min}
use mathlib.Core.Path.{◌≡◌, refl, ap, subst}
use mathlib.Core.Logic.{◌≢◌}
use mathlib.Core.List.{List, [], ◌∷◌, ◌++◌, map}
use mathlib.Core.Option.{Option, none, some}
use native.Mathlib.Omega.{arith}

module _ {ℓ} {A : Type ℓ} where
  abbrev pub length : List A → ℕ
  length [] = 0
  length (x ∷ xs) = suc (length xs)

  abbrev pub get_elem? : List A → ℕ → Option A
  get_elem? [] i = none
  get_elem? (x ∷ xs) zero = some x
  get_elem? (x ∷ xs) (suc i) = get_elem? xs i

  -- A write out of bounds changes nothing.
  abbrev pub set : List A → ℕ → A → List A
  set [] i v = []
  set (x ∷ xs) zero v = v ∷ xs
  set (x ∷ xs) (suc i) v = x ∷ set xs i v

  pub length-append : (xs ys : List A) → length (xs ++ ys) ≡ length xs + length ys
  length-append [] ys = omega arith
  length-append (x ∷ xs) ys = omega (arith, length-append xs ys)

module _ {ℓ} {A : Type ℓ} where
  pub length-set : (xs : List A) (i : ℕ) (v : A) → length (set xs i v) ≡ length xs
  length-set [] i v = refl
  length-set (x ∷ xs) zero v = refl
  length-set (x ∷ xs) (suc i) v = ap suc (length-set xs i v)

  pub get_elem?-set_self :
      (xs : List A) (i : ℕ) (v : A) → i < length xs → get_elem? (set xs i v) i ≡ some v
  get_elem?-set_self [] i v h = elim h [ ]
  get_elem?-set_self (x ∷ xs) zero v h = refl
  get_elem?-set_self (x ∷ xs) (suc i) v h = get_elem?-set_self xs i v (omega arith)

  pub get_elem?-set_ne :
      (xs : List A) {i j : ℕ} (v : A) → i ≢ j → get_elem? (set xs i v) j ≡ get_elem? xs j
  get_elem?-set_ne [] v h = refl
  get_elem?-set_ne (x ∷ xs) {i = zero} {j = zero} v h = absurd (h refl)
  get_elem?-set_ne (x ∷ xs) {i = zero} {j = suc j} v h = refl
  get_elem?-set_ne (x ∷ xs) {i = suc i} {j = zero} v h = refl
  get_elem?-set_ne (x ∷ xs) {i = suc i} {j = suc j} v h = get_elem?-set_ne xs v (λ e. h (ap suc e))

module _ {ℓ} {A : Type ℓ} where
  abbrev pub get_or : List A → ℕ → A → A
  get_or [] i d = d
  get_or (x ∷ xs) zero d = x
  get_or (x ∷ xs) (suc i) d = get_or xs i d

  abbrev pub take : ℕ → List A → List A
  take zero xs = []
  take (suc n) [] = []
  take (suc n) (x ∷ xs) = x ∷ take n xs

  abbrev pub drop : ℕ → List A → List A
  drop zero xs = xs
  drop (suc n) [] = []
  drop (suc n) (x ∷ xs) = drop n xs

  abbrev pub replicate : ℕ → A → List A
  replicate zero a = []
  replicate (suc n) a = a ∷ replicate n a

  pub take-append-drop : (n : ℕ) (xs : List A) → take n xs ++ drop n xs ≡ xs
  take-append-drop zero xs = refl
  take-append-drop (suc n) [] = refl
  take-append-drop (suc n) (x ∷ xs) = rw (take-append-drop n xs)

  pub length-take : (n : ℕ) (xs : List A) → length (take n xs) ≡ min n (length xs)
  length-take zero xs = omega arith
  length-take (suc n) [] = omega arith
  length-take (suc n) (x ∷ xs) = omega (arith, length-take n xs)

  pub length-drop : (n : ℕ) (xs : List A) → length (drop n xs) ≡ length xs - n
  length-drop zero xs = omega arith
  length-drop (suc n) [] = omega arith
  length-drop (suc n) (x ∷ xs) = omega (arith, length-drop n xs)

  pub length-replicate : (n : ℕ) (a : A) → length (replicate n a) ≡ n
  length-replicate zero a = refl
  length-replicate (suc n) a = ap suc (length-replicate n a)

  pub length-map {κ} : {B : Type κ} (xs : List A) (f : A → B) → length (map f xs) ≡ length xs
  length-map [] f = refl
  length-map (x ∷ xs) f = ap suc (length-map xs f)

pub some_injective {ℓ} : {A : Type ℓ} (a b : A) → some a ≡ some b → a ≡ b
some_injective a b e = ap (λ o. elim o [ none ↦ a | some x ↦ x ]) e

none_not_some {ℓ} : {A : Type ℓ} (a : A) → none ≡ some a → ⊥
none_not_some a e = ground (arith, e)

-- What holds of all elements, also after a write, and of the element read.
module _ {ℓ κ} {A : Type ℓ} (P : A → Type κ) where
  abbrev pub AllOf : List A → Type (ℓ ⊔ κ)
  AllOf xs = (j : ℕ) (a : A) → get_elem? xs j ≡ some a → P a

  pub AllOf-set : (xs : List A) (i : ℕ) (e : A) → AllOf xs → P e → AllOf (set xs i e)
  AllOf-set [] i e all p j o g = all j o g
  AllOf-set (x ∷ xs) zero e all p zero o g = subst P (some_injective e o g) p
  AllOf-set (x ∷ xs) zero e all p (suc j) o g = all (suc j) o g
  AllOf-set (x ∷ xs) (suc i) e all p zero o g = all 0 o g
  AllOf-set (x ∷ xs) (suc i) e all p (suc j) o g =
      AllOf-set xs i e (λ l r f. all (suc l) r f) p j o g

  pub AllOf-get_or : (xs : List A) (i : ℕ) (d : A) → AllOf xs → P d → P (get_or xs i d)
  AllOf-get_or [] i d all p = p
  AllOf-get_or (x ∷ xs) zero d all p = all 0 x refl
  AllOf-get_or (x ∷ xs) (suc i) d all p = AllOf-get_or xs i d (λ l r f. all (suc l) r f) p

module _ {ℓ} {A : Type ℓ} where
  pub get_or_of : (xs : List A) (i : ℕ) (d x : A) → get_elem? xs i ≡ some x → get_or xs i d ≡ x
  get_or_of [] i d x h = elim (none_not_some x h) [ ]
  get_or_of (y ∷ ys) zero d x h = some_injective y x h
  get_or_of (y ∷ ys) (suc i) d x h = get_or_of ys i d x h

  pub get_or-set :
      (xs : List A) (i : ℕ) (d x y : A) → get_elem? xs i ≡ some x → get_or (set xs i y) i d ≡ y
  get_or-set [] i d x y h = elim (none_not_some x h) [ ]
  get_or-set (z ∷ zs) zero d x y h = refl
  get_or-set (z ∷ zs) (suc i) d x y h = get_or-set zs i d x y h
