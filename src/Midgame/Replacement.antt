-- ===== src/Midgame/Replacement.antt =====
-- The slot that a store of the middle game replaces: the entry of the position, a free slot, or an
-- entry that is protected least and no better than the new one.
use vibe_othello_engine.Base.{
  ℕ, ◌≤◌, ◌≡◌, arith, true, false, Option, none, some, AllOf, AllBelow, get_elem?,
}
use vibe_othello_engine.Base.Int.{ℤ, ltb_ℤ, ◌≤ℤ◌}
use vibe_othello_engine.Midgame.Table.{
  TranspositionEntry, TranspositionScope, generation_age, replacement_protection_score,
  entry_matches, Bucket, Weakest, is_weaker,
}
use vibe_othello_engine.Midgame.Strength.{
  IsFor, IsModest, strength, strength_of, IsNoWeaker, replacement_protection_score_lem,
}

abbrev pub IsOther : ℕ → TranspositionScope → TranspositionEntry → Type 0
IsOther hash scope e = entry_matches hash scope e ≡ false

abbrev pub IsOccupied : TranspositionEntry → Type 0
IsOccupied e = e.occupied ≡ true

-- The score that protects an entry at a generation, with its age and depth.
abbrev pub protection : ℕ → TranspositionEntry → ℕ → Weakest
protection generation e slot = record {
  slot = slot;
  depth = e.depth;
  score = replacement_protection_score e.depth (generation_age generation e.generation);
  age = generation_age generation e.generation;
}

-- The entry is not weaker than the one described: it is not protected less, nor as much and
-- older, nor as much and as old and shallower.
abbrev pub NotWeaker : ℕ → Weakest → TranspositionEntry → Type 0
NotWeaker generation weakest e =
    is_weaker (replacement_protection_score e.depth (generation_age generation e.generation))
      (generation_age generation e.generation) e.depth weakest
    ≡ false

-- Why a store of the hash in the scope may write the slot i.
pub data MayReplace (bucket : Bucket) (hash : ℕ) (scope : TranspositionScope) (generation : ℕ)
    (depth : ℤ) (i : ℕ) : Type 0 where
  same_key :
      (e : TranspositionEntry)
      → get_elem? bucket i ≡ some e
      → IsFor hash scope e
      → AllBelow bucket i (λ o. ¬ (IsFor hash scope o))
      → MayReplace bucket hash scope generation depth i
  free :
      (e : TranspositionEntry)
      → get_elem? bucket i ≡ some e
      → e.occupied ≡ false
      → AllOf (λ o. ¬ (IsFor hash scope o)) bucket
      → MayReplace bucket hash scope generation depth i
  weakest :
      (e : TranspositionEntry)
      → get_elem? bucket i ≡ some e
      → strength_of generation e ≤ℤ strength depth 0
      → AllOf (IsNoWeaker generation e) bucket
      → AllOf IsOccupied bucket
      → AllOf (λ o. ¬ (IsFor hash scope o)) bucket
      → MayReplace bucket hash scope generation depth i

-- Why a store is rejected: every slot is taken by another position with a stronger entry.
pub record RejectsStore (bucket : Bucket) (hash : ℕ) (scope : TranspositionScope) (generation : ℕ)
    (depth : ℤ) : Type 0 where
  pub stronger : AllOf (λ o. ltb_ℤ (strength depth 0) (strength_of generation o) ≡ true) bucket
  pub taken : AllOf IsOccupied bucket
  pub other : AllOf (λ o. ¬ (IsFor hash scope o)) bucket

abbrev pub IsSelected : Bucket → ℕ → TranspositionScope → ℕ → ℤ → Option ℕ → Type 0
IsSelected bucket hash scope generation depth none = RejectsStore bucket hash scope generation depth
IsSelected bucket hash scope generation depth (some i) =
    MayReplace bucket hash scope generation depth i

-- What is known of the weakest entry before the slot k.
abbrev pub WeakestBelow : Bucket → ℕ → ℕ → Option Weakest → Type 0
WeakestBelow bucket generation k none = AllBelow bucket k (λ e. e.occupied ≡ false)
WeakestBelow bucket generation k (some w) =
    ((e : TranspositionEntry) × (get_elem? bucket w.slot ≡ some e)
      × (protection generation e w.slot ≡ w))
    × AllBelow bucket k (λ e. e.occupied ≡ true → NotWeaker generation w e)

pub record Scanned (bucket : Bucket) (hash : ℕ) (scope : TranspositionScope) (generation k : ℕ)
    (empty_slot : Option ℕ) (weakest : Option Weakest) : Type 0 where
  pub other : AllBelow bucket k (IsOther hash scope)
  pub slot_free :
      (i : ℕ)
      → empty_slot ≡ some i
      → (e : TranspositionEntry) × (get_elem? bucket i ≡ some e) × (e.occupied ≡ false)
  pub taken : empty_slot ≡ none → AllBelow bucket k IsOccupied
  pub least : WeakestBelow bucket generation k weakest

-- The order of `is_weaker`: the score, then the age, then the depth.
record Above (s : ℤ) (a : ℕ) (d : ℤ) (w : Weakest) : Type 0 where
  by_score : w.score ≤ℤ s
  by_age : s ≤ℤ w.score → a ≤ w.age
  by_depth : s ≤ℤ w.score → w.age ≤ a → w.depth ≤ℤ d

above : (s : ℤ) (a : ℕ) (d : ℤ) (w : Weakest) → is_weaker s a d w ≡ false → Above s a d w
unfolding is_weaker
above s a d w h = record {
  by_score = ground (arith, h);
  by_age = λ k. ground (arith, h, k);
  by_depth = λ k l. ground (arith, h, k, l);
}

not_weaker : (s : ℤ) (a : ℕ) (d : ℤ) (w : Weakest) → Above s a d w → is_weaker s a d w ≡ false
unfolding is_weaker
not_weaker s a d w v = ground (arith, v.by_score, v.by_age, v.by_depth)

below : (n w : Weakest) → is_weaker n.score n.age n.depth w ≡ true → Above w.score w.age w.depth n
unfolding is_weaker
below n w h = record {
  by_score = ground (arith, h);
  by_age = λ k. ground (arith, h, k);
  by_depth = λ k l. ground (arith, h, k, l);
}

Above-trans :
    (s : ℤ) (a : ℕ) (d : ℤ) (w n : Weakest)
    → Above s a d w
    → Above w.score w.age w.depth n
    → Above s a d n
Above-trans s a d w n v u = record {
  by_score = omega (arith, v.by_score, u.by_score);
  by_age = λ k.
      omega (arith, v.by_age (omega (arith, u.by_score)), u.by_age (omega (arith, v.by_score)));
  by_depth = λ k l.
      let older = v.by_age (omega (arith, u.by_score)) in
      let older' = u.by_age (omega (arith, v.by_score)) in
      omega (
        arith,
        v.by_depth (omega (arith, u.by_score)) (omega (arith, older')),
        u.by_depth (omega (arith, v.by_score)) (omega (arith, older)),
      );
}

pub NotWeaker-weaker :
    (generation : ℕ) (o : TranspositionEntry) (w n : Weakest)
    → NotWeaker generation w o
    → is_weaker n.score n.age n.depth w ≡ true
    → NotWeaker generation n o
NotWeaker-weaker generation o w n h k =
    not_weaker _ _ _ n (Above-trans _ _ _ w n (above _ _ _ w h) (below n w k))

pub NotWeaker-self :
    (generation : ℕ) (e : TranspositionEntry) (slot : ℕ)
    → NotWeaker generation (protection generation e slot) e
unfolding is_weaker
NotWeaker-self generation e slot = ground arith

-- An entry that is no weaker than one that is protected more than the new entry is so too.
pub no_weaker_protected :
    (generation : ℕ) (depth : ℤ) (w : Weakest) (e : TranspositionEntry)
    → ltb_ℤ (replacement_protection_score depth 0) w.score ≡ true
    → NotWeaker generation w e
    → ltb_ℤ (replacement_protection_score depth 0) (protection generation e 0).score ≡ true
unfolding is_weaker
no_weaker_protected generation depth w e h k = ground (arith, h, k)

-- What the code takes for no weaker is so by the strength, then the age, then the depth.
pub NotWeaker-IsNoWeaker :
    (generation : ℕ) (chosen e : TranspositionEntry) (slot : ℕ)
    → IsModest chosen.depth
    → IsModest e.depth
    → NotWeaker generation (protection generation chosen slot) e
    → IsNoWeaker generation chosen e
NotWeaker-IsNoWeaker generation chosen e slot fits fits' h =
    let mine =
      replacement_protection_score_lem e.depth (generation_age generation e.generation) fits' in
    let its =
      replacement_protection_score_lem chosen.depth (generation_age generation chosen.generation)
        fits in
    let v = above _ _ _ (protection generation chosen slot) h in
    record {
      as_strong = rw (← mine, ← its) v.by_score;
      no_older = λ k. v.by_age (rw (mine, its) k);
      as_deep = λ k l. v.by_depth (rw (mine, its) k) l;
    }
