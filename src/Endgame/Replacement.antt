-- ===== src/Endgame/Replacement.antt =====
-- The slot that a store of a hash writes: the entry of the hash, an empty slot, or the shallowest
-- entry when it is not deeper than what is stored.

use vibe_othello_engine.Base.{
  ℕ, suc, ◌+◌, ◌≡◌, refl, ap, sym, ◌∙◌, arith, true, false, Option, none, some, [], ◌∷◌, AllOf,
  AllBelow, below_suc, below_end, get_elem?, Bool-cases, inl, inr,
}
use vibe_othello_engine.Base.Int.{ℤ, ltb_ℤ, ◌≤ℤ◌}
use vibe_othello_engine.Endgame.Table.{
  ExactTranspositionEntry, Bucket, matches, first_slot, Shallowest, shallower, replacement_loop,
  replacement_entry,
}

abbrev pub Entry : Type 0
Entry = ExactTranspositionEntry

abbrev pub IsOther : ℕ → Entry → Type 0
IsOther hash e = matches hash e ≡ false

abbrev pub IsOccupied : Entry → Type 0
IsOccupied e = e.occupied ≡ true

-- Why a store of the hash with the empties may write the slot i.
pub data MayWrite (bucket : Bucket) (hash : ℕ) (empties : ℤ) (i : ℕ) : Type 0 where
  same_hash :
      (e : Entry)
      → get_elem? bucket i ≡ some e
      → matches hash e ≡ true
      → AllBelow bucket i (IsOther hash)
      → MayWrite bucket hash empties i
  free :
      (e : Entry)
      → get_elem? bucket i ≡ some e
      → e.occupied ≡ false
      → AllOf (IsOther hash) bucket
      → MayWrite bucket hash empties i
  shallow :
      (e : Entry)
      → get_elem? bucket i ≡ some e
      → e.empties ≤ℤ empties
      → AllOf (λ other. e.empties ≤ℤ other.empties) bucket
      → AllOf IsOccupied bucket
      → AllOf (IsOther hash) bucket
      → MayWrite bucket hash empties i

-- Why the store is rejected: every slot is taken by a deeper entry of another hash.
pub record Rejects (bucket : Bucket) (hash : ℕ) (empties : ℤ) : Type 0 where
  pub deeper : AllOf (λ e. ltb_ℤ empties e.empties ≡ true) bucket
  pub taken : AllOf IsOccupied bucket
  pub other : AllOf (IsOther hash) bucket

abbrev pub IsReplacement : Bucket → ℕ → ℤ → Option ℕ → Type 0
IsReplacement bucket hash empties none = Rejects bucket hash empties
IsReplacement bucket hash empties (some i) = MayWrite bucket hash empties i

-- What the loop knows before the slot k.
record Scanned (bucket : Bucket) (hash k : ℕ) (empty_slot : Option ℕ) (shallowest : Shallowest)
    : Type 0 where
  other : AllBelow bucket k (IsOther hash)
  slot_free :
      (i : ℕ)
      → empty_slot ≡ some i
      → (e : Entry) × (get_elem? bucket i ≡ some e) × (e.occupied ≡ false)
  taken : empty_slot ≡ none → AllBelow bucket k IsOccupied
  front :
      (e : Entry) × (get_elem? bucket shallowest.slot ≡ some e) × (e.empties ≡ shallowest.empties)
  least : AllBelow bucket k (λ e. e.occupied ≡ true → shallowest.empties ≤ℤ e.empties)

module _ (bucket : Bucket) (hash : ℕ) (empties : ℤ) where
  -- At the end of the bucket the loop decides by what it knows.
  finished :
      (k : ℕ) (empty_slot : Option ℕ) (shallowest : Shallowest)
      → get_elem? bucket k ≡ none
      → Scanned bucket hash k empty_slot shallowest
      → IsReplacement bucket hash empties (replacement_loop [] k hash empties empty_slot shallowest)
  unfolding replacement_loop
  finished k (some i) shallowest h v =
      let (e, at, f) = v.slot_free i refl in
      MayWrite.free e at f (λ j o g. v.other j o (below_end bucket k h j o g) g)
  finished k none shallowest h v =
      let inside = below_end bucket k h in
      let taken : AllOf IsOccupied bucket = λ j o g. v.taken refl j o (inside j o g) g in
      let other : AllOf (IsOther hash) bucket = λ j o g. v.other j o (inside j o g) g in
      let least : AllOf (λ e. shallowest.empties ≤ℤ e.empties) bucket =
        λ j o g. v.least j o (inside j o g) g (taken j o g) in
      elim (Bool-cases (ltb_ℤ empties shallowest.empties)) [
        | inl deep ↦ rw deep (record {
          deeper = λ j o g. ground (arith, deep, least j o g);
          taken = taken;
          other = other;
        })
        | inr low ↦
            let (e, at, same) = v.front in
            rw low (
              MayWrite.shallow e at (rw same (ground (arith, low))) (λ j o g. rw same (least j o g))
                taken other)
      ]

  occupied_step :
      (k : ℕ) (e : Entry) (empty_slot : Option ℕ) (shallowest : Shallowest)
      → get_elem? bucket k ≡ some e
      → matches hash e ≡ false
      → e.occupied ≡ true
      → Scanned bucket hash k empty_slot shallowest
      → Scanned bucket hash (suc k) empty_slot (shallower e k shallowest)
  unfolding shallower
  occupied_step k e empty_slot shallowest at m occ v =
      elim (Bool-cases (ltb_ℤ e.empties shallowest.empties)) [
        | inl less ↦ rw less (record {
          other = below_suc bucket k e _ at m v.other;
          slot_free = v.slot_free;
          taken = λ h. below_suc bucket k e _ at occ (v.taken h);
          front = (e, at, refl);
          least =
              below_suc bucket k e (λ o. o.occupied ≡ true → e.empties ≤ℤ o.empties) at
                (λ h. omega arith) (λ j o h g t. ground (arith, less, v.least j o h g t));
        })
        | inr more ↦ rw more (record {
          other = below_suc bucket k e _ at m v.other;
          slot_free = v.slot_free;
          taken = λ h. below_suc bucket k e _ at occ (v.taken h);
          front = v.front;
          least =
              below_suc bucket k e (λ o. o.occupied ≡ true → shallowest.empties ≤ℤ o.empties) at
                (λ h. ground (arith, more)) v.least;
        })
      ]

  free_step :
      (k : ℕ) (e : Entry) (empty_slot : Option ℕ) (shallowest : Shallowest)
      → get_elem? bucket k ≡ some e
      → matches hash e ≡ false
      → e.occupied ≡ false
      → Scanned bucket hash k empty_slot shallowest
      → Scanned bucket hash (suc k) (first_slot empty_slot k) shallowest
  unfolding first_slot
  free_step k e none shallowest at m f v = record {
    other = below_suc bucket k e _ at m v.other;
    slot_free =
        λ i h. (e, ap (get_elem? bucket) (let same : i ≡ k = ground (arith, h) in same) ∙ at, f);
    taken = λ h. ground (arith, h);
    front = v.front;
    least =
        below_suc bucket k e (λ o. o.occupied ≡ true → shallowest.empties ≤ℤ o.empties) at
          (λ h. cc (f, h)) v.least;
  }
  free_step k e (some i) shallowest at m f v = record {
    other = below_suc bucket k e _ at m v.other;
    slot_free = v.slot_free;
    taken = λ h. ground (arith, h);
    front = v.front;
    least =
        below_suc bucket k e (λ o. o.occupied ≡ true → shallowest.empties ≤ℤ o.empties) at
          (λ h. cc (f, h)) v.least;
  }

  scan :
      (entries : Bucket) (k : ℕ) (empty_slot : Option ℕ) (shallowest : Shallowest)
      → ((j : ℕ) → get_elem? entries j ≡ get_elem? bucket (j + k))
      → Scanned bucket hash k empty_slot shallowest
      → IsReplacement bucket hash empties
          (replacement_loop entries k hash empties empty_slot shallowest)
  unfolding replacement_loop shallower
  scan [] k empty_slot shallowest h v =
      finished k empty_slot shallowest (ap (get_elem? bucket) (omega arith) ∙ sym (h 0)) v
  scan (e ∷ entries) k empty_slot shallowest h v =
      let at : get_elem? bucket k ≡ some e = ap (get_elem? bucket) (omega arith) ∙ sym (h 0) in
      let later : (j : ℕ) → get_elem? entries j ≡ get_elem? bucket (j + suc k) =
        λ j. h (suc j) ∙ ap (get_elem? bucket) (omega arith) in
      elim (Bool-cases (matches hash e)) [
        | inl m ↦ rw m (MayWrite.same_hash e at m v.other)
        | inr m ↦ rw m (elim (Bool-cases e.occupied) [
          | inl t ↦ rw t (
              scan entries (suc k) empty_slot (shallower e k shallowest) later
                (occupied_step k e empty_slot shallowest at m t v))
          | inr f ↦ rw f (
              scan entries (suc k) (first_slot empty_slot k) shallowest later
                (free_step k e empty_slot shallowest at m f v))
        ])
      ]

-- The slot of `replacement_entry` is that of the entry of the hash, else a free one, else that of
-- an entry with the fewest empties and no more than are stored; without one of these, the store
-- is rejected.
pub replacement_entry-IsReplacement :
    (bucket : Bucket) (hash : ℕ) (empties : ℤ)
    → IsReplacement bucket hash empties (replacement_entry bucket hash empties)
unfolding replacement_entry
replacement_entry-IsReplacement [] hash empties = record {
  deeper = λ j e g. absurd (ground (arith, g));
  taken = λ j e g. absurd (ground (arith, g));
  other = λ j e g. absurd (ground (arith, g));
}
replacement_entry-IsReplacement (e ∷ entries) hash empties =
    scan (e ∷ entries) hash empties (e ∷ entries) 0 none (record { slot = 0; empties = e.empties })
      (λ j. ap (get_elem? (e ∷ entries)) (omega arith))
      (record {
        other = λ j o h g. absurd (omega arith);
        slot_free = λ i h. absurd (ground (arith, h));
        taken = λ h j o l g. absurd (omega arith);
        front = (e, refl, refl);
        least = λ j o h g. absurd (omega arith);
      })
