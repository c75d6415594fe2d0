-- ===== src/Midgame/Selection.antt =====
-- The loop of `select_replacement_entry`, round by round.

use vibe_othello_engine.Base.{
  ℕ, suc, ◌+◌, ◌≡◌, refl, ap, sym, ◌∙◌, arith, true, false, Option, none, some, [], ◌∷◌, AllOf,
  below_suc, below_end, get_elem?, Bool-cases, inl, inr,
}
use vibe_othello_engine.Base.Int.{ℤ, ltb_ℤ}
use vibe_othello_engine.Endgame.Table.{first_slot}
use vibe_othello_engine.Midgame.Table.{
  TranspositionEntry, TranspositionScope, generation_age, replacement_protection_score,
  entry_matches, Bucket, Weakest, is_weaker, weaker, replaced_slot, select_loop,
  select_replacement_entry,
}
use vibe_othello_engine.Midgame.Replacement.{
  IsOccupied, protection, NotWeaker, MayReplace, IsSelected, WeakestBelow, Scanned,
  NotWeaker-weaker, NotWeaker-self, no_weaker_protected, NotWeaker-IsNoWeaker,
}
use vibe_othello_engine.Midgame.Strength.{
  IsFor, IsModest, replacement_protection_score_lem, entry_matches-IsFor, not_matching,
}

module _ (bucket : Bucket) (hash : ℕ) (scope : TranspositionScope) (generation : ℕ) (depth : ℤ)
    (modest : AllOf (λ e. IsModest e.depth) bucket) (fits : IsModest depth) where
  finished :
      (k : ℕ) (empty_slot : Option ℕ) (weakest : Option Weakest)
      → get_elem? bucket k ≡ none
      → Scanned bucket hash scope generation k empty_slot weakest
      → IsSelected bucket hash scope generation depth (replaced_slot depth empty_slot weakest)
  unfolding replaced_slot
  finished k (some i) weakest h v =
      let (e, at, f) = v.slot_free i refl in
      MayReplace.free e at f
        (λ j o g. not_matching hash scope o (v.other j o (below_end bucket k h j o g) g))
  finished k none none h v =
      let inside = below_end bucket k h in
      record {
        stronger =
            λ j o g. absurd (cc (v.taken refl j o (inside j o g) g, v.least j o (inside j o g) g));
        taken = λ j o g. v.taken refl j o (inside j o g) g;
        other = λ j o g. not_matching hash scope o (v.other j o (inside j o g) g);
      }
  finished k none (some w) h v =
      let inside = below_end bucket k h in
      let taken : AllOf IsOccupied bucket = λ j o g. v.taken refl j o (inside j o g) g in
      let other : AllOf (λ o. ¬ (IsFor hash scope o)) bucket =
        λ j o g. not_matching hash scope o (v.other j o (inside j o g) g) in
      let ((e, at, same), below) = v.least in
      let least : AllOf (NotWeaker generation (protection generation e w.slot)) bucket =
        λ j o g. rw same (below j o (inside j o g) g (taken j o g)) in
      let incoming = replacement_protection_score_lem depth 0 fits in
      let its =
        replacement_protection_score_lem e.depth (generation_age generation e.generation)
          (modest w.slot e at) in
      let its_score : (protection generation e w.slot).score ≡ w.score =
        ap (λ (x : Weakest). x.score) same in
      elim (Bool-cases (ltb_ℤ (replacement_protection_score depth 0) w.score)) [
        | inl more ↦ rw more (record {
          stronger = λ j o g.
              let theirs =
                replacement_protection_score_lem o.depth (generation_age generation o.generation)
                  (modest j o g) in
              rw (← incoming, ← theirs)
                (no_weaker_protected generation depth (protection generation e w.slot) o
                  (rw its_score more) (least j o g));
          taken = taken;
          other = other;
        })
        | inr less ↦ rw less (
            MayReplace.weakest e at (rw (← incoming, ← its, its_score) (ground (arith, less)))
              (λ j o g.
                NotWeaker-IsNoWeaker generation e o w.slot (modest w.slot e at) (modest j o g)
                  (least j o g))
              taken other)
      ]

  occupied_step :
      (k : ℕ) (e : TranspositionEntry) (empty_slot : Option ℕ) (weakest : Option Weakest)
      → get_elem? bucket k ≡ some e
      → entry_matches hash scope e ≡ false
      → e.occupied ≡ true
      → Scanned bucket hash scope generation k empty_slot weakest
      → Scanned bucket hash scope generation (suc k) empty_slot (weaker generation e k weakest)
  unfolding weaker
  occupied_step k e empty_slot none at m occ v = record {
    other = below_suc bucket k e _ at m v.other;
    slot_free = v.slot_free;
    taken = λ h. below_suc bucket k e _ at occ (v.taken h);
    least = (
      (e, at, refl),
      below_suc bucket k e _ at (λ h. NotWeaker-self generation e k)
          (λ j o h g t. absurd (cc (t, v.least j o h g))),
    );
  }
  occupied_step k e empty_slot (some w) at m occ v =
      let (front, below) = v.least in
      let p = protection generation e k in
      elim (Bool-cases (is_weaker p.score p.age p.depth w)) [
        | inl less ↦ rw less (record {
          other = below_suc bucket k e _ at m v.other;
          slot_free = v.slot_free;
          taken = λ h. below_suc bucket k e _ at occ (v.taken h);
          least = (
            (e, at, refl),
            below_suc bucket k e _ at (λ h. NotWeaker-self generation e k)
                (λ j o h g t. NotWeaker-weaker generation o w p (below j o h g t) less),
          );
        })
        | inr more ↦ rw more (record {
          other = below_suc bucket k e _ at m v.other;
          slot_free = v.slot_free;
          taken = λ h. below_suc bucket k e _ at occ (v.taken h);
          least = (front, below_suc bucket k e _ at (λ h. more) below);
        })
      ]

  weakest_unchanged :
      (k : ℕ) (e : TranspositionEntry) (weakest : Option Weakest)
      → get_elem? bucket k ≡ some e
      → e.occupied ≡ false
      → WeakestBelow bucket generation k weakest
      → WeakestBelow bucket generation (suc k) weakest
  weakest_unchanged k e none at f v = below_suc bucket k e _ at f v
  weakest_unchanged k e (some w) at f (front, below) =
      (front, below_suc bucket k e _ at (λ h. absurd (cc (f, h))) below)

  free_step :
      (k : ℕ) (e : TranspositionEntry) (empty_slot : Option ℕ) (weakest : Option Weakest)
      → get_elem? bucket k ≡ some e
      → entry_matches hash scope e ≡ false
      → e.occupied ≡ false
      → Scanned bucket hash scope generation k empty_slot weakest
      → Scanned bucket hash scope generation (suc k) (first_slot empty_slot k) weakest
  unfolding first_slot
  free_step k e none weakest at m f v = record {
    other = below_suc bucket k e _ at m v.other;
    slot_free =
        λ i h. (e, ap (get_elem? bucket) (let same : i ≡ k = ground (arith, h) in same) ∙ at, f);
    taken = λ h. ground (arith, h);
    least = weakest_unchanged k e weakest at f v.least;
  }
  free_step k e (some i) weakest at m f v = record {
    other = below_suc bucket k e _ at m v.other;
    slot_free = v.slot_free;
    taken = λ h. ground (arith, h);
    least = weakest_unchanged k e weakest at f v.least;
  }

  scan :
      (entries : Bucket) (k : ℕ) (empty_slot : Option ℕ) (weakest : Option Weakest)
      → ((j : ℕ) → get_elem? entries j ≡ get_elem? bucket (j + k))
      → Scanned bucket hash scope generation k empty_slot weakest
      → IsSelected bucket hash scope generation depth
          (select_loop entries k hash scope generation depth empty_slot weakest)
  unfolding select_loop
  scan [] k empty_slot weakest h v =
      finished k empty_slot weakest (ap (get_elem? bucket) (omega arith) ∙ sym (h 0)) v
  scan (e ∷ entries) k empty_slot weakest h v =
      let at : get_elem? bucket k ≡ some e = ap (get_elem? bucket) (omega arith) ∙ sym (h 0) in
      let later : (j : ℕ) → get_elem? entries j ≡ get_elem? bucket (j + suc k) =
        λ j. h (suc j) ∙ ap (get_elem? bucket) (omega arith) in
      elim (Bool-cases (entry_matches hash scope e)) [
        | inl m ↦ rw m (
            MayReplace.same_key e at (entry_matches-IsFor hash scope e m)
              (λ j o l g. not_matching hash scope o (v.other j o l g)))
        | inr m ↦ rw m (elim (Bool-cases e.occupied) [
          | inl t ↦ simp t (
              scan entries (suc k) empty_slot (weaker generation e k weakest) later
                (occupied_step k e empty_slot weakest at m t v))
          | inr f ↦ simp f (
              scan entries (suc k) (first_slot empty_slot k) weakest later
                (free_step k e empty_slot weakest at m f v))
        ])
      ]

  -- For depths below 2 ^ 29, the slot of `select_replacement_entry` is that of the first entry for the
  -- hash in the scope, else a free one, else that of an entry that no other is weaker than, by
  -- strength, then age, then depth, and that is no stronger than the new entry; the store is rejected
  -- only if all slots are taken by stronger entries of other positions. The strength is four for each
  -- ply less one for each search since, but no more than eight.
  pub select_replacement_entry-IsSelected :
      IsSelected bucket hash scope generation depth
        (select_replacement_entry bucket hash scope generation depth)
  unfolding select_replacement_entry
  select_replacement_entry-IsSelected =
      scan bucket 0 none none (λ j. ap (get_elem? bucket) (omega arith))
        (record {
          other = λ j o h g. absurd (omega arith);
          slot_free = λ i h. absurd (ground (arith, h));
          taken = λ h j o l g. absurd (omega arith);
          least = λ j o h g. absurd (omega arith);
        })
