-- ===== src/Endgame/Sound.antt =====
-- The endgame table never lies: scores that are sound when stored give sound cutoffs.
use mathlib.Core.Path.{subst}
use vibe_othello_engine.Base.{
  ℕ, suc, ◌≡◌, refl, ap, sym, ◌∙◌, arith, Bool, true, Option, some, List, [], ◌∷◌, get_or,
  Bool-cases, Option-cases, inl, inr, some_injective, AllOf, AllOf-set, AllOf-get_or,
}
use vibe_othello_engine.Base.Int.{ℤ, ltb_ℤ}
use vibe_othello_engine.Board.Square.{Square}
use vibe_othello_engine.Search.Bound.{proves_cutoff, IsFailSoft, Bounds}
use vibe_othello_engine.Search.Cutoff.{bound_for_score-Bounds, proves_cutoff-IsFailSoft}
use vibe_othello_engine.Search.Line.{NodeResult, node_result_from_transposition_entry}
use vibe_othello_engine.Endgame.Table.{
  ExactTranspositionTable, ExactEndgameStats, Bucket, matches, matching_entry, replacement_entry,
  bucket_index, increment, no_lookup, node_result_from_entry,
}
use vibe_othello_engine.Endgame.Access.{
  lookup, lookup_bucket, lookup_entry, store, store_bucket, new_entry,
}
use vibe_othello_engine.Endgame.Replacement.{Entry}

module _ (P : Entry → Type 0) where
  matching_entry-AllOf :
      (hash : ℕ) (bucket : Bucket) (e : Entry)
      → AllOf P bucket
      → matching_entry hash bucket ≡ some e
      → (matches hash e ≡ true) × P e
  unfolding matching_entry
  matching_entry-AllOf hash [] e all h = absurd (ground (arith, h))
  matching_entry-AllOf hash (x ∷ xs) e all h = elim (Bool-cases (matches hash x)) [
    | inl m ↦
        let same : x ≡ e = ground (arith, h, m) in
        (ap (matches hash) (sym same) ∙ m, all 0 e (ap some same))
    | inr m ↦ matching_entry-AllOf hash xs e (λ j o g. all (suc j) o g) (ground (arith, h, m))
  ]

-- The exact value of the position of each hash.
module _ (value : ℕ → ℤ) where
  -- An entry that is occupied bounds the value of its hash.
  abbrev pub IsSound : Entry → Type 0
  IsSound e = e.occupied ≡ true → Bounds e.bound e.score (value e.hash)

  abbrev pub IsSoundTable : ExactTranspositionTable → Type 0
  IsSoundTable table =
      (buckets : List Bucket) → table.buckets ≡ some buckets → AllOf (AllOf IsSound) buckets

  entry_value :
      (hash : ℕ) (e : Entry)
      → matches hash e ≡ true
      → IsSound e
      → Bounds e.bound e.score (value hash)
  unfolding matches
  entry_value hash e m sound =
      let occupied : e.occupied ≡ true = ground (arith, m) in
      let same : e.hash ≡ hash = ground (arith, m) in
      subst (λ h. Bounds e.bound e.score (value h)) same (sound occupied)

node_result-score :
    (score index : ℤ) → (node_result_from_transposition_entry score index).score ≡ score
unfolding node_result_from_transposition_entry
node_result-score score index = refl

lookup_entry-cutoff :
    (e : Entry) (alpha beta : ℤ) (collect : Bool) (stats : ExactEndgameStats) (r : NodeResult)
    → (lookup_entry e alpha beta collect stats).0.cutoff ≡ some r
    → (proves_cutoff e.bound e.score alpha beta ≡ true) × (node_result_from_entry e ≡ r)
unfolding lookup_entry no_lookup
lookup_entry-cutoff e alpha beta collect stats r h =
    elim (Bool-cases (proves_cutoff e.bound e.score alpha beta)) [
      | inl c ↦ (c, ground (arith, h, c))
      | inr c ↦ absurd (ground (arith, h, c))
    ]

lookup_bucket-cutoff :
    (bucket : Bucket) (hash : ℕ) (empties alpha beta : ℤ) (collect : Bool)
    (stats : ExactEndgameStats) (r : NodeResult)
    → (lookup_bucket bucket hash empties alpha beta collect stats).0.cutoff ≡ some r
    → (e : Entry) × (matching_entry hash bucket ≡ some e)
      × (proves_cutoff e.bound e.score alpha beta ≡ true)
      × (node_result_from_entry e ≡ r)
unfolding lookup_bucket no_lookup
lookup_bucket-cutoff bucket hash empties alpha beta collect stats r h =
    elim (Option-cases (matching_entry hash bucket)) [
      | inl m ↦ absurd (ground (arith, h, m))
      | inr (e, m) ↦
          let found : (lookup_entry e alpha beta collect stats).0.cutoff ≡ some r =
            ground (arith, h, m) in
          let (c, same) = lookup_entry-cutoff e alpha beta collect stats r found in (e, m, c, same)
    ]

module _ (value : ℕ → ℤ) where
  -- A cutoff that a sound table gives is a sound result of the search of the window.
  pub lookup-IsFailSoft :
      (table : ExactTranspositionTable) (hash : ℕ) (empties alpha beta : ℤ) (collect : Bool)
      (stats : ExactEndgameStats) (r : NodeResult)
      → IsSoundTable value table
      → (lookup table hash empties alpha beta collect stats).0.cutoff ≡ some r
      → IsFailSoft (value hash) alpha beta r.score
  unfolding lookup no_lookup node_result_from_entry
  lookup-IsFailSoft table hash empties alpha beta collect stats r sound h =
      elim (Option-cases table.buckets) [
        | inl null ↦ absurd (ground (arith, h, null))
        | inr (buckets, there) ↦
            let bucket = get_or buckets (bucket_index table hash) [] in
            let (e, m, c, same) =
              lookup_bucket-cutoff bucket hash empties alpha beta collect
                (record stats { tt_lookups = increment stats.tt_lookups }) r
                (ground (arith, h, there)) in
            let entries =
              AllOf-get_or (AllOf (IsSound value)) buckets (bucket_index table hash) []
                (sound buckets there) (λ j o g. absurd (ground (arith, g))) in
            let (matched, right) = matching_entry-AllOf (IsSound value) hash bucket e entries m in
            let scores : e.score ≡ r.score =
              sym (node_result-score e.score e.best_move_index)
              ∙ ap (λ (n : NodeResult). n.score) same in
            subst (IsFailSoft (value hash) alpha beta) scores (
              proves_cutoff-IsFailSoft e.bound (value hash) e.score alpha beta
                (entry_value value hash e matched right) c)
      ]

  store_bucket-IsSound :
      (bucket : Bucket) (hash : ℕ) (empties : ℤ) (e : Entry) (stats : ExactEndgameStats)
      → AllOf (IsSound value) bucket
      → IsSound value e
      → AllOf (IsSound value) (store_bucket bucket hash empties e stats).0
  unfolding store_bucket
  store_bucket-IsSound bucket hash empties e stats all p =
      elim (Option-cases (replacement_entry bucket hash empties)) [
        | inl none_found ↦ rw (store_bucket, none_found) all
        | inr (slot, at) ↦ rw (store_bucket, at) (AllOf-set (IsSound value) bucket slot e all p)
      ]

  -- Storing a sound result of a search keeps the table sound.
  pub store-IsSoundTable :
      (table : ExactTranspositionTable) (hash : ℕ) (empties score alpha beta : ℤ)
      (best_move : Option Square) (stats : ExactEndgameStats)
      → IsSoundTable value table
      → ltb_ℤ alpha beta ≡ true
      → IsFailSoft (value hash) alpha beta score
      → IsSoundTable value (store table hash empties score alpha beta best_move stats).0
  unfolding store new_entry bucket_index
  store-IsSoundTable table hash empties score alpha beta best_move stats sound w right =
      elim (Option-cases table.buckets) [
        | inl null ↦ rw null (λ after e. absurd (ground (arith, e)))
        | inr (buckets, there) ↦ rw there (λ after e.
            let index = bucket_index table hash in
            let all = sound buckets there in
            subst (AllOf (AllOf (IsSound value))) (some_injective _ after e) (
              AllOf-set (AllOf (IsSound value)) buckets index _ all (
                store_bucket-IsSound (get_or buckets index []) hash empties _ stats
                  (AllOf-get_or (AllOf (IsSound value)) buckets index [] all
                    (λ j o g. absurd (ground (arith, g))))
                  (λ o. bound_for_score-Bounds (value hash) score alpha beta w right))))
      ]
