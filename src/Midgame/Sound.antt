-- ===== src/Midgame/Sound.antt =====
-- The table of the middle game never lies: a cutoff comes from an entry of the same position,
-- mode and evaluation, searched at least as deep.
use mathlib.Core.Path.{subst}
use vibe_othello_engine.Base.{
  ℕ, suc, ◌≡◌, refl, ap, sym, ◌∙◌, arith, Bool, true, false, not, ◌&&◌, if◌then◌else◌, Option, none,
  some, List, [], ◌∷◌, get_or, Bool-cases, Option-cases, inl, inr, some_injective, AllOf, AllOf-set,
  AllOf-get_or,
}
use vibe_othello_engine.Base.Int.{ℤ, ltb_ℤ, ◌≤ℤ◌}
use vibe_othello_engine.Board.Square.{Square}
use vibe_othello_engine.Search.Bound.{proves_cutoff, IsFailSoft, Bounds}
use vibe_othello_engine.Search.Cutoff.{bound_for_score-Bounds, proves_cutoff-IsFailSoft}
use vibe_othello_engine.Search.Line.{SearchNodeResult, search_node_result_from_transposition_entry}
use vibe_othello_engine.Endgame.Table.{increment}
use vibe_othello_engine.Midgame.Options.{SearchMode}
use vibe_othello_engine.Midgame.Stats.{SearchStats}
use vibe_othello_engine.Midgame.Table.{
  TranspositionEntry, TranspositionScope, empty_lookup, same_mode, entry_matches, Bucket,
  select_replacement_entry, TranspositionTable, bucket_index,
}
use vibe_othello_engine.Midgame.Access.{
  node_result_from_entry, hint_lookup, first_match, lookup_entry, lookup_bucket, lookup,
  stored_entry, store_bucket, store,
}

same_mode→eq : (a b : SearchMode) → same_mode a b ≡ true → a ≡ b
unfolding same_mode
same_mode→eq a b h = ground (arith, h)

first_match-AllOf :
    (P : TranspositionEntry → Type 0) (hash : ℕ) (scope : TranspositionScope) (bucket : Bucket)
    (e : TranspositionEntry)
    → AllOf P bucket
    → first_match hash scope bucket ≡ some e
    → (entry_matches hash scope e ≡ true) × P e
unfolding first_match
first_match-AllOf P hash scope [] e all h = absurd (ground (arith, h))
first_match-AllOf P hash scope (x ∷ xs) e all h = elim (Bool-cases (entry_matches hash scope x)) [
  | inl m ↦
      let same : x ≡ e = ground (arith, h, m) in
      (ap (entry_matches hash scope) (sym same) ∙ m, all 0 e (ap some same))
  | inr m ↦ first_match-AllOf P hash scope xs e (λ j o g. all (suc j) o g) (ground (arith, h, m))
]

hint_lookup-cutoff :
    (e : TranspositionEntry) (shallow : Bool) (stats : SearchStats)
    → (hint_lookup e shallow stats).0.cutoff ≡ none
unfolding hint_lookup
hint_lookup-cutoff e shallow stats = refl

-- Without a cutoff there is at most a hint.
hints :
    (e : TranspositionEntry) (a b c : SearchStats) (collect deep allow : Bool)
    → (if not collect
        then (empty_lookup, a)
        else if deep
        then hint_lookup e false b
        else if not allow
        then (empty_lookup, b)
        else hint_lookup e true c).0.cutoff
      ≡ none
unfolding hint_lookup empty_lookup
hints e a b c false deep allow = refl
hints e a b c true true allow = refl
hints e a b c true false false = refl
hints e a b c true false true = refl

lookup_entry-cutoff :
    (e : TranspositionEntry) (depth alpha beta : ℤ) (collect allow : Bool) (stats : SearchStats)
    (r : SearchNodeResult)
    → (lookup_entry e depth alpha beta collect allow stats).0.cutoff ≡ some r
    → (depth ≤ℤ e.depth)
      × (proves_cutoff e.bound e.score alpha beta ≡ true)
      × (node_result_from_entry e ≡ r)
unfolding lookup_entry
lookup_entry-cutoff e depth alpha beta collect allow stats r h =
    elim (Bool-cases (not (ltb_ℤ e.depth depth) && proves_cutoff e.bound e.score alpha beta)) [
      | inl c ↦
          let right : (lookup_entry e depth alpha beta collect allow stats).0.cutoff
              ≡ some (node_result_from_entry e) =
            rw c refl in
          (ground (arith, c), ground (arith, c), some_injective _ r (sym right ∙ h))
      | inr c ↦
          let wrong : (lookup_entry e depth alpha beta collect allow stats).0.cutoff ≡ none =
            rw c (hints e _ _ _ collect (not (ltb_ℤ e.depth depth)) allow) in
          absurd (cc (wrong, h))
    ]

lookup_bucket-cutoff :
    (bucket : Bucket) (hash : ℕ) (scope : TranspositionScope) (depth alpha beta : ℤ)
    (collect allow : Bool) (stats : SearchStats) (r : SearchNodeResult)
    → (lookup_bucket bucket hash scope depth alpha beta collect allow stats).0.cutoff ≡ some r
    → (e : TranspositionEntry) × (first_match hash scope bucket ≡ some e)
      × (depth ≤ℤ e.depth)
      × (proves_cutoff e.bound e.score alpha beta ≡ true)
      × (node_result_from_entry e ≡ r)
unfolding lookup_bucket empty_lookup
lookup_bucket-cutoff bucket hash scope depth alpha beta collect allow stats r h =
    elim (Option-cases (first_match hash scope bucket)) [
      | inl m ↦ absurd (ground (arith, h, m))
      | inr (e, m) ↦
          let found : (lookup_entry e depth alpha beta collect allow stats).0.cutoff ≡ some r =
            ground (arith, h, m) in
          let (deep, c, same) =
            lookup_entry-cutoff e depth alpha beta collect allow stats r found in
          (e, m, deep, c, same)
    ]

node_result-score :
    (e : TranspositionEntry) (r : SearchNodeResult)
    → node_result_from_entry e ≡ r
    → e.score ≡ r.score
unfolding node_result_from_entry search_node_result_from_transposition_entry
node_result-score e r h = ap (λ (n : SearchNodeResult). n.score) h

-- The value of the position of each hash in a mode, with an evaluation, to a depth.
module _ (value : SearchMode → ℕ → ℕ → ℤ → ℤ) where
  -- An entry that is occupied bounds the value of its position to its own depth.
  abbrev pub IsSound : TranspositionEntry → Type 0
  IsSound e =
      e.occupied ≡ true → Bounds e.bound e.score (value e.mode e.eval_identity e.hash e.depth)

  abbrev pub IsSoundTable : TranspositionTable → Type 0
  IsSoundTable table =
      (buckets : List Bucket) → table.buckets ≡ some buckets → AllOf (AllOf IsSound) buckets

  entry_value :
      (hash : ℕ) (scope : TranspositionScope) (e : TranspositionEntry)
      → entry_matches hash scope e ≡ true
      → IsSound e
      → Bounds e.bound e.score (value scope.mode scope.eval_identity hash e.depth)
  unfolding entry_matches
  entry_value hash scope e m sound =
      let occupied : e.occupied ≡ true = ground (arith, m) in
      let same : e.hash ≡ hash = ground (arith, m) in
      let identity : e.eval_identity ≡ scope.eval_identity = ground (arith, m) in
      let mode : e.mode ≡ scope.mode = same_mode→eq e.mode scope.mode (ground (arith, m)) in
      subst (λ t. Bounds e.bound e.score (value t scope.eval_identity hash e.depth)) mode
        (subst (λ i. Bounds e.bound e.score (value e.mode i hash e.depth)) identity
          (subst (λ h. Bounds e.bound e.score (value e.mode e.eval_identity h e.depth)) same
            (sound occupied)))

  -- A cutoff that a sound table gives is a sound result of the search of the window, to the depth
  -- asked for or a greater one.
  pub lookup_to_depth-IsFailSoft :
      (table : TranspositionTable) (hash : ℕ) (scope : TranspositionScope) (depth alpha beta : ℤ)
      (collect allow : Bool) (stats : SearchStats) (r : SearchNodeResult)
      → IsSoundTable table
      → (lookup table hash scope depth alpha beta collect allow stats).0.cutoff ≡ some r
      → (searched : ℤ) × (depth ≤ℤ searched)
        × IsFailSoft (value scope.mode scope.eval_identity hash searched) alpha beta r.score
  unfolding lookup empty_lookup
  lookup_to_depth-IsFailSoft table hash scope depth alpha beta collect allow stats r sound h =
      elim (Option-cases table.buckets) [
        | inl null ↦ absurd (ground (arith, h, null))
        | inr (buckets, there) ↦
            let bucket = get_or buckets (bucket_index table hash) [] in
            let (e, m, deep, c, same) =
              lookup_bucket-cutoff bucket hash scope depth alpha beta collect allow
                (record stats { tt_lookups = increment stats.tt_lookups }) r
                (ground (arith, h, there)) in
            let entries =
              AllOf-get_or (AllOf IsSound) buckets (bucket_index table hash) []
                (sound buckets there) (λ j o g. absurd (ground (arith, g))) in
            let (matched, right) = first_match-AllOf IsSound hash scope bucket e entries m in
            (
              e.depth,
              deep,
              subst (IsFailSoft _ alpha beta) (node_result-score e r same) (
                  proves_cutoff-IsFailSoft e.bound _ e.score alpha beta
                    (entry_value hash scope e matched right) c),
            )
      ]

  store_bucket-IsSound :
      (bucket : Bucket) (hash : ℕ) (scope : TranspositionScope) (generation : ℕ)
      (e : TranspositionEntry) (stats : SearchStats)
      → AllOf IsSound bucket
      → IsSound e
      → AllOf IsSound (store_bucket bucket hash scope generation e stats).0
  unfolding store_bucket
  store_bucket-IsSound bucket hash scope generation e stats all p =
      elim (Option-cases (select_replacement_entry bucket hash scope generation e.depth)) [
        | inl rejected ↦ rw (store_bucket, rejected) all
        | inr (slot, at) ↦ rw (store_bucket, at) (AllOf-set IsSound bucket slot e all p)
      ]

  -- Storing a sound result of a search keeps the table sound.
  pub store_to_depth-IsSoundTable :
      (table : TranspositionTable) (hash : ℕ) (scope : TranspositionScope) (generation : ℕ)
      (depth score alpha beta : ℤ) (best_move : Option Square) (stats : SearchStats)
      → IsSoundTable table
      → ltb_ℤ alpha beta ≡ true
      → IsFailSoft (value scope.mode scope.eval_identity hash depth) alpha beta score
      → IsSoundTable
          (store table hash scope generation depth score alpha beta best_move stats).table
  unfolding store stored_entry bucket_index
  store_to_depth-IsSoundTable table hash scope generation depth score alpha beta best_move stats
        sound w right =
      elim (Option-cases table.buckets) [
        | inl null ↦ rw null (λ after e. absurd (ground (arith, e)))
        | inr (buckets, there) ↦ rw there (λ after e.
            let index = bucket_index table hash in
            let all = sound buckets there in
            subst (AllOf (AllOf IsSound)) (some_injective _ after e) (
              AllOf-set (AllOf IsSound) buckets index _ all (
                store_bucket-IsSound (get_or buckets index []) hash scope generation _ stats
                  (AllOf-get_or (AllOf IsSound) buckets index [] all
                    (λ j o g. absurd (ground (arith, g))))
                  (λ o. bound_for_score-Bounds _ score alpha beta w right))))
      ]
