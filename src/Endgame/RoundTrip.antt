-- ===== src/Endgame/RoundTrip.antt =====
-- What a store writes, the lookup of the same position and window finds.
use mathlib.Core.Path.{subst}
use vibe_othello_engine.Base.{
  ℕ, zero, suc, ◌-◌, bit_and, ◌<◌, ◌≡◌, refl, ap, arith, Bool, true, false, Option, none, some,
  List, [], ◌∷◌, get_elem?, get_or, set, get_or_of, get_or-set, AllBelow,
}
use vibe_othello_engine.Base.Int.{ℤ, pos, ltb_ℤ}
use vibe_othello_engine.Board.Square.{Square, IsSquare, from_index}
use vibe_othello_engine.Search.Bound.{bound_for_score, proves_cutoff}
use vibe_othello_engine.Search.Line.{
  NodeResult, node_result_from_transposition_entry, square_from_transposition_index,
}
use vibe_othello_engine.Endgame.Table.{
  ExactTranspositionTable, ExactEndgameStats, Bucket, matches, matching_entry, replacement_entry,
  bucket_index, node_result_from_entry, to_int8,
}
use vibe_othello_engine.Endgame.Access.{
  lookup, lookup_bucket, lookup_entry, store, store_bucket, new_entry, stored_index,
}
use vibe_othello_engine.Endgame.Replacement.{
  Entry, MayWrite, IsReplacement, IsOther, replacement_entry-IsReplacement,
}

-- The bound of a score proves a cutoff in the window that was searched.
proves_cutoff-bound_for_score :
    (score alpha beta : ℤ)
    → proves_cutoff (bound_for_score score alpha beta) score alpha beta ≡ true
unfolding proves_cutoff bound_for_score
proves_cutoff-bound_for_score score alpha beta = ground arith

matching_entry-set :
    (hash : ℕ) (bucket : Bucket) (i : ℕ) (old e : Entry)
    → get_elem? bucket i ≡ some old
    → AllBelow bucket i (IsOther hash)
    → matches hash e ≡ true
    → matching_entry hash (set bucket i e) ≡ some e
unfolding matching_entry
matching_entry-set hash [] i old e at below m = absurd (ground (arith, at))
matching_entry-set hash (x ∷ xs) zero old e at below m = rw m refl
matching_entry-set hash (x ∷ xs) (suc i) old e at below m =
    rw (below 0 x (omega arith) refl)
      (matching_entry-set hash xs i old e at (λ j o h g. below (suc j) o (omega arith) g) m)

-- A slot that may be written holds an entry, and no entry before it has the hash.
writable :
    (bucket : Bucket) (hash : ℕ) (empties : ℤ) (i : ℕ)
    → MayWrite bucket hash empties i
    → ((old : Entry) × (get_elem? bucket i ≡ some old)) × AllBelow bucket i (IsOther hash)
writable bucket hash empties i (MayWrite.same_hash e at m below) = ((e, at), below)
writable bucket hash empties i (MayWrite.free e at f all) = ((e, at), λ j o h g. all j o g)
writable bucket hash empties i (MayWrite.shallow e at l s t all) = ((e, at), λ j o h g. all j o g)

small_int8 : (n : ℕ) → n < 128 → to_int8 (pos n) ≡ pos n
unfolding to_int8
small_int8 n h = ground arith

-- A move of the board, or none.
abbrev pub IsMove : Option Square → Type 0
IsMove none = Unit {0}
IsMove (some s) = IsSquare s

best_move-stored :
    (best_move : Option Square)
    → IsMove best_move
    → square_from_transposition_index (to_int8 (stored_index best_move)) ≡ best_move
unfolding square_from_transposition_index to_int8 stored_index from_index
best_move-stored none h = refl
best_move-stored (some s) h = ground (arith, h)

-- The result that a lookup gives for the score and the move that were stored.
abbrev pub stored_result : ℤ → Option Square → NodeResult
stored_result score best_move =
    node_result_from_transposition_entry score (to_int8 (stored_index best_move))

stored_result-parts :
    (score : ℤ) (best_move : Option Square)
    → IsMove best_move
    → ((stored_result score best_move).score ≡ score)
      × ((stored_result score best_move).best_move ≡ best_move)
unfolding node_result_from_transposition_entry
stored_result-parts score best_move h = (refl, best_move-stored best_move h)

module _ (hash n : ℕ) (score alpha beta : ℤ) (best_move : Option Square) (small : n < 128) where
  abbrev pub stored : Entry
  stored = new_entry hash (pos n) score alpha beta best_move

  stored-matches : matches hash stored ≡ true
  unfolding matches new_entry
  stored-matches = ground arith

  stored-deep_enough : ltb_ℤ (stored.empties) (pos n) ≡ false
  unfolding new_entry
  stored-deep_enough = rw (small_int8 n small) (ground arith)

  lookup_entry-stored :
      (collect : Bool) (stats : ExactEndgameStats)
      → (lookup_entry stored alpha beta collect stats).0.cutoff
        ≡ some (stored_result score best_move)
  unfolding lookup_entry new_entry node_result_from_entry
  lookup_entry-stored collect stats = rw (proves_cutoff-bound_for_score score alpha beta) refl

  lookup_bucket-stored :
      (bucket : Bucket) (slot : ℕ) (collect : Bool) (stats : ExactEndgameStats)
      → MayWrite bucket hash (pos n) slot
      → (lookup_bucket (set bucket slot stored) hash (pos n) alpha beta collect stats).0.cutoff
        ≡ some (stored_result score best_move)
  unfolding lookup_bucket
  lookup_bucket-stored bucket slot collect stats may =
      let ((old, at), below) = writable bucket hash (pos n) slot may in
      rw (lookup_bucket, matching_entry-set hash bucket slot old stored at below stored-matches)
        (rw stored-deep_enough (lookup_entry-stored collect stats))

  module _ (count : ℕ) (buckets : List Bucket) (bucket : Bucket) (slot : ℕ)
      (at : get_elem? buckets (bit_and hash (count - 1)) ≡ some bucket)
      (found : replacement_entry bucket hash (pos n) ≡ some slot) where
    abbrev pub table : ExactTranspositionTable
    table = record { bucket_count = count; buckets = some buckets }

    store_bucket-stored :
        (stats : ExactEndgameStats)
        → (store_bucket (get_or buckets (bit_and hash (count - 1)) []) hash (pos n) stored stats).0
          ≡ set bucket slot stored
    unfolding store_bucket new_entry
    store_bucket-stored stats =
        rw (get_or_of buckets _ [] bucket at) (rw (store_bucket, found) refl)

    store-stored :
        (stats : ExactEndgameStats)
        → (store table hash (pos n) score alpha beta best_move stats).0 ≡ record table {
          buckets = some (set buckets (bit_and hash (count - 1)) (set bucket slot stored));
        }
    unfolding store bucket_index
    store-stored stats =
        ap (λ b. record table { buckets = some (set buckets (bit_and hash (count - 1)) b) })
          (store_bucket-stored stats)

    lookup-stored :
        (collect : Bool) (later : ExactEndgameStats)
        → (lookup
            (record table {
              buckets = some (set buckets (bit_and hash (count - 1)) (set bucket slot stored));
            })
            hash
            (pos n)
            alpha
            beta
            collect
            later).0.cutoff
          ≡ some (stored_result score best_move)
    unfolding lookup bucket_index
    lookup-stored collect later = rw (get_or-set buckets _ [] bucket (set bucket slot stored) at) (
        lookup_bucket-stored bucket slot collect _ (
          subst (IsReplacement bucket hash (pos n)) found
            (replacement_entry-IsReplacement bucket hash (pos n))))

    -- After a store that finds a slot in the bucket of the hash, the lookup of the hash with as
    -- many empties and in the same window is a cutoff with the score and the move that were stored.
    pub lookup-store :
        (collect : Bool) (stats later : ExactEndgameStats)
        → IsMove best_move
        → (r : NodeResult) × ((lookup
              (store table hash (pos n) score alpha beta best_move stats).0
              hash
              (pos n)
              alpha
              beta
              collect
              later).0.cutoff
            ≡ some r)
          × (r.score ≡ score)
          × (r.best_move ≡ best_move)
    lookup-store collect stats later move =
        let (s, m) = stored_result-parts score best_move move in
        (stored_result score best_move, rw (store-stored stats) (lookup-stored collect later), s, m)
