-- ===== src/Midgame/Bucketed.antt =====
-- The order by buckets of src/search_move_ordering.cpp has the moves that flip something.
use mathlib.Core.List.{Perm}
use mathlib.Core.List.Perm
use vibe_othello_engine.Base.{
  ℕ, ◌<◌, bit_or, ◌≡◌, refl, ap, sym, ◌∙◌, arith, true, false, ◌&&◌, ◌||◌, ◌==◌, List, [], ◌∷◌,
  ◌++◌, if◌then◌else◌, Bool-cases, inl, inr,
}
use mathlib.Core.List.{append-nil}
use vibe_othello_engine.Base.Int.{ℤ}
use vibe_othello_engine.Bits.Digit.{bit-or}
use vibe_othello_engine.Bits.U64.{IsWord, single}
use vibe_othello_engine.Bits.Scan.{each_bit}
use vibe_othello_engine.Search.Position.{SearchPosition, flips_for_known_empty_move}
use vibe_othello_engine.Search.Collect.{collect, each_bit-collect, collect-Perm, collect_congr}
use vibe_othello_engine.Midgame.Moves.{
  OrderedMove, MoveOrderingParams, StaticMoveBucket, static_move_bucket, static_score, append_move,
  append_static_bucket, buckets_of, bucket_order,
}
use vibe_othello_engine.Midgame.Buckets.{word_of, same, bit-buckets_of, buckets_of-IsWord}

-- The move on a square with its score, if it flips something.
abbrev pub move_with : SearchPosition → (ℕ → ℕ → ℤ) → ℕ → List OrderedMove
move_with position score i =
    if flips_for_known_empty_move position (single i) == 0
    then []
    else record {
      index = i;
      flips = flips_for_known_empty_move position (single i);
      order_score = score i (flips_for_known_empty_move position (single i));
    }
      ∷ []

module _ (position : SearchPosition) (score : ℕ → ℕ → ℤ) where
  append_move-move_with :
      (i : ℕ) (so_far : List OrderedMove)
      → i < 64
      → append_move position score i so_far ≡ so_far ++ move_with position score i
  unfolding append_move
  append_move-move_with i so_far h =
      elim (Bool-cases (flips_for_known_empty_move position (single i) == 0)) [
        | inl z ↦ rw (append_move, z) (sym (append-nil so_far))
        | inr z ↦ rw (append_move, z) refl
      ]

  pub append_moves-collect :
      (moves : ℕ) (so_far : List OrderedMove)
      → IsWord moves
      → each_bit 64 (append_move position score) moves so_far
        ≡ so_far ++ collect (move_with position score) 64 0 moves
  append_moves-collect moves so_far w =
      each_bit-collect (move_with position score) (append_move position score) append_move-move_with
        moves so_far w

abbrev pub kind_score : MoveOrderingParams → StaticMoveBucket → ℤ
kind_score params StaticMoveBucket.corner = params.static_corner_score
kind_score params StaticMoveBucket.edge = params.static_edge_score
kind_score params StaticMoveBucket.normal = params.static_normal_score
kind_score params StaticMoveBucket.x_square = params.static_x_square_score

static_score-kind :
    (params : MoveOrderingParams) (j : ℕ)
    → static_score params j ≡ kind_score params (static_move_bucket j)
unfolding static_score static_move_bucket
static_score-kind params j = ground arith

same_kind : (b k : StaticMoveBucket) → same b k ≡ true → b ≡ k
same_kind StaticMoveBucket.corner StaticMoveBucket.corner h = refl
same_kind StaticMoveBucket.corner StaticMoveBucket.edge h = absurd (ground (arith, h))
same_kind StaticMoveBucket.corner StaticMoveBucket.normal h = absurd (ground (arith, h))
same_kind StaticMoveBucket.corner StaticMoveBucket.x_square h = absurd (ground (arith, h))
same_kind StaticMoveBucket.edge StaticMoveBucket.corner h = absurd (ground (arith, h))
same_kind StaticMoveBucket.edge StaticMoveBucket.edge h = refl
same_kind StaticMoveBucket.edge StaticMoveBucket.normal h = absurd (ground (arith, h))
same_kind StaticMoveBucket.edge StaticMoveBucket.x_square h = absurd (ground (arith, h))
same_kind StaticMoveBucket.normal StaticMoveBucket.corner h = absurd (ground (arith, h))
same_kind StaticMoveBucket.normal StaticMoveBucket.edge h = absurd (ground (arith, h))
same_kind StaticMoveBucket.normal StaticMoveBucket.normal h = refl
same_kind StaticMoveBucket.normal StaticMoveBucket.x_square h = absurd (ground (arith, h))
same_kind StaticMoveBucket.x_square StaticMoveBucket.corner h = absurd (ground (arith, h))
same_kind StaticMoveBucket.x_square StaticMoveBucket.edge h = absurd (ground (arith, h))
same_kind StaticMoveBucket.x_square StaticMoveBucket.normal h = absurd (ground (arith, h))
same_kind StaticMoveBucket.x_square StaticMoveBucket.x_square h = refl

-- Every kind is one of the four, and only one.
one_kind :
    (k : StaticMoveBucket)
    → ((((same StaticMoveBucket.corner k || same StaticMoveBucket.edge k)
            || same StaticMoveBucket.normal k)
          || same StaticMoveBucket.x_square k)
        ≡ true)
      × ((same StaticMoveBucket.corner k && same StaticMoveBucket.edge k) ≡ false)
      × (((same StaticMoveBucket.corner k || same StaticMoveBucket.edge k)
            && same StaticMoveBucket.normal k)
          ≡ false)
      × ((((same StaticMoveBucket.corner k || same StaticMoveBucket.edge k)
              || same StaticMoveBucket.normal k)
            && same StaticMoveBucket.x_square k)
          ≡ false)
one_kind StaticMoveBucket.corner = (refl, refl, refl, refl)
one_kind StaticMoveBucket.edge = (refl, refl, refl, refl)
one_kind StaticMoveBucket.normal = (refl, refl, refl, refl)
one_kind StaticMoveBucket.x_square = (refl, refl, refl, refl)

module _ (position : SearchPosition) (params : MoveOrderingParams) (moves : ℕ)
    (w : IsWord moves) where
  abbrev pub static_move : ℕ → List OrderedMove
  static_move = move_with position (λ i flips. static_score params i)

  abbrev bucket : StaticMoveBucket → List OrderedMove
  bucket kind = collect static_move 64 0 (word_of kind (buckets_of moves))

  abbrev pub scored : StaticMoveBucket → List OrderedMove
  scored kind =
      collect (move_with position (λ i flips. kind_score params kind)) 64 0
        (word_of kind (buckets_of moves))

  scored-bucket : (kind : StaticMoveBucket) → scored kind ≡ bucket kind
  scored-bucket kind =
      collect_congr (move_with position (λ i flips. kind_score params kind)) static_move 64 0
        (word_of kind (buckets_of moves))
        (λ j on.
          let here : same kind (static_move_bucket j) ≡ true =
            ground (arith, bit-buckets_of kind j moves w, on) in
          rw (static_score-kind params j, ← same_kind kind (static_move_bucket j) here) refl)

  bucket-collect :
      (kind : StaticMoveBucket) (so_far : List OrderedMove)
      → append_static_bucket so_far position
          (word_of kind (buckets_of moves))
          (kind_score params kind)
        ≡ so_far ++ scored kind
  unfolding append_static_bucket
  bucket-collect kind so_far =
      append_moves-collect position (λ i flips. kind_score params kind)
        (word_of kind (buckets_of moves)) so_far (buckets_of-IsWord kind moves w)

  pub bucket_order-scored :
      bucket_order position params moves
      ≡ ((scored StaticMoveBucket.corner ++ scored StaticMoveBucket.edge)
          ++ scored StaticMoveBucket.normal)
        ++ scored StaticMoveBucket.x_square
  unfolding bucket_order
  bucket_order-scored =
      bucket-collect StaticMoveBucket.x_square _
      ∙ ap (λ xs. xs ++ scored StaticMoveBucket.x_square)
          (bucket-collect StaticMoveBucket.normal _
            ∙ ap (λ xs. xs ++ scored StaticMoveBucket.normal)
                (bucket-collect StaticMoveBucket.edge _
                  ∙ ap (λ xs. xs ++ scored StaticMoveBucket.edge)
                      (bucket-collect StaticMoveBucket.corner [])))

  pub bucket_order-Perm : Perm (bucket_order position params moves) (collect static_move 64 0 moves)
  bucket_order-Perm =
      let words = buckets_of moves in
      let first_two = bit_or words.corner_moves words.edge_moves in
      let first_three = bit_or first_two words.normal_moves in
      let in_corner = λ (j : ℕ). bit-buckets_of StaticMoveBucket.corner j moves w in
      let in_edge = λ (j : ℕ). bit-buckets_of StaticMoveBucket.edge j moves w in
      let in_normal = λ (j : ℕ). bit-buckets_of StaticMoveBucket.normal j moves w in
      let in_x = λ (j : ℕ). bit-buckets_of StaticMoveBucket.x_square j moves w in
      let in_two = λ (j : ℕ). bit-or j words.corner_moves words.edge_moves in
      let in_three = λ (j : ℕ). bit-or j first_two words.normal_moves in
      let kinds = λ (j : ℕ). one_kind (static_move_bucket j) in
      rw
        (
          bucket_order-scored,
          scored-bucket StaticMoveBucket.corner,
          scored-bucket StaticMoveBucket.edge,
          scored-bucket StaticMoveBucket.normal,
          scored-bucket StaticMoveBucket.x_square,
        )
        (Perm.trans
          (Perm.append_right (bucket StaticMoveBucket.x_square) (
            Perm.trans
              (Perm.append_right (bucket StaticMoveBucket.normal) (
                collect-Perm static_move 64 0 words.corner_moves words.edge_moves first_two in_two
                  (λ j. ground (arith, in_corner j, in_edge j, (kinds j).1))))
              (collect-Perm static_move 64 0 first_two words.normal_moves first_three in_three
                (λ j. ground (arith, in_two j, in_corner j, in_edge j, in_normal j, (kinds j).2)))))
          (collect-Perm static_move 64 0 first_three words.x_square_moves moves
            (λ j. ground (
              arith,
              in_three j,
              in_two j,
              in_corner j,
              in_edge j,
              in_normal j,
              in_x j,
              (kinds j).0,
            ))
            (λ j. ground (
              arith,
              in_three j,
              in_two j,
              in_corner j,
              in_edge j,
              in_normal j,
              in_x j,
              (kinds j).3,
            ))))
