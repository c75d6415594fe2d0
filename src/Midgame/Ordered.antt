-- ===== src/Midgame/Ordered.antt =====
-- The search tries exactly the moves that flip something, the best scores first, by buckets too.
use mathlib.Core.Path.{subst}
use mathlib.Core.List.{Perm}
use mathlib.Core.List.Perm
use vibe_othello_engine.Base.{
  ℕ, zero, suc, ◌+◌, ◌≤◌, bit_and, ◌≡◌, refl, sym, arith, Bool, true, false, ◌==◌, Option, none,
  some, List, [], ◌++◌, Bool-cases, inl, inr,
}
use vibe_othello_engine.Base.Int.{ℤ, ltb_ℤ}
use vibe_othello_engine.Bits.Digit.{bit}
use vibe_othello_engine.Bits.U64.{IsWord, single}
use vibe_othello_engine.Bits.Scan.{popcount}
use vibe_othello_engine.Board.Square.{Square, square_bit}
use vibe_othello_engine.Search.Position.{SearchPosition, flips_for_known_empty_move}
use vibe_othello_engine.Search.Collect.{collect, collect_congr}
use vibe_othello_engine.Search.Sort.{
  sort_moves-Perm, sort_moves-IsOrdered, promote_preferred_move-Perm, Every, IsOrdered,
}
use vibe_othello_engine.Search.Sorted.{Every-append, Every-map, append-IsOrdered, not_before_lower}
use vibe_othello_engine.Midgame.Stats.{SearchStats}
use vibe_othello_engine.Midgame.Moves.{
  OrderedMove, MoveOrderingParams, StaticMoveBucket, static_score, Ordering, is_dynamic,
  move_order_score, bucket_order, sorted_order, ordered_legal_move_indexes, promote,
  ordered_with_preferred, can_use_static_bucket_ordering,
}
use vibe_othello_engine.Midgame.Bucketed.{
  move_with, append_moves-collect, kind_score, scored, static_move, bucket_order-scored,
  bucket_order-Perm,
}

abbrev score_of : OrderedMove → ℤ
score_of move = move.order_score

abbrev index_of_ordered : OrderedMove → ℕ
index_of_ordered move = move.index

module _ (position : SearchPosition) (s : ℤ) (bits : ℕ) where
  abbrev level : ℕ → ℕ → List OrderedMove
  level n i = collect (move_with position (λ i flips. s)) n i bits

  level-Every :
      (n i k : ℕ)
      → k ≤ i
      → Every score_of index_of_ordered
          (λ (m : OrderedMove). (m.order_score ≡ s) × (k ≤ m.index))
          (level n i)
  level-Every zero i k h = tt
  level-Every (suc n) i k h = elim (Bool-cases (bit i bits)) [
    | inr off ↦ rw off (level-Every n (i + 1) k (omega arith))
    | inl on ↦ elim (Bool-cases (flips_for_known_empty_move position (single i) == 0)) [
      | inl z ↦ rw (on, z) (level-Every n (i + 1) k (omega arith))
      | inr z ↦ rw (on, z) ((refl, h), level-Every n (i + 1) k (omega arith))
    ]
  ]

  level-IsOrdered : (n i : ℕ) → IsOrdered score_of index_of_ordered (level n i)
  level-IsOrdered zero i = tt
  level-IsOrdered (suc n) i = elim (Bool-cases (bit i bits)) [
    | inr off ↦ rw off (level-IsOrdered n (i + 1))
    | inl on ↦ elim (Bool-cases (flips_for_known_empty_move position (single i) == 0)) [
      | inl z ↦ rw (on, z) (level-IsOrdered n (i + 1))
      | inr z ↦
          rw (on, z)
            (
              Every-map score_of index_of_ordered _ _ (level n (i + 1))
                  (λ m e.
                    not_before_lower score_of index_of_ordered _ m (sym e.0) (omega (arith, e.1)))
                  (level-Every n (i + 1) (i + 1) (omega arith)),
              level-IsOrdered n (i + 1),
            )
    ]
  ]

module _ (position : SearchPosition) (params : MoveOrderingParams) (moves : ℕ)
    (w : IsWord moves) where
  abbrev run : StaticMoveBucket → List OrderedMove
  run kind = scored position params moves w kind

  run-IsOrdered : (kind : StaticMoveBucket) → IsOrdered score_of index_of_ordered (run kind)
  run-IsOrdered kind = level-IsOrdered position (kind_score params kind) _ 64 0

  run-equal :
      (kind : StaticMoveBucket)
      → Every score_of index_of_ordered
          (λ (m : OrderedMove). m.order_score ≡ kind_score params kind)
          (run kind)
  run-equal kind =
      Every-map score_of index_of_ordered _ _ (run kind) (λ m e. e.0)
        (level-Every position (kind_score params kind) _ 64 0 0 (omega arith))

  run-higher :
      (s : ℤ) (kind : StaticMoveBucket)
      → ltb_ℤ s (kind_score params kind) ≡ true
      → Every score_of index_of_ordered
          (λ (m : OrderedMove). ltb_ℤ s m.order_score ≡ true)
          (run kind)
  run-higher s kind h =
      Every-map score_of index_of_ordered _ _ (run kind) (λ m e. rw e h) (run-equal kind)

  bucket_order-IsOrdered :
      can_use_static_bucket_ordering params ≡ true
      → IsOrdered score_of index_of_ordered (bucket_order position params moves)
  unfolding can_use_static_bucket_ordering
  bucket_order-IsOrdered h =
      let corners = run StaticMoveBucket.corner in
      let edges = run StaticMoveBucket.edge in
      let normals = run StaticMoveBucket.normal in
      let two =
        append-IsOrdered score_of index_of_ordered params.static_edge_score corners edges
          (run-IsOrdered StaticMoveBucket.corner) (run-IsOrdered StaticMoveBucket.edge)
          (run-higher params.static_edge_score StaticMoveBucket.corner (ground (arith, h)))
          (run-equal StaticMoveBucket.edge) in
      let three =
        append-IsOrdered score_of index_of_ordered params.static_normal_score (corners ++ edges)
          normals two (run-IsOrdered StaticMoveBucket.normal)
          (Every-append score_of index_of_ordered _ corners edges
            (run-higher params.static_normal_score StaticMoveBucket.corner (ground (arith, h)))
            (run-higher params.static_normal_score StaticMoveBucket.edge (ground (arith, h))))
          (run-equal StaticMoveBucket.normal) in
      rw (bucket_order-scored position params moves w) (
        append-IsOrdered score_of index_of_ordered params.static_x_square_score
          ((corners ++ edges) ++ normals) (run StaticMoveBucket.x_square) three
          (run-IsOrdered StaticMoveBucket.x_square)
          (Every-append score_of index_of_ordered _ (corners ++ edges) normals
            (Every-append score_of index_of_ordered _ corners edges
              (run-higher params.static_x_square_score StaticMoveBucket.corner (ground (arith, h)))
              (run-higher params.static_x_square_score StaticMoveBucket.edge (ground (arith, h))))
            (run-higher params.static_x_square_score StaticMoveBucket.normal (ground (arith, h))))
          (run-equal StaticMoveBucket.x_square))

-- The move on a square with its score among these moves, if it flips something.
abbrev pub move_on : Ordering → ℕ → ℕ → List OrderedMove
move_on o moves =
    move_with o.position
      (λ index flips. move_order_score o index (single index) flips (popcount moves))

module _ (o : Ordering) (moves : ℕ) (w : IsWord moves) where
  abbrev IsRight : List OrderedMove → Type 0
  IsRight tried =
      Perm tried (collect (move_on o moves) 64 0 moves) × IsOrdered score_of index_of_ordered tried

  sorted_order-IsRight : IsRight (sorted_order o moves)
  unfolding sorted_order
  sorted_order-IsRight = (
    Perm.trans (sort_moves-Perm score_of index_of_ordered _) (
        subst (λ (tried : List OrderedMove). Perm tried (collect (move_on o moves) 64 0 moves))
          (sym (
            append_moves-collect o.position
              (λ index flips. move_order_score o index (single index) flips (popcount moves)) moves
              [] w))
          (Perm.refl _)),
    sort_moves-IsOrdered score_of index_of_ordered _,
  )

  static-move_on :
      is_dynamic o (popcount moves) ≡ false
      → (j : ℕ)
      → move_with o.position (λ index flips. static_score o.move_ordering_params index) j
        ≡ move_on o moves j
  unfolding move_order_score
  static-move_on off j = rw (move_order_score, off) refl

  bucket_order-IsRight :
      is_dynamic o (popcount moves) ≡ false
      → can_use_static_bucket_ordering o.move_ordering_params ≡ true
      → IsRight (bucket_order o.position o.move_ordering_params moves)
  bucket_order-IsRight off apart = (
    subst
        (λ (all : List OrderedMove).
          Perm (bucket_order o.position o.move_ordering_params moves) all)
        (collect_congr (static_move o.position o.move_ordering_params moves w) (move_on o moves) 64
          0 moves (λ j on. static-move_on off j))
        (bucket_order-Perm o.position o.move_ordering_params moves w),
    bucket_order-IsOrdered o.position o.move_ordering_params moves w apart,
  )

  ordered-IsRight : IsRight (ordered_legal_move_indexes o moves)
  unfolding ordered_legal_move_indexes
  ordered-IsRight = elim (Bool-cases (is_dynamic o (popcount moves))) [
    | inl on ↦ subst IsRight (rw (ordered_legal_move_indexes, on) refl) sorted_order-IsRight
    | inr off ↦ elim (Bool-cases (can_use_static_bucket_ordering o.move_ordering_params)) [
      | inr near ↦
          subst IsRight (rw (ordered_legal_move_indexes, off, near) refl) sorted_order-IsRight
      | inl apart ↦
          subst IsRight (rw (ordered_legal_move_indexes, off, apart) refl)
            (bucket_order-IsRight off apart)
    ]
  ]

  promote-Perm :
      (preferred : Option Square) (tried : List OrderedMove)
      → Perm (promote moves preferred tried).0 tried
  unfolding promote
  promote-Perm none tried = Perm.refl _
  promote-Perm (some square) tried = elim (Bool-cases (bit_and moves (square_bit square) == 0)) [
    | inl z ↦ rw z (Perm.refl _)
    | inr z ↦ rw z (promote_preferred_move-Perm score_of index_of_ordered square.index tried)
  ]

-- For every word of moves and all preferred moves, the moves that the search tries are those of the
-- set squares that flip something, with their scores, each once; before the preferred moves are put
-- in front, no move comes after one that the comparison puts behind it, also when the order comes
-- from the buckets and not from the sort.
pub ordered_with_preferred-Perm :
    (o : Ordering) (moves : ℕ) (preferred_move tt_preferred_move : Option Square)
    (from_shallow : Bool) (stats : SearchStats)
    → IsWord moves
    → Perm
        (ordered_with_preferred o moves preferred_move tt_preferred_move from_shallow stats).0
        (collect (move_on o moves) 64 0 moves)
      × IsOrdered
          (λ (move : OrderedMove). move.order_score)
          (λ (move : OrderedMove). move.index)
          (ordered_legal_move_indexes o moves)
unfolding ordered_with_preferred
ordered_with_preferred-Perm o moves preferred_move tt_preferred_move from_shallow stats w = (
  Perm.trans (promote-Perm o moves w preferred_move _)
      (Perm.trans (promote-Perm o moves w tt_preferred_move _) (ordered-IsRight o moves w).0),
  (ordered-IsRight o moves w).1,
)
