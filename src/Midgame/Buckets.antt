-- ===== src/Midgame/Buckets.antt =====
-- The buckets of src/search_move_ordering.cpp split the moves by their kind.
use vibe_othello_engine.Base.{
  ℕ, zero, suc, ◌+◌, ◌<◌, bit_or, ltb, leb, ◌≡◌, refl, ap, ◌∙◌, arith, Bool, true, false, ◌&&◌,
  ◌||◌, ◌==◌, Bool-cases, inl, inr,
}
use vibe_othello_engine.Bits.Digit.{bit, bit-or}
use vibe_othello_engine.Bits.Word.{bit-zero}
use vibe_othello_engine.Bits.U64.{
  IsWord, single, bit-single, bit_or-IsWord, single-IsWord, bit_outside,
}
use vibe_othello_engine.Bits.Scan.{fold_bits, each_bit-fold}
use vibe_othello_engine.Midgame.Moves.{
  StaticMoveBucket, static_move_bucket, Buckets, put_in, add_to_bucket, buckets_of,
}

abbrev pub word_of : StaticMoveBucket → Buckets → ℕ
word_of StaticMoveBucket.corner buckets = buckets.corner_moves
word_of StaticMoveBucket.edge buckets = buckets.edge_moves
word_of StaticMoveBucket.normal buckets = buckets.normal_moves
word_of StaticMoveBucket.x_square buckets = buckets.x_square_moves

abbrev pub same : StaticMoveBucket → StaticMoveBucket → Bool
same StaticMoveBucket.corner StaticMoveBucket.corner = true
same StaticMoveBucket.edge StaticMoveBucket.edge = true
same StaticMoveBucket.normal StaticMoveBucket.normal = true
same StaticMoveBucket.x_square StaticMoveBucket.x_square = true
same _ _ = false

added : (i j x : ℕ) → i < 64 → bit j (bit_or x (single i)) ≡ (bit j x || (true && (j == i)))
added i j x h = bit-or j x (single i) ∙ ap (λ b. bit j x || b) (bit-single j i h)

kept : (j i x : ℕ) → bit j x ≡ (bit j x || (false && (j == i)))
kept j i x = ground arith

bit-put_in :
    (b kind : StaticMoveBucket) (i j : ℕ) (buckets : Buckets)
    → i < 64
    → bit j (word_of b (put_in kind (single i) buckets))
      ≡ (bit j (word_of b buckets) || (same b kind && (j == i)))
unfolding put_in
bit-put_in StaticMoveBucket.corner StaticMoveBucket.corner i j buckets h = added i j _ h
bit-put_in StaticMoveBucket.corner StaticMoveBucket.edge i j buckets h = kept j i _
bit-put_in StaticMoveBucket.corner StaticMoveBucket.normal i j buckets h = kept j i _
bit-put_in StaticMoveBucket.corner StaticMoveBucket.x_square i j buckets h = kept j i _
bit-put_in StaticMoveBucket.edge StaticMoveBucket.corner i j buckets h = kept j i _
bit-put_in StaticMoveBucket.edge StaticMoveBucket.edge i j buckets h = added i j _ h
bit-put_in StaticMoveBucket.edge StaticMoveBucket.normal i j buckets h = kept j i _
bit-put_in StaticMoveBucket.edge StaticMoveBucket.x_square i j buckets h = kept j i _
bit-put_in StaticMoveBucket.normal StaticMoveBucket.corner i j buckets h = kept j i _
bit-put_in StaticMoveBucket.normal StaticMoveBucket.edge i j buckets h = kept j i _
bit-put_in StaticMoveBucket.normal StaticMoveBucket.normal i j buckets h = added i j _ h
bit-put_in StaticMoveBucket.normal StaticMoveBucket.x_square i j buckets h = kept j i _
bit-put_in StaticMoveBucket.x_square StaticMoveBucket.corner i j buckets h = kept j i _
bit-put_in StaticMoveBucket.x_square StaticMoveBucket.edge i j buckets h = kept j i _
bit-put_in StaticMoveBucket.x_square StaticMoveBucket.normal i j buckets h = kept j i _
bit-put_in StaticMoveBucket.x_square StaticMoveBucket.x_square i j buckets h = added i j _ h

bit-add_to_bucket :
    (b : StaticMoveBucket) (i j : ℕ) (buckets : Buckets)
    → i < 64
    → bit j (word_of b (add_to_bucket i buckets))
      ≡ (bit j (word_of b buckets) || (same b (static_move_bucket i) && (j == i)))
unfolding add_to_bucket
bit-add_to_bucket b i j buckets h = bit-put_in b (static_move_bucket i) i j buckets h

-- The buckets after the digits from i on.
fold-buckets :
    (b : StaticMoveBucket) (n i j moves : ℕ) (buckets : Buckets)
    → n + i ≡ 64
    → bit j (word_of b (fold_bits n i add_to_bucket moves buckets)) ≡ (
        bit j (word_of b buckets)
        || (leb i j && ltb j 64 && bit j moves && same b (static_move_bucket j)))
unfolding fold_bits
fold-buckets b zero i j moves buckets e = ground arith
fold-buckets b (suc n) i j moves buckets e = elim (Bool-cases (bit i moves)) [
  | inr off ↦ rw off (fold-buckets b n (i + 1) j moves buckets (omega arith) ∙ ground (arith, off))
  | inl on ↦ rw on (
      fold-buckets b n (i + 1) j moves (add_to_bucket i buckets) (omega arith)
      ∙ rw (bit-add_to_bucket b i j buckets (omega arith)) (ground (arith, on)))
]

pub bit-buckets_of :
    (b : StaticMoveBucket) (j moves : ℕ)
    → IsWord moves
    → bit j (word_of b (buckets_of moves)) ≡ (bit j moves && same b (static_move_bucket j))
unfolding buckets_of
bit-buckets_of b j moves w =
    rw
      (each_bit-fold add_to_bucket moves
        (record { corner_moves = 0; edge_moves = 0; normal_moves = 0; x_square_moves = 0 }) w)
      (fold-buckets b 64 0 j moves _ refl ∙ ground (arith, bit_outside j moves w, bit-zero j))

put_in-IsWord :
    (b kind : StaticMoveBucket) (i : ℕ) (buckets : Buckets)
    → ((k : StaticMoveBucket) → IsWord (word_of k buckets))
    → IsWord (word_of b (put_in kind (single i) buckets))
unfolding put_in
put_in-IsWord StaticMoveBucket.corner StaticMoveBucket.corner i buckets w =
    bit_or-IsWord _ _ (w StaticMoveBucket.corner) (single-IsWord i)
put_in-IsWord StaticMoveBucket.corner StaticMoveBucket.edge i buckets w = w StaticMoveBucket.corner
put_in-IsWord StaticMoveBucket.corner StaticMoveBucket.normal i buckets w =
    w StaticMoveBucket.corner
put_in-IsWord StaticMoveBucket.corner StaticMoveBucket.x_square i buckets w =
    w StaticMoveBucket.corner
put_in-IsWord StaticMoveBucket.edge StaticMoveBucket.corner i buckets w = w StaticMoveBucket.edge
put_in-IsWord StaticMoveBucket.edge StaticMoveBucket.edge i buckets w =
    bit_or-IsWord _ _ (w StaticMoveBucket.edge) (single-IsWord i)
put_in-IsWord StaticMoveBucket.edge StaticMoveBucket.normal i buckets w = w StaticMoveBucket.edge
put_in-IsWord StaticMoveBucket.edge StaticMoveBucket.x_square i buckets w = w StaticMoveBucket.edge
put_in-IsWord StaticMoveBucket.normal StaticMoveBucket.corner i buckets w =
    w StaticMoveBucket.normal
put_in-IsWord StaticMoveBucket.normal StaticMoveBucket.edge i buckets w = w StaticMoveBucket.normal
put_in-IsWord StaticMoveBucket.normal StaticMoveBucket.normal i buckets w =
    bit_or-IsWord _ _ (w StaticMoveBucket.normal) (single-IsWord i)
put_in-IsWord StaticMoveBucket.normal StaticMoveBucket.x_square i buckets w =
    w StaticMoveBucket.normal
put_in-IsWord StaticMoveBucket.x_square StaticMoveBucket.corner i buckets w =
    w StaticMoveBucket.x_square
put_in-IsWord StaticMoveBucket.x_square StaticMoveBucket.edge i buckets w =
    w StaticMoveBucket.x_square
put_in-IsWord StaticMoveBucket.x_square StaticMoveBucket.normal i buckets w =
    w StaticMoveBucket.x_square
put_in-IsWord StaticMoveBucket.x_square StaticMoveBucket.x_square i buckets w =
    bit_or-IsWord _ _ (w StaticMoveBucket.x_square) (single-IsWord i)

fold-IsWord :
    (n i moves : ℕ) (buckets : Buckets)
    → ((k : StaticMoveBucket) → IsWord (word_of k buckets))
    → (b : StaticMoveBucket) → IsWord (word_of b (fold_bits n i add_to_bucket moves buckets))
unfolding fold_bits add_to_bucket
fold-IsWord zero i moves buckets w b = w b
fold-IsWord (suc n) i moves buckets w b = elim (Bool-cases (bit i moves)) [
  | inr off ↦ rw off (fold-IsWord n (i + 1) moves buckets w b)
  | inl on ↦ rw on (
      fold-IsWord n (i + 1) moves (add_to_bucket i buckets)
        (λ k. put_in-IsWord k (static_move_bucket i) i buckets w) b)
]

empty_words :
    (k : StaticMoveBucket)
    → IsWord (
        word_of k
          (record { corner_moves = 0; edge_moves = 0; normal_moves = 0; x_square_moves = 0 }))
empty_words StaticMoveBucket.corner = omega arith
empty_words StaticMoveBucket.edge = omega arith
empty_words StaticMoveBucket.normal = omega arith
empty_words StaticMoveBucket.x_square = omega arith

pub buckets_of-IsWord :
    (b : StaticMoveBucket) (moves : ℕ) → IsWord moves → IsWord (word_of b (buckets_of moves))
unfolding buckets_of
buckets_of-IsWord b moves w =
    rw
      (each_bit-fold add_to_bucket moves
        (record { corner_moves = 0; edge_moves = 0; normal_moves = 0; x_square_moves = 0 }) w)
      (fold-IsWord 64 0 moves _ empty_words b)
