-- ===== src/Base/Int32.antt =====
-- `int` of 32 bits. Where a result can leave its range, the sum or the product is reduced as two's
-- complement does; the C++ standard leaves such a result undefined.
use vibe_othello_engine.Base.{◌-◌, ◌%◌, ◌^◌, ◌≤◌, ◌<◌, ◌≡◌, refl, arith, ltb, if◌then◌else◌}
use vibe_othello_engine.Base.Int.{ℤ, pos, negsuc, pos_part, neg_part}

unfoldable pub wrap_int : ℤ → ℤ
wrap_int (pos n) =
    if ltb (n % 2 ^ 32) (2 ^ 31) then pos (n % 2 ^ 32) else negsuc (2 ^ 32 - 1 - n % 2 ^ 32)
wrap_int (negsuc n) =
    if ltb (n % 2 ^ 32) (2 ^ 31) then negsuc (n % 2 ^ 32) else pos (2 ^ 32 - 1 - n % 2 ^ 32)

-- The integer is one of the values of `int`.
pub record IsInt (v : ℤ) : Type 0 where
  pub below : pos_part v < 2 ^ 31
  pub above : neg_part v ≤ 2 ^ 31

pub wrap_int-IsInt : (v : ℤ) → IsInt v → wrap_int v ≡ v
unfolding wrap_int
wrap_int-IsInt (pos n) v = ground (arith, v.below)
wrap_int-IsInt (negsuc n) v = ground (arith, v.above)

wraps_up : wrap_int (pos (2 ^ 31)) ≡ negsuc (2 ^ 31 - 1)
unfolding wrap_int
wraps_up = refl
