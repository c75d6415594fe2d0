-- ===== src/Midgame/Ages.antt =====
-- The age of an entry is the number of searches that the session has begun since it was stored.
use vibe_othello_engine.Base.{ℕ, zero, suc, ◌+◌, ◌-◌, ◌%◌, ◌≡◌, ◌≤◌, ◌<◌, ap, ◌∙◌, arith}
use vibe_othello_engine.Midgame.Table.{max_uint32, generation_age}
use vibe_othello_engine.Midgame.Session.{next_generation}

abbrev pub later : ℕ → ℕ → ℕ
later zero generation = generation
later (suc searches) generation = next_generation (later searches generation)

-- The generation of a session that has begun a search.
pub record IsGeneration (g : ℕ) : Type 0 where
  pub begun : 0 < g
  pub fits : g ≤ max_uint32

next_generation-mod : (g : ℕ) → IsGeneration g → next_generation g ≡ g % max_uint32 + 1
unfolding next_generation
next_generation-mod g v = ground (arith, v.begun, v.fits)

later-mod :
    (searches g : ℕ) → IsGeneration g → later searches g ≡ (g - 1 + searches) % max_uint32 + 1
later-mod zero g v = omega (arith, v.begun, v.fits)
later-mod (suc searches) g v =
    let before = later-mod searches g v in
    ap next_generation before
    ∙ next_generation-mod _ (record { begun = omega arith; fits = omega arith })
    ∙ omega (arith, v.begun, v.fits)

age :
    (searches g : ℕ)
    → IsGeneration g
    → searches < max_uint32
    → generation_age ((g - 1 + searches) % max_uint32 + 1) g ≡ searches
unfolding generation_age
age searches g v few = ground (arith, v.begun, v.fits, few)

-- After fewer than 2 ^ 32 - 1 more searches, through the wrap of the generation as well, the age of
-- an entry is the number of these searches.
pub generation_age-later :
    (searches g : ℕ)
    → IsGeneration g
    → searches < max_uint32
    → generation_age (later searches g) g ≡ searches
generation_age-later searches g v few = rw (later-mod searches g v) (age searches g v few)
