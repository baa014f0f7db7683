-- ===== src/Memtable/SkipList/Height.antt =====
-- `random_height` draws a height from 1 to `max_levels`, and its loop ends.
use lowdb.Prelude.{ℕ, zero, suc, ◌+◌, ◌<◌, ◌≤◌, ◌≡◌, arith}
use lowdb.Memtable.SkipList.{Rng, grow, random_height, max_levels, xorshift, seeded}

grow_bounds :
    (fuel h x : ℕ)
    → 1 ≤ h
    → h ≤ max_levels
    → (1 ≤ (grow fuel h x).0) × ((grow fuel h x).0 ≤ max_levels)
unfolding grow
grow_bounds zero h x lo hi = (lo, hi)
grow_bounds (suc fuel) h x lo hi = ground (arith, grow_bounds fuel (h + 1) (xorshift x))

-- With the rounds that `random_height` gives it, one more round changes nothing.
pub grow_enough :
    (fuel h x : ℕ) → h ≤ max_levels → max_levels < fuel + h → grow (suc fuel) h x ≡ grow fuel h x
unfolding grow
grow_enough zero h x b e = absurd (omega arith)
grow_enough (suc fuel) h x b e = ground (arith, grow_enough fuel (h + 1) (xorshift x))

-- A drawn height is at least 1 and at most 16, whatever the state of the generator.
pub random_height_bounds :
    (r : Rng) → (1 ≤ (random_height r).0) × ((random_height r).0 ≤ max_levels)
unfolding random_height
random_height_bounds r = grow_bounds max_levels 1 (seeded r).cell (omega arith) (omega arith)
