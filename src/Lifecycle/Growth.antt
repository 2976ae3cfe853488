-- ===== src/Lifecycle/Growth.antt =====
-- The 64-bit delta arithmetic of src/lifecycle.cpp.
use obserwrt.Prelude.{ℕ, ◌-◌, ◌^◌, ◌<◌, ◌≡◌, arith, ltb, if◌then◌else◌}
use obserwrt.Lifecycle.{growth}

-- For counters below 2^63 the delta is the growth since the last export, or the whole counter if
-- the counter went back (an entry evicted and created anew).
pub growth_lem :
    (v p0 : ℕ) → v < 2 ^ 63 → p0 < 2 ^ 63 → growth v p0 ≡ (if ltb v p0 then v else v - p0)
unfolding growth
growth_lem v p0 hv hp = ground arith
