-- ===== src/Flash/Capacity.antt =====
-- What `log2` of firmware/flash.cxx computes.
use spiflash_programmer.Prelude.{ℕ, ◌<◌, arith, ◌^◌, ◌≤◌, ◌*◌}
use spiflash_programmer.Flash.Log2.{log2_portable}

-- For a 32-bit number other than 0, the result of the portable `log2` is the number of its bits: 2 to
-- that power is more than the number, and at most twice it.
pub log2_portable_bounds :
    (v : ℕ) → 0 < v → v < 2 ^ 32 → (2 ^ log2_portable v ≤ 2 * v) × (v < 2 ^ log2_portable v)
unfolding log2_portable
log2_portable_bounds v p h = ground arith
