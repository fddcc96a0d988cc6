-- ===== src/Host/Units.antt =====
-- `humanReadableSize` of software/utils/units.hxx.
use spiflash_programmer.Prelude.{ℕ, ◌+◌, ◌/◌, ◌*◌, ◌^◌, ◌<◌, ◌≤◌, arith, ltb, if◌then◌else◌}

pub data SizeUnit : Type 0 where
  bytes kib mib gib : SizeUnit

-- `size /= 1024U` twice and a third time: the variable keeps the quotients.
unfoldable pub human_readable_size : ℕ → ℕ × SizeUnit
human_readable_size size =
    if ltb size 1024
    then (size, bytes)
    else let size1 = size / 1024 in
      if ltb size1 1024
      then (size1, kib)
      else let size2 = size1 / 1024 in if ltb size2 1024 then (size2, mib) else (size2 / 1024, gib)

abbrev pub unit_size : SizeUnit → ℕ
unit_size bytes = 1
unit_size kib = 2 ^ 10
unit_size mib = 2 ^ 20
unit_size gib = 2 ^ 30

-- The number that is shown is below 1024 for every 32-bit size, and in its unit it is the size
-- rounded down.
pub human_readable_size_bounds :
    (size : ℕ)
    → size < 2 ^ 32
    → ((human_readable_size size).0 < 1024)
      × ((human_readable_size size).0 * unit_size (human_readable_size size).1 ≤ size)
      × (size < ((human_readable_size size).0 + 1) * unit_size (human_readable_size size).1)
unfolding human_readable_size
human_readable_size_bounds size fits = ground arith
