-- ===== src/Flash/Find.antt =====
-- What `findChip` of firmware/flash.cxx finds.
use spiflash_programmer.Prelude.{inl, inr, ◌≡◌, arith, List, [], ◌∷◌, some, Option-cases}
use spiflash_programmer.Machine.{World, SpiChip, FlashId, FlashChip}
use spiflash_programmer.Machine.Action.{Env, done, ◌>>◌, pure}
use spiflash_programmer.Spi.{spi_set_clock}
use spiflash_programmer.Flash.{
  FlashManufacturer, find_in, find_known, find_chip, manufacturers, read_sfdp, from_parameters,
  fallback_chip,
}

-- A description of the chip that identified itself by `id`.
abbrev pub Describes : FlashChip → FlashId → Type 0
Describes c id = (c.type ≡ id.type) × (c.reported_capacity ≡ id.capacity)

find_in-Describes :
    (cs : List FlashChip) (id : FlashId) (c : FlashChip) → find_in cs id ≡ some c → Describes c id
unfolding find_in
find_in-Describes [] id c e = ground arith
find_in-Describes (d ∷ ds) id c e = ground (arith, find_in-Describes ds id c)

find_known-Describes :
    (ms : List FlashManufacturer) (id : FlashId) (c : FlashChip)
    → find_known ms id ≡ some c
    → Describes c id
unfolding find_known
find_known-Describes [] id c e = ground arith
find_known-Describes (m ∷ ms) id c e =
    ground (arith, find_known-Describes ms id c, find_in-Describes m.chips id c)

-- Whichever way a chip is found, in the tables, by its SFDP data or by the last resort, what
-- `findChip` returns carries the type and the capacity that the chip identified itself by.
pub find_chip-Describes :
    (env : Env) (id : FlashId) (chip : SpiChip) (s t : World) (c : FlashChip)
    → find_chip env id chip s ≡ done (c, t)
    → Describes c id
unfolding find_chip read_sfdp from_parameters fallback_chip
find_chip-Describes env id chip s t c e = elim (Option-cases (find_known manufacturers id)) [
  | inl unknown ↦ ground (arith, unknown)
  | inr (d, known) ↦ ground (arith, known, find_known-Describes manufacturers id d)
]

-- A chip of the tables is found without a transfer on the bus: the clock of its controller is set
-- to its speed, and nothing else changes.
pub find_chip_known :
    (env : Env) (id : FlashId) (chip : SpiChip) (s : World) (c : FlashChip)
    → find_known manufacturers id ≡ some c
    → find_chip env id chip s ≡ (spi_set_clock chip c.chip_speed_mhz >> pure c) s
unfolding find_chip
find_chip_known env id chip s c e = ground (arith, e)
