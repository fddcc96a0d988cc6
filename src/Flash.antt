-- ===== src/Flash.antt =====
-- firmware/flash.cxx: the chips that the firmware knows, and how it describes the others.
pub mod Log2
pub mod Capacity
pub mod Find
pub mod Agree
use spiflash_programmer.Prelude.{
  ℕ, ◌*◌, Bool, ◌&&◌, List, [], ◌∷◌, Option, none, some, ◌==◌, if◌then◌else◌,
}
use spiflash_programmer.Protocol.Page.{Page, page_of}
use spiflash_programmer.Machine.{SpiChip, FlashId, FlashChip}
use spiflash_programmer.Machine.Action.{Env, Action, pure, ◌>>=◌, ◌>>◌}
use spiflash_programmer.Spi.{spi_set_clock}
use spiflash_programmer.Sfdp.{SpiParameters, parameters}
use Log2.{log2}

pub record FlashManufacturer : Type 0 where
  pub manufacturer_id : ℕ
  pub chips : List FlashChip

abbrev chip : ℕ → ℕ → ℕ → ℕ → ℕ → ℕ → ℕ → FlashChip
chip type reported actual erase erase_size page_size speed = record {
  type = type;
  reported_capacity = reported;
  actual_capacity = actual;
  erase_instruction = erase;
  erase_page_size = page_of erase_size;
  flash_page_size = page_of page_size;
  chip_speed_mhz = speed;
}

abbrev pub adesto_chips : List FlashChip
adesto_chips = chip 0x32 0x17 0x17 0x20 4096 256 50 ∷ []

abbrev pub numonyx_chips : List FlashChip
numonyx_chips = chip 0x20 0x14 0x14 0xd8 65536 256 33 ∷ chip 0x20 0x15 0x15 0xd8 65536 256 33 ∷ []

abbrev pub giga_device_chips : List FlashChip
giga_device_chips = chip 0x40 0x13 0x13 0x20 4096 256 80 ∷ chip 0x40 0x17 0x17 0x20 4096 256 80 ∷ []

abbrev pub winbond_chips : List FlashChip
winbond_chips =
    chip 0x40 0x14 0x14 0x20 4096 256 50
    ∷ chip 0x40 0x15 0x15 0x20 4096 256 50
    ∷ chip 0x40 0x16 0x16 0x20 4096 256 50
    ∷ chip 0x40 0x18 0x18 0x20 4096 256 50
    ∷ chip 0xaa 0x21 0x1b 0xd8 131072 2048 104
    ∷ chip 0x70 0x18 0x18 0x20 4096 256 50
    ∷ []

abbrev pub manufacturers : List FlashManufacturer
manufacturers =
    record { manufacturer_id = 0x1f; chips = adesto_chips }
    ∷ record { manufacturer_id = 0x20; chips = numonyx_chips }
    ∷ record { manufacturer_id = 0xc8; chips = giga_device_chips }
    ∷ record { manufacturer_id = 0xef; chips = winbond_chips }
    ∷ []

-- `flashChip_t::operator ==`.
abbrev pub is_chip : FlashChip → FlashId → Bool
is_chip c id = c.type == id.type && c.reported_capacity == id.capacity

unfoldable pub find_in : List FlashChip → FlashId → Option FlashChip
find_in [] id = none
find_in (c ∷ cs) id = if is_chip c id then some c else find_in cs id

-- The two loops of `findChip`: the first matching manufacturer ends the outer one.
unfoldable pub find_known : List FlashManufacturer → FlashId → Option FlashChip
find_known [] id = none
find_known (m ∷ ms) id =
    if m.manufacturer_id == id.manufacturer then find_in m.chips id else find_known ms id

-- What is made up for a chip that no table describes.
unfoldable pub fallback_chip : FlashId → FlashChip
fallback_chip id = chip id.type id.capacity id.capacity 0xd8 65536 256 0

module _ (env : Env) where
  unfoldable pub from_parameters : FlashId → SpiParameters → FlashChip
  from_parameters id p = record {
    type = id.type;
    reported_capacity = id.capacity;
    actual_capacity = log2 env.clz p.capacity;
    erase_instruction = p.sector_erase_opcode;
    erase_page_size = page_of p.sector_size;
    flash_page_size = page_of p.page_size;
    chip_speed_mhz = 50;
  }

  unfoldable pub read_sfdp : FlashId → SpiChip → Action (Option FlashChip)
  read_sfdp id target_device = do
    found ← parameters env target_device
    elim found [ none ↦ pure none | some p ↦ pure (some (from_parameters id p)) ]

  unfoldable pub find_chip : FlashId → SpiChip → Action FlashChip
  find_chip id target_device = elim (find_known manufacturers id) [
    | some c ↦ do spi_set_clock target_device c.chip_speed_mhz; pure c
    | none ↦ do
      found ← read_sfdp id target_device
      elim found [ none ↦ pure (fallback_chip id) | some c ↦ pure c ]
  ]
