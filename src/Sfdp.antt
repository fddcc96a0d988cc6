-- ===== src/Sfdp.antt =====
-- firmware/sfdp.cxx: the flash parameters that a chip describes itself.
pub mod Table
pub mod Fields
pub mod Standard
pub mod Composed
pub mod Described
use spiflash_programmer.Prelude.{
  ℕ, zero, suc, ◌+◌, ◌*◌, min, Bool, true, false, List, [], ◌∷◌, ◌++◌, Option, none, some, length,
  replicate, u8, ◌>>>◌, ◌==◌, ◌-◌, ◌&&◌, if◌then◌else◌, byte_at,
}
use spiflash_programmer.Machine.{SpiChip, Ssi}
use spiflash_programmer.Machine.Action.{Env, Action, pure, ◌>>=◌, ◌>>◌, deref}
use spiflash_programmer.Spi.{spi_device, spi_select, spi_write, spi_read, spi_set_clock}
use spiflash_programmer.Spi.Opcode
use Table.{
  table_address, table_length, parameter_headers_count, jedec_parameter_id, is_magic, capacity,
  page_size, erase_size, erase_type_at, EraseParameters,
}

pub record SpiParameters : Type 0 where
  pub page_size : ℕ
  pub sector_size : ℕ
  pub capacity : ℕ
  pub sector_erase_opcode : ℕ

-- What the loop over the erase types leaves in `sectorEraseOpcode` and `sectorSize`: the first type
-- with the opcode, or the zeros of `result{}`. `none` is a shift by 32 bits or more.
unfoldable pub find_sector : List EraseParameters → ℕ → Option (ℕ × ℕ)
find_sector [] opcode = some (0, 0)
find_sector (type ∷ types) opcode =
    if type.opcode == opcode
    then elim (erase_size type) [ none ↦ none | some size ↦ some (type.opcode, size) ]
    else find_sector types opcode

module _ (env : Env) where
  unfoldable pub read_bytes : Ssi → ℕ → Action (List ℕ)
  read_bytes device zero = pure []
  read_bytes device (suc n) = do
    byte ← spi_read env device
    rest ← read_bytes device n
    pure (byte ∷ rest)

  unfoldable pub sfdp_read : SpiChip → ℕ → ℕ → Action (List ℕ)
  sfdp_read target_device address count = do
    device ← deref (spi_device target_device)
    spi_select target_device
    spi_write device Opcode.read_sfdp
    spi_write device (u8 (address >>> 16))
    spi_write device (u8 (address >>> 8))
    spi_write device (u8 address)
    spi_write device 0
    bytes ← read_bytes device count
    spi_select SpiChip.none
    pure bytes

  unfoldable pub read_basic_parameter_table : SpiChip → ℕ → ℕ → Action SpiParameters
  read_basic_parameter_table device address length = do
    bytes ← sfdp_read device address (min 64 length)
    let table = bytes ++ replicate (64 - min 64 length) 0
    size ← deref (capacity table)
    sector ← deref (
        find_sector
          (erase_type_at table 0
            ∷ erase_type_at table 1
            ∷ erase_type_at table 2
            ∷ erase_type_at table 3
            ∷ [])
          (byte_at table 1))
    pure (record {
      page_size = page_size table;
      sector_size = sector.1;
      capacity = size;
      sector_erase_opcode = sector.0;
    })

  -- The loop over the parameter headers, at header `idx` with `left` more to come.
  unfoldable pub find_table : SpiChip → ℕ → ℕ → Action (Option SpiParameters)
  find_table device zero idx = pure none
  find_table device (suc left) idx = do
    header ← sfdp_read device (8 + 8 * idx) 8
    if jedec_parameter_id header == 0xff00
        then (do
          found ← read_basic_parameter_table device (table_address header) (table_length header)
          pure (some found))
        else find_table device left (idx + 1)

  unfoldable pub parameters : SpiChip → Action (Option SpiParameters)
  parameters device = do
    header ← sfdp_read device 0 8
    if is_magic header
        then (do spi_set_clock device 50; find_table device (parameter_headers_count header) 0)
        else pure none
