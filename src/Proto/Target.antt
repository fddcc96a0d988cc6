-- ===== src/Proto/Target.antt =====
-- Counting, listing and choosing chips: firmware/usb/flashProto.cxx, `fetchDeviceCount` to
-- `handleTargetDevice`.
pub mod Refusals
use spiflash_programmer.Prelude.{
  ℕ, zero, suc, ◌*◌, Bool, true, false, ◌&&◌, List, [], ◌∷◌, bit_and, bit_or, u8, u32, ltb, leb,
  ◌==◌, if◌then◌else◌, get_elem?,
}
use spiflash_programmer.Protocol.{Address}
use spiflash_programmer.Protocol.Layout.{
  ListDevice, no_page, encode_device_count, encode_list_device,
}
use spiflash_programmer.Machine.{SpiChip, local1, local2, target, FlashId, FlashChip}
use spiflash_programmer.Machine.Action.{Env, Action, pure, ◌>>=◌, ◌>>◌, get, modify, deref}
use spiflash_programmer.Spi.{
  spi_device, spi_select, spi_write, spi_read, spi_reset_clocks, ident_device, set_device_reset,
  is_target,
}
use spiflash_programmer.Spi.Opcode
use spiflash_programmer.Flash.{find_chip}
use spiflash_programmer.Proto.Common.{is_w25n, write_response}

-- `spi::internalChips` and `internalChipMap`.
abbrev pub internal_chips : ℕ
internal_chips = 2

abbrev pub internal_chip_map : List SpiChip
internal_chip_map = local1 ∷ local2 ∷ []

abbrev pub no_id : FlashId
no_id = record { manufacturer = 0; type = 0; capacity = 0 }

-- On the firmware's 32 bits.
unfoldable pub power2 : ℕ → ℕ
power2 zero = 1
power2 (suc power) = u32 (power2 power * 2)

abbrev pub no_listing : ListDevice
no_listing = record {
  manufacturer = 0;
  device_type = 0;
  device_size = 0;
  page_size = no_page;
  erase_size = no_page;
}

unfoldable pub listing_of : FlashId → FlashChip → ListDevice
listing_of id chip = record {
  manufacturer = id.manufacturer;
  device_type = chip.type;
  device_size = power2 chip.actual_capacity;
  page_size = chip.flash_page_size;
  erase_size = chip.erase_page_size;
}

unfoldable pub write_status_register : ℕ → ℕ → Action (Unit {0})
write_status_register register value = do
  s ← get
  device ← deref (spi_device s.target_device)
  spi_select s.target_device
  spi_write device Opcode.status_write
  spi_write device register
  spi_write device value
  spi_select SpiChip.none

unfoldable pub target_internal : ℕ → Action Bool
target_internal number = if leb 2 number then pure false else (do
  s ← get
  chip ← deref (get_elem? internal_chip_map number)
  modify (λ s. record s { target_device = chip })
  id ← deref (get_elem? s.local_chip number)
  modify (λ s. record s { target_id = id })
  pure true)

-- Deselection: a W25N gets its configuration back and a reset, and the target may run again.
unfoldable pub release_target : Action (Unit {0})
release_target = do
  s ← get
  if is_target s.target_device
      then (do
        if is_w25n s.target_id
            then (do
              write_status_register 0xb0 0x10
              device ← deref (spi_device s.target_device)
              spi_select s.target_device
              spi_write device Opcode.reset
              spi_select SpiChip.none)
            else pure tt
        set_device_reset false)
      else pure tt
  modify (λ s. record s { target_device = SpiChip.none; target_id = no_id })
  spi_reset_clocks

module _ (env : Env) where
  unfoldable pub fetch_device_count : Action ℕ
  fetch_device_count = do
    id ← ident_device env target true
    let absent = id.manufacturer == 0 && id.type == 0 && id.capacity == 0
    write_response (
        encode_device_count
          (record { internal_count = 2; external_count = if absent then 0 else 1 }))

  unfoldable pub list_internal : ℕ → Action ListDevice
  list_internal number =
      if leb number internal_chips
      then (do
        s ← get
        id ← deref (get_elem? s.local_chip number)
        where_ ← deref (get_elem? internal_chip_map number)
        chip ← find_chip env id where_
        pure (listing_of id chip))
      else pure no_listing

  unfoldable pub list_external : ℕ → Action ListDevice
  list_external number =
      if number == 0
      then (do
        id ← ident_device env target true
        chip ← find_chip env id target
        pure (listing_of id chip))
      else pure no_listing

  unfoldable pub fetch_device_listing : Address → Action ℕ
  fetch_device_listing address = if leb 2 address.addr_high then pure 0 else (do
    device ←
        if address.addr_high == 0
        then list_internal address.addr_low
        else list_external address.addr_low
    spi_reset_clocks
    write_response (encode_list_device device))

  unfoldable pub read_status_register : ℕ → Action ℕ
  read_status_register register = do
    s ← get
    device ← deref (spi_device s.target_device)
    spi_select s.target_device
    spi_write device Opcode.status_read
    spi_write device register
    value ← spi_read env device
    spi_select SpiChip.none
    pure value

  -- Clears the protection bits, and selects buffered reads.
  unfoldable pub prepare_w25n : Action (Unit {0})
  prepare_w25n = do
    prot_reg ← read_status_register 0xa0
    if prot_reg == 0 then pure tt else write_status_register 0xa0 0x00
    cfg_reg ← read_status_register 0xb0
    if bit_and cfg_reg 0x08 == 0
        then write_status_register 0xb0 (u8 (bit_or cfg_reg 0x08))
        else pure tt

  unfoldable pub target_external : ℕ → Action Bool
  target_external number =
      if number == 0
      then (do
        modify (λ s. record s { target_device = target })
        id ← ident_device env target false
        modify (λ s. record s { target_id = id })
        if is_w25n id then prepare_w25n else pure tt
        pure true)
      else pure false

  unfoldable pub load_params : Action Bool
  load_params = do
    s ← get
    chip ← find_chip env s.target_id s.target_device
    modify (λ s. record s { target_params = chip })
    pure true

  unfoldable pub handle_target_device : Address → Action Bool
  handle_target_device address =
      if ltb 2 address.addr_high
      then pure false
      else if address.addr_high == 0
      then (do ok ← target_internal address.addr_low; if ok then load_params else pure false)
      else if address.addr_high == 1
      then (do ok ← target_external address.addr_low; if ok then load_params else pure false)
      else (do release_target; pure true)
