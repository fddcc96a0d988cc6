-- ===== src/Spi.antt =====
-- firmware/spi.cxx and `ledSetColour` of firmware/led.cxx. The status loops of one byte's transfer
-- are the controller's own handshake: a transfer is one event, and its reply one byte.
pub mod Opcode
pub mod Select
pub mod Transaction
pub mod Stream
pub mod Buffer
pub mod Clock
use spiflash_programmer.Prelude.{
  ℕ, ◌/◌, Bool, true, false, not, ◌&&◌, List, [], ◌∷◌, Option, none, some, bit_and, u8, ltb, ◌==◌,
  if◌then◌else◌, get_elem?,
}
use spiflash_programmer.Machine.{
  World, Board, Event, SpiChip, local1, local2, target, FlashId, Ssi, ssi0, ssi1, cs_target,
  cs_local, reset_line, divider, transfer, wait_us, led,
}
use spiflash_programmer.Machine.Action.{
  done, Env, Action, pure, ◌>>=◌, ◌>>◌, get, modify, deref, emit, with_board,
}

abbrev pub is_target : SpiChip → Bool
is_target target = true
is_target _ = false

unfoldable pub led_set_colour : Bool → Bool → Bool → Action (Unit {0})
led_set_colour r g b = modify (emit (led r g b))

unfoldable pub spi_reset_clocks : Action (Unit {0})
spi_reset_clocks = modify (λ s. emit (divider ssi0 160) (emit (divider ssi1 2) s))

-- The divider for a clock in MHz, from 80 MHz.
unfoldable pub clock_divider : ℕ → ℕ
clock_divider value_mhz =
    bit_and (if ltb 40 value_mhz then 2 else if value_mhz == 0 then 160 else 80 / value_mhz)
      0xffff_fffe

unfoldable pub spi_set_clock : SpiChip → ℕ → Action (Unit {0})
spi_set_clock local1 value_mhz = modify (emit (divider ssi1 (clock_divider value_mhz)))
spi_set_clock local2 value_mhz = modify (emit (divider ssi1 (clock_divider value_mhz)))
spi_set_clock target value_mhz = modify (emit (divider ssi0 (clock_divider value_mhz)))
spi_set_clock SpiChip.none value_mhz = pure tt

-- The pin writes of `spiSelect`, on top of a log.
unfoldable pub select_pins : SpiChip → List Event → List Event
select_pins local1 log = cs_local 0x02 ∷ cs_target 0x08 ∷ log
select_pins local2 log = cs_local 0x01 ∷ cs_target 0x08 ∷ log
select_pins target log = cs_target 0x00 ∷ cs_local 0x03 ∷ log
select_pins SpiChip.none log = cs_target 0x08 ∷ cs_local 0x03 ∷ log

unfoldable pub spi_select : SpiChip → Action (Unit {0})
spi_select chip =
    modify (λ s. with_board s (record s.board { log = select_pins chip s.log; selected = chip }))

-- `spiDevice(chip)`; `spiDevice()` is this at the selected chip.
unfoldable pub spi_device : SpiChip → Option Ssi
spi_device local1 = some ssi1
spi_device local2 = some ssi1
spi_device target = some ssi0
spi_device SpiChip.none = none

unfoldable pub set_device_reset : Bool → Action (Unit {0})
set_device_reset state =
    let pin : ℕ = if state then 0x80 else 0x00 in
    modify (λ s. with_board s (record s.board { log = reset_line pin ∷ s.log; reset_pin = pin }))

unfoldable pub is_device_reset : World → Bool
is_device_reset s = not (s.reset_pin == 0)

unfoldable pub wait_for : ℕ → Action (Unit {0})
wait_for micro_seconds = modify (emit (wait_us micro_seconds))

unfoldable pub spi_write : Ssi → ℕ → Action (Unit {0})
spi_write device value = modify (emit (transfer device value))

-- The overload that writes to the selected chip, if there is one.
unfoldable pub spi_write_selected : ℕ → Action (Unit {0})
spi_write_selected value s = elim (spi_device s.selected) [
  | none ↦ done (tt, s)
  | some device ↦ spi_write device value s
]

unfoldable pub check_device_id : List FlashId → ℕ → Option Bool
check_device_id chips index = elim (get_elem? chips index) [
  | none ↦ none
  | some id ↦ some (id.manufacturer == 0x1f && id.type == 0x32 && id.capacity == 0x17)
]

module _ (env : Env) where
  unfoldable pub spi_read : Ssi → Action ℕ
  spi_read device s =
      let log : List Event = transfer device 0 ∷ s.log in
      done (u8 (env.reply log), with_board s (record s.board { log = log }))

  -- A target may send one idle byte first, which is skipped.
  unfoldable pub read_manufacturer : SpiChip → Ssi → Action ℕ
  read_manufacturer chip device = do
    value ← spi_read device
    if is_target chip && value == 255 then spi_read device else pure value

  unfoldable pub read_id : SpiChip → Action FlashId
  read_id chip = do
    spi_select chip
    s ← get
    device ← deref (spi_device s.selected)
    spi_write device Opcode.jedec_id
    mfr ← read_manufacturer chip device
    type ← spi_read device
    capacity ← spi_read device
    spi_select SpiChip.none
    pure (record { manufacturer = mfr; type = type; capacity = capacity })

  unfoldable pub ident_device : SpiChip → Bool → Action FlashId
  ident_device chip release_reset = do
    if is_target chip then set_device_reset true else pure tt
    id ← read_id chip
    chip_id ←
        if id.manufacturer == 0xff && id.type == 0xff
        then (do
          spi_select target
          spi_write_selected Opcode.wake_up
          spi_select SpiChip.none
          wait_for 20
          read_id chip)
        else pure id
    if is_target chip && release_reset then set_device_reset false else pure tt
    pure chip_id

-- The chip selects and the reset line as outputs, all high.
unfoldable pub claim_pins : Action (Unit {0})
claim_pins = do
  modify (emit (cs_target 0x08))
  modify (emit (cs_local 0x03))
  modify (λ s. with_board s (record s.board { log = reset_line 0x80 ∷ s.log; reset_pin = 0x80 }))

module _ (env : Env) where
  -- `spiInit` from the reset of the clocks on.
  unfoldable pub start_bus : Action (Unit {0})
  start_bus = do
    spi_reset_clocks
    id1 ← ident_device env local1 true
    id2 ← ident_device env local2 true
    modify (λ s. with_board s (record s.board { local_chip = id1 ∷ id2 ∷ [] }))
    s ← get
    ok0 ← deref (check_device_id s.local_chip 0)
    ok1 ← deref (check_device_id s.local_chip 1)
    if ok0 && ok1 then led_set_colour false true false else led_set_colour true false false

  -- `spiInit` but for the registers that set up the ports and the controllers.
  unfoldable pub spi_init : Action (Unit {0})
  spi_init = do claim_pins; start_bus
