-- ===== src/Proto/Erase.antt =====
-- Erasing: firmware/usb/flashProto.cxx, `handleErase` to `checkEraseStatus`, and `tick`.
pub mod Range
use spiflash_programmer.Prelude.{
  ℕ, ◌+◌, ◌*◌, Bool, true, false, not, ◌||◌, u32, leb, ◌==◌, if◌then◌else◌,
}
use spiflash_programmer.Protocol.{EraseOperation, all, page, page_range, idle}
use spiflash_programmer.Protocol.Page.{page_value, page_of, page_next}
use spiflash_programmer.Machine.{World, SpiChip, Pointer, Callback}
use spiflash_programmer.Machine.Action.{Env, Action, pure, ◌>>=◌, ◌>>◌, get, modify, deref}
use spiflash_programmer.Spi.{spi_device, spi_select, spi_write, spi_write_selected, led_set_colour}
use spiflash_programmer.Spi.Opcode
use spiflash_programmer.Proto.Common.{expect_data, is_busy, is_large, write_address24}
use spiflash_programmer.Proto.Read.{is_none}

abbrev pub set_erase_complete : ℕ → World → World
set_erase_complete n s = record s { status = record s.status { erase_complete = n } }

abbrev pub set_erase_operation : EraseOperation → World → World
set_erase_operation op s = record s { erasing = record s.erasing { erase_operation = op } }

-- The case of a single page falls through to that of a range.
unfoldable pub start_range : Action (Unit {0})
start_range = modify λ s. record s {
  status = record s.status { erase_page = s.begin_page };
  erasing = record s.erasing { erase_active = true };
}

unfoldable pub start_erase : EraseOperation → Action (Unit {0})
start_erase all = do
  s ← get
  spi_select s.target_device
  spi_write_selected Opcode.write_enable
  spi_select SpiChip.none
  spi_select s.target_device
  spi_write_selected Opcode.chip_erase
  spi_select SpiChip.none
start_erase page = do
  modify (λ s. record s {
    erasing = record s.erasing { end_page = page_of (u32 (page_value s.begin_page + 1)) };
  })
  start_range
start_erase page_range = start_range
start_erase idle = do led_set_colour true false false; modify (set_erase_complete 3)

unfoldable pub handle_erase : Action (Unit {0})
handle_erase = do
  modify (set_erase_complete 0)
  led_set_colour true false true
  s ← get
  start_erase s.erase_operation

-- `static_cast<eraseOperation_t>` of a number below `idle`.
unfoldable pub erase_operation_of : ℕ → EraseOperation
erase_operation_of n = if n == 0 then all else if n == 1 then page else page_range

-- The erase of one page, or the end of the range.
unfoldable pub erase_step : Action (Unit {0})
erase_step = do
  modify (λ s. record s { status = record s.status { erase_page = s.begin_page } })
  s ← get
  if leb (page_value s.end_page) (page_value s.begin_page) || is_none s.target_device
      then (do
        modify (λ s. record s { erasing = record s.erasing { erase_active = false } })
        led_set_colour false true false)
      else (do
        device ← deref (spi_device s.target_device)
        spi_select s.target_device
        spi_write device Opcode.write_enable
        spi_select SpiChip.none
        spi_select s.target_device
        spi_write device s.target_params.erase_instruction
        if is_large s
            then write_address24 device (page_value s.begin_page)
            else write_address24 device
                (u32 (page_value s.begin_page * page_value s.target_params.erase_page_size))
        spi_select SpiChip.none
        modify
            (λ s. record s { erasing = record s.erasing { begin_page = page_next s.begin_page } }))

module _ (env : Env) where
  unfoldable pub setup_erase : ℕ → Action Bool
  setup_erase opcode = do
    s ← get
    if leb 3 opcode
        then pure false
        else if is_none s.target_device
        then (do modify (λ s. set_erase_complete 2 (set_erase_operation idle s)); pure false)
        else (do
          modify (set_erase_operation (erase_operation_of opcode))
          expect_data env Pointer.erase_config 6 Callback.handle_erase
          pure true)

  unfoldable pub check_erase_status : Action (Unit {0})
  check_erase_status = do
    s ← get
    busy ← if s.erase_active then pure true else is_busy env
    if busy
        then modify (set_erase_complete 0)
        else modify (λ s. set_erase_operation idle (set_erase_complete 1 s))

  unfoldable pub tick : Action (Unit {0})
  tick = do
    s ← get
    ready ← if s.erase_active then (is_busy env >>= λ busy. pure (not busy)) else pure false
    if ready then erase_step else pure tt
