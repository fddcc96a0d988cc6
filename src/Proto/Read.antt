-- ===== src/Proto/Read.antt =====
-- Reading data and SFDP tables: firmware/usb/flashProto.cxx from `performRead` on.
pub mod Begin
pub mod Stream
pub mod Session
pub mod Tables
use spiflash_programmer.Prelude.{
  ℕ, Bool, true, false, ◌&&◌, List, take, bit_and, min, u16, sub16, sub32, ltb, ◌==◌, if◌then◌else◌,
  ◌++◌, drop,
}
use spiflash_programmer.Protocol.Page.{page_value, page_next}
use spiflash_programmer.Machine.{World, SpiChip, normal, sfdp, Pointer, Callback}
use spiflash_programmer.Machine.Action.{Env, Action, pure, ◌>>=◌, ◌>>◌, get, modify, deref}
use spiflash_programmer.Spi.{spi_device, spi_select, spi_write, led_set_colour}
use spiflash_programmer.Spi.Opcode
use spiflash_programmer.Sfdp.{read_bytes}
use spiflash_programmer.Proto.Common.{
  flash_buffer_size, set_ep_in, is_w25n, send, expect_data, begin_page_read, write_address24,
}

abbrev pub is_none : SpiChip → Bool
is_none SpiChip.none = true
is_none _ = false

abbrev pub set_read_count : ℕ → World → World
set_read_count n s = record s { reading = record s.reading { read_count = n } }

-- The bytes that were read go to the response buffer, and from there to the host.
unfoldable pub transmit : ℕ → List ℕ → ℕ → Action (Unit {0})
transmit endpoint response count = do
  modify (λ s. record s { reading = record s.reading { response = response } })
  modify (λ s.
      set_ep_in endpoint
        (record {
          mem_buffer = Pointer.response;
          transfer_count = count;
          flags = (s.ep_in endpoint).flags;
        })
        s)
  send endpoint (take count response)

unfoldable pub finish_read : Action (Unit {0})
finish_read = do spi_select SpiChip.none; led_set_colour false true false

module _ (env : Env) where
  unfoldable pub next_read_page : Action (Unit {0})
  next_read_page = do
    spi_select SpiChip.none
    modify (λ s. record s { reading = record s.reading { read_page = page_next s.read_page } })
    s ← get
    begin_page_read env s.read_page

  unfoldable pub perform_read : ℕ → Action (Unit {0})
  perform_read endpoint = do
    s ← get
    if s.read_count == 0 then pure tt else (do
      device ← deref (spi_device s.selected)
      bytes ← read_bytes env device env.ep_buffer_size
      transmit endpoint bytes env.ep_buffer_size
      modify (λ s. set_read_count (sub16 s.read_count (u16 env.ep_buffer_size)) s)
      s ← get
      if s.read_count == 0
          then finish_read
          else if is_w25n s.target_id
              && bit_and s.read_count (sub32 (page_value s.target_params.flash_page_size) 1) == 0
          then next_read_page
          else pure tt)

  unfoldable pub handle_read : Action (Unit {0})
  handle_read = do
    s ← get
    if is_none s.target_device then pure tt else (do
      modify (λ s. record s { reading = record s.reading { read_mode = normal } })
      begin_page_read env s.read_page
      perform_read s.read_endpoint)

  -- A count of 0 asks for 256 bytes.
  unfoldable pub setup_read : ℕ → Action Bool
  setup_read count = if ltb flash_buffer_size count then pure false else (do
    modify (set_read_count (if count == 0 then 256 else count))
    expect_data env Pointer.read_page 3 Callback.handle_read
    led_set_colour false false false
    pure true)

  unfoldable pub perform_sfdp_read : ℕ → Action (Unit {0})
  perform_sfdp_read endpoint = do
    s ← get
    if s.read_count == 0 then pure tt else (do
      device ← deref (spi_device s.selected)
      let amount = min (u16 env.ep_buffer_size) s.read_count
      bytes ← read_bytes env device amount
      transmit endpoint (bytes ++ drop amount s.response) amount
      modify (λ s. set_read_count (sub16 s.read_count amount) s)
      s ← get
      if s.read_count == 0 then finish_read else pure tt)

  unfoldable pub handle_sfdp_read : Action (Unit {0})
  handle_sfdp_read = do
    s ← get
    if is_none s.target_device then pure tt else (do
      modify (λ s. record s { reading = record s.reading { read_mode = sfdp } })
      device ← deref (spi_device s.target_device)
      spi_select s.target_device
      spi_write device Opcode.read_sfdp
      write_address24 device s.sfdp_address
      spi_write device 0
      perform_sfdp_read s.read_endpoint)

  unfoldable pub setup_sfdp_read : ℕ → Action Bool
  setup_sfdp_read count = if ltb flash_buffer_size count then pure false else (do
    modify (set_read_count (if count == 0 then 256 else count))
    expect_data env Pointer.sfdp_address 4 Callback.handle_sfdp_read
    led_set_colour false true true
    pure true)

  unfoldable pub perform_data_or_sfdp_read : ℕ → Action (Unit {0})
  perform_data_or_sfdp_read endpoint = do
    s ← get
    elim s.read_mode [ normal ↦ perform_read endpoint | sfdp ↦ perform_sfdp_read endpoint ]
