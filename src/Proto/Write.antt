-- ===== src/Proto/Write.antt =====
-- Writing and verifying: firmware/usb/flashProto.cxx from `writeAddress` to `setupWrite`.
pub mod Bounds
pub mod Packets
pub mod Session
pub mod Program
pub mod Verified
pub mod Pages
use spiflash_programmer.Prelude.{
  ℕ, zero, suc, ◌+◌, ◌-◌, Bool, true, false, ◌&&◌, ◌||◌, List, bit_and, u16, sub32, ltb, ◌==◌,
  if◌then◌else◌, get_elem?,
}
use spiflash_programmer.Protocol.Page.{Page, page_value, page_next}
use spiflash_programmer.Machine.{World, SpiChip, Ssi, Pointer, Callback, read_ep}
use spiflash_programmer.Machine.Action.{Env, Action, pure, ◌>>=◌, ◌>>◌, get, modify, deref, emit}
use spiflash_programmer.Spi.{spi_device, spi_select, spi_write, spi_read, led_set_colour}
use spiflash_programmer.Spi.Opcode
use spiflash_programmer.Proto.Common.{
  flash_buffer_size, set_ep_out, expect_data, begin_page_read, write_address24, wait_ready,
  is_large, page_address,
}

abbrev pub set_write_page : Page → World → World
set_write_page page s = record s { writing = record s.writing { write_page = page } }

abbrev pub set_write_count : ℕ → World → World
set_write_count n s = record s { writing = record s.writing { write_count = n } }

unfoldable pub write_address : Action (Unit {0})
write_address = do
  s ← get
  device ← deref (spi_device s.target_device)
  spi_select s.target_device
  spi_write device Opcode.write_enable
  spi_select SpiChip.none
  if is_large s
      then (do
        spi_select s.target_device
        spi_write device Opcode.page_write
        spi_write device 0
        spi_write device 0)
      else (do
        modify (set_write_page (page_next s.write_page))
        spi_select s.target_device
        spi_write device Opcode.page_write
        write_address24 device (page_address s s.write_page))

unfoldable pub write_page_address : Action (Unit {0})
write_page_address = do
  s ← get
  device ← deref (spi_device s.target_device)
  spi_select s.target_device
  spi_write device Opcode.page_address_write
  write_address24 device (page_value s.write_page)
  spi_select SpiChip.none
  modify (set_write_page (page_next s.write_page))

-- The loop over `count` bytes of the buffer from `idx` on.
unfoldable pub write_bytes : Ssi → List ℕ → ℕ → ℕ → Action (Unit {0})
write_bytes device buffer zero idx = pure tt
write_bytes device buffer (suc count) idx = do
  byte ← deref (get_elem? buffer idx)
  spi_write device byte
  write_bytes device buffer count (idx + 1)

abbrev pub page_mask : World → ℕ
page_mask s = sub32 (page_value s.target_params.flash_page_size) 1

module _ (env : Env) where
  -- One round of the verification loop.
  unfoldable pub verify_byte : Ssi → ℕ → Action (Unit {0})
  verify_byte device idx = do
    s ← get
    expected ← deref (get_elem? s.flash_buffer idx)
    actual ← spi_read env device
    if expected == actual
        then pure tt
        else modify (λ s. record s { status = record s.status { write_ok = false } })
    if bit_and idx (page_mask s) == 0
        then (do
          spi_select SpiChip.none
          modify (λ s. record s {
            writing = record s.writing { verify_page = page_next s.verify_page };
          })
          s ← get
          begin_page_read env s.verify_page)
        else pure tt

  -- The verification loop, for `count` bytes from `idx` on.
  unfoldable pub verify_bytes : Ssi → ℕ → ℕ → Action (Unit {0})
  verify_bytes device zero idx = pure tt
  verify_bytes device (suc count) idx = do
    verify_byte device idx
    verify_bytes device count (idx + 1)

  -- `readEP`: the USB core puts a packet where the endpoint points, and counts it off.
  unfoldable pub receive : ℕ → Action (Unit {0})
  receive endpoint = modify λ s.
      let (status, buffer) = env.read_ep s.log (s.ep_out endpoint) s.flash_buffer in
      emit (read_ep endpoint) (
        set_ep_out endpoint status
          (record s { writing = record s.writing { flash_buffer = buffer } }))

  -- A page or the whole buffer has been written, up to `end`.
  unfoldable pub finish_page : Action (Unit {0})
  finish_page = do
    spi_select SpiChip.none
    s ← get
    if is_large s then write_page_address else pure tt
    wait_ready env env.polls
    if s.write_count == 0 then led_set_colour false true false else write_address

  unfoldable pub verify : Ssi → Action (Unit {0})
  verify device = do
    s ← get
    begin_page_read env s.verify_page
    verify_bytes device s.write_total 0
    spi_select SpiChip.none

  unfoldable pub perform_write : ℕ → Action (Unit {0})
  perform_write endpoint = do
    s ← get
    device ← deref (spi_device s.selected)
    if s.write_count == 0 then pure tt else (do
      receive endpoint
      s ← get
      let begin = sub32 s.write_total s.write_count
      let end = sub32 s.write_total (s.ep_out endpoint).transfer_count
      write_bytes device s.flash_buffer (end - begin) begin
      modify (set_write_count (sub32 s.write_count (sub32 end begin)))
      s ← get
      if bit_and end (page_mask s) == 0 || s.write_count == 0 then finish_page else pure tt
      s ← get
      if s.write_count == 0 && s.verify_write then verify device else pure tt)

unfoldable pub handle_write : Action (Unit {0})
handle_write = do
  modify (λ s. record s { writing = record s.writing { verify_page = s.write_page } })
  write_address
  modify (λ s.
      set_ep_out s.write_endpoint
        (record {
          mem_buffer = Pointer.flash_buffer 0;
          transfer_count = u16 s.write_count;
          flags = (s.ep_out s.write_endpoint).flags;
        })
        s)

module _ (env : Env) where
  -- A count of 0 asks for 256 bytes.
  unfoldable pub setup_write : ℕ → Bool → Action Bool
  setup_write count verify = if ltb flash_buffer_size count then pure false else (do
    modify (set_write_count (if count == 0 then 256 else count))
    expect_data env Pointer.write_page 3 Callback.handle_write
    led_set_colour true true false
    modify (λ s. record s {
      writing = record s.writing { write_total = s.write_count; verify_write = verify };
      status = record s.status { write_ok = true };
    })
    pure true)
