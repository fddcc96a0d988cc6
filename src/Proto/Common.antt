-- ===== src/Proto/Common.antt =====
-- What the operations of firmware/usb/flashProto.cxx share.
use spiflash_programmer.Prelude.{
  ℕ, zero, suc, Bool, true, false, not, ◌&&◌, List, ◌++◌, length, drop, bit_and, u8, u32, ltb, ◌==◌,
  if◌then◌else◌, ◌>>>◌, ◌*◌,
}
use spiflash_programmer.Protocol.Page.{Page, page_value}
use spiflash_programmer.Machine.{
  World, SpiChip, FlashId, Ssi, EpStatus, Pointer, Callback, write_ep,
}
use spiflash_programmer.Machine.Action.{
  spin, Env, Action, pure, ◌>>=◌, ◌>>◌, get, modify, deref, emit,
}
use spiflash_programmer.Spi.{spi_device, spi_select, spi_write, spi_read}
use spiflash_programmer.Spi.Opcode

-- `flashBuffer.size()`.
abbrev pub flash_buffer_size : ℕ
flash_buffer_size = 4096

abbrev pub set_ep : (ℕ → EpStatus) → ℕ → EpStatus → ℕ → EpStatus
set_ep eps n e m = if m == n then e else eps m

abbrev pub set_ep_in : ℕ → EpStatus → World → World
set_ep_in n e s = record s { ep_in = set_ep s.ep_in n e }

abbrev pub set_ep_out : ℕ → EpStatus → World → World
set_ep_out n e s = record s { ep_out = set_ep s.ep_out n e }

-- The Winbond parts that address and report status in their own way.
abbrev pub is_w25n : FlashId → Bool
is_w25n id = id.manufacturer == 0xef && id.type == 0xaa

-- `writeEP`: the USB core sends what the endpoint points at.
unfoldable pub send : ℕ → List ℕ → Action (Unit {0})
send endpoint bytes = modify (emit (write_ep endpoint bytes))

-- A number in three bytes, the high one first.
unfoldable pub write_address24 : Ssi → ℕ → Action (Unit {0})
write_address24 device n = do
  spi_write device (u8 (n >>> 16))
  spi_write device (u8 (n >>> 8))
  spi_write device (u8 n)

-- The reply that a control request sends back, over the front of the response buffer.
unfoldable pub write_response : List ℕ → Action ℕ
write_response bytes s =
    pure (length bytes) (record s {
      reading = record s.reading { response = bytes ++ drop (length bytes) s.response };
    })

-- Sets up the data stage of a control request, and what to do once it has come.
unfoldable pub expect_data : Env → Pointer → ℕ → Callback → Action (Unit {0})
expect_data env pointer count callback = modify λ s. record s {
  ep_out = set_ep s.ep_out 0 (record {
    mem_buffer = pointer;
    transfer_count = count;
    flags = env.needs_arming true (s.ep_out 0).flags;
  });
  setup_callback = callback;
}

-- A device of more than 2 ^ 24 bytes.
abbrev pub is_large : World → Bool
is_large s = ltb 0x18 s.target_params.actual_capacity

abbrev pub page_address : World → Page → ℕ
page_address s page = u32 (page_value page * page_value s.target_params.flash_page_size)

module _ (env : Env) where
  unfoldable pub is_busy : Action Bool
  is_busy = do
    s ← get
    device ← deref (spi_device s.target_device)
    spi_select s.target_device
    spi_write device Opcode.status_read
    if is_w25n s.target_id then spi_write device 0xc0 else pure tt
    status ← spi_read env device
    spi_select SpiChip.none
    pure (not (bit_and status 1 == 0))

  -- `while (isBusy()) continue;`
  unfoldable pub wait_ready : ℕ → Action (Unit {0})
  wait_ready zero s = spin
  wait_ready (suc polls) s =
      (is_busy >>= λ busy. elim busy [ true ↦ wait_ready polls | false ↦ pure tt ]) s

  unfoldable pub begin_page_read : Page → Action (Unit {0})
  begin_page_read page = do
    s ← get
    device ← deref (spi_device s.target_device)
    if is_large s
        then (do
          spi_select s.target_device
          spi_write device Opcode.page_address_read
          write_address24 device (page_value page)
          spi_select SpiChip.none
          wait_ready env.polls
          spi_select s.target_device
          spi_write device Opcode.page_read
          write_address24 device 0)
        else (do
          spi_select s.target_device
          spi_write device Opcode.page_read
          write_address24 device (page_address s page))
