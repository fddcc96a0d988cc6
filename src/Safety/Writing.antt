-- ===== src/Safety/Writing.antt =====
-- The wiring is kept by the handlers of firmware/usb/flashProto.cxx that write and erase.
use Prim.Native.Nat.{ℕ}
use spiflash_programmer.Prelude.{List, ℕ, Bool, get_elem?, ◌+◌, suc, zero}
use spiflash_programmer.Spi.Select.{Wired, IsWired-event, spi_write-Keeps}
use spiflash_programmer.Protocol.{EraseOperation, all, page, page_range, idle}
use spiflash_programmer.Machine.Keeps.{Keeps, Keeps-pure, Keeps-bind, Keeps-deref}
use spiflash_programmer.Proto.Erase.{
  start_range, start_erase, setup_erase, check_erase_status, erase_step, tick, handle_erase,
}
use spiflash_programmer.Machine.Action.{Env}
use spiflash_programmer.Machine.{Ssi, read_ep}
use spiflash_programmer.Proto.Write.{
  write_address, write_page_address, write_bytes, verify_bytes, receive, finish_page, verify,
  perform_write, setup_write, verify_byte, handle_write,
}
use spiflash_programmer.Safety.Parts.{parts}

write_address-Keeps : Keeps Wired write_address
unfolding write_address
write_address-Keeps = search parts depth 20

write_page_address-Keeps : Keeps Wired write_page_address
unfolding write_page_address
write_page_address-Keeps = search parts depth 20

write_bytes-Keeps :
    (device : Ssi) (buffer : List ℕ) (count idx : ℕ)
    → Keeps Wired (write_bytes device buffer count idx)
unfolding write_bytes
write_bytes-Keeps device buffer zero idx = Keeps-pure tt
write_bytes-Keeps device buffer (suc count) idx =
    Keeps-bind (Keeps-deref (get_elem? buffer idx)) λ byte.
      Keeps-bind (spi_write-Keeps device byte) λ u. write_bytes-Keeps device buffer count (idx + 1)

pub handle_write-Keeps : Keeps Wired handle_write
unfolding handle_write
handle_write-Keeps = search (parts, write_address-Keeps) depth 20

module _ (env : Env) where
  verify_byte-Keeps : (device : Ssi) (idx : ℕ) → Keeps Wired (verify_byte env device idx)
  unfolding verify_byte
  verify_byte-Keeps device idx = search parts depth 20

  verify_bytes-Keeps :
      (device : Ssi) (count idx : ℕ) → Keeps Wired (verify_bytes env device count idx)
  unfolding verify_bytes
  verify_bytes-Keeps device zero idx = Keeps-pure tt
  verify_bytes-Keeps device (suc count) idx =
      Keeps-bind (verify_byte-Keeps device idx) λ u. verify_bytes-Keeps device count (idx + 1)

  receive-Keeps : (endpoint : ℕ) → Keeps Wired (receive env endpoint)
  unfolding receive
  receive-Keeps endpoint = record { run = λ s w. IsWired-event s.board (read_ep endpoint) tt w }

  finish_page-Keeps : Keeps Wired (finish_page env)
  unfolding finish_page
  finish_page-Keeps = search (parts, write_address-Keeps, write_page_address-Keeps) depth 20

  verify-Keeps : (device : Ssi) → Keeps Wired (verify env device)
  unfolding verify
  verify-Keeps device = search (parts, verify_bytes-Keeps) depth 20

  pub perform_write-Keeps : (endpoint : ℕ) → Keeps Wired (perform_write env endpoint)
  unfolding perform_write
  perform_write-Keeps endpoint =
      search (parts, receive-Keeps, write_bytes-Keeps, finish_page-Keeps, verify-Keeps) depth 20

  pub setup_write-Keeps : (count : ℕ) (check : Bool) → Keeps Wired (setup_write env count check)
  unfolding setup_write
  setup_write-Keeps count check = search parts depth 20

start_range-Keeps : Keeps Wired start_range
unfolding start_range
start_range-Keeps = record { run = λ s w. w }

start_erase-Keeps : (op : EraseOperation) → Keeps Wired (start_erase op)
unfolding start_erase
start_erase-Keeps all = search parts depth 20
start_erase-Keeps page = search (parts, start_range-Keeps) depth 8
start_erase-Keeps page_range = start_range-Keeps
start_erase-Keeps idle = search parts depth 20

erase_step-Keeps : Keeps Wired erase_step
unfolding erase_step
erase_step-Keeps = search parts depth 20

pub handle_erase-Keeps : Keeps Wired handle_erase
unfolding handle_erase
handle_erase-Keeps = search (parts, start_erase-Keeps) depth 20

module _ (env : Env) where
  pub setup_erase-Keeps : (opcode : ℕ) → Keeps Wired (setup_erase env opcode)
  unfolding setup_erase
  setup_erase-Keeps opcode = search parts depth 20

  pub check_erase_status-Keeps : Keeps Wired (check_erase_status env)
  unfolding check_erase_status
  check_erase_status-Keeps = search parts depth 20

  pub tick-Keeps : Keeps Wired (tick env)
  unfolding tick
  tick-Keeps = search (parts, erase_step-Keeps) depth 20
