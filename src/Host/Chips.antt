-- ===== src/Host/Chips.antt =====
-- What the operations of software/flashprog.cxx share: the chip that is asked for, and listing.
use spiflash_programmer.Prelude.{
  ℕ, zero, suc, ◌+◌, ◌*◌, ◌^◌, Bool, true, false, not, List, Option, none, some, byte_at, ◌==◌,
  if◌then◌else◌,
}
use spiflash_programmer.Protocol.{FlashBus, internal, external, unknown}
use spiflash_programmer.Protocol.Layout.{DeviceCount, ListDevice, Status}
use spiflash_programmer.Protocol.Page.{Page}
use spiflash_programmer.Host.Requests.{count_devices, abort_all, list_chip, target_chip}
use spiflash_programmer.Host.Options.{Chip}
use spiflash_programmer.Host.Session.{
  HostAction, HostEnv, return, throw, ◌>>=◌, or_else, ◌>>◌, catch_error, ask, release_interface,
  give_up, with_device, request_error, response_error, nested_exception, release_with,
}

-- `4_KiB`, which stays shut, so that no list of so many bytes is ever written out.
unfoldable pub transfer_block_size : ℕ
transfer_block_size = 4096

-- The structs over which a reply is copied, which are zeros before.
abbrev pub page_in : List ℕ → ℕ → Page
page_in bytes i = record {
  byte0 = byte_at bytes i;
  byte1 = byte_at bytes (i + 1);
  byte2 = byte_at bytes (i + 2);
}

unfoldable pub device_count_in : List ℕ → DeviceCount
device_count_in bytes = record {
  internal_count = byte_at bytes 1;
  external_count = byte_at bytes 2;
}

unfoldable pub list_device_in : List ℕ → ListDevice
list_device_in bytes = record {
  manufacturer = byte_at bytes 1;
  device_type = byte_at bytes 2;
  device_size =
      byte_at bytes 4
      + byte_at bytes 5 * 2 ^ 8
      + byte_at bytes 6 * 2 ^ 16
      + byte_at bytes 7 * 2 ^ 24;
  page_size = page_in bytes 8;
  erase_size = page_in bytes 11;
}

unfoldable pub status_in : List ℕ → Status
status_in bytes = record {
  erase_complete = byte_at bytes 0;
  erase_page = page_in bytes 1;
  write_ok = not (byte_at bytes 4 == 0);
}

abbrev pub is_some : {A : Type 0} → Option A → Bool
is_some (some a) = true
is_some none = false

module _ (env : HostEnv) where
  unfoldable pub request_count : HostAction DeviceCount
  request_count = do
    reply ← ask env count_devices
    or_else reply (throw request_error) λ bytes. return (device_count_in bytes)

  unfoldable pub read_chip_info : Chip → HostAction ListDevice
  read_chip_info chip = do
    reply ← ask env (list_chip chip.index chip.bus)
    or_else reply
        (do ok ← release_interface env 0; throw (if ok then response_error else nested_exception))
        λ bytes. return (list_device_in bytes)

  -- `noexcept`: an exception that is not caught ends the program.
  unfoldable pub list_device : Chip → HostAction Bool
  list_device chip =
      catch_error (do info ← read_chip_info chip; return true)
        (λ e. elim e [ nested_exception ↦ throw nested_exception | _ ↦ return false ])

  -- The loop over the chips of a bus, from number `index` on.
  unfoldable pub list_chips : FlashBus → ℕ → ℕ → HostAction (Unit {0})
  list_chips bus zero index = return tt
  list_chips bus (suc count) index = do
    listed ← list_device (record { bus = bus; index = index })
    list_chips bus count (index + 1)

  unfoldable pub list_all : HostAction (Unit {0})
  list_all = do
    counts ← request_count
    list_chips internal counts.internal_count 0
    list_chips external counts.external_count 0

  -- A request's error is caught, and the interface is released again.
  unfoldable pub list_devices : HostAction ℕ
  list_devices = with_device env (do
    listed ←
        catch_error (do list_all; return true)
          (λ e. elim e [
            | request_error ↦ do ok ← release_interface env 0; return false
            | response_error ↦ throw response_error
            | nested_exception ↦ throw nested_exception
          ])
    if listed then release_with env 0 else return 1)

  unfoldable pub target_device : FlashBus → ℕ → HostAction Bool
  target_device bus number = do reply ← ask env (target_chip number bus); return (is_some reply)

  -- `!requests::abort_t{}.write(device, 0) || !targetDevice(...)`, as whether both went through.
  unfoldable pub select_chip : Chip → HostAction Bool
  select_chip chip = do
    aborted ← ask env abort_all
    or_else aborted (return false) λ reply. target_device chip.bus chip.index

  -- The end of an operation that went well: deselection, and the release of the interface.
  unfoldable pub finish : ℕ → HostAction ℕ
  finish code = do
    deselected ← target_device unknown 0
    if deselected then release_with env code else give_up env
