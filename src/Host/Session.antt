-- ===== src/Host/Session.antt =====
-- The host's calls of libusb and of files: software/include/usbDevice.hxx, and the file descriptors
-- of software/flashprog.cxx. What the operating system answers is a parameter.
use spiflash_programmer.Prelude.{
  ℕ, ◌-◌, Bool, true, false, List, [], ◌∷◌, ◌++◌, Option, none, some, length, drop, replicate, ◌==◌,
  if◌then◌else◌,
}
use spiflash_programmer.Protocol.Transport.{controller_in, controller_out, endpoint_address}
use spiflash_programmer.Host.Requests.{Transfer, HostRequest, transfer_of}

-- Every effect of the host's program, but for what it prints. A history lists them newest first.
pub data HostEvent : Type 0 where
  -- A control transfer.
  control : Transfer → HostEvent
  -- A transfer on an endpoint, by its address, the buffer's size and what is sent.
  bulk interrupt : ℕ → ℕ → List ℕ → HostEvent
  claim release : ℕ → HostEvent
  write_file : List ℕ → HostEvent
  read_file : ℕ → HostEvent
  sleep_ms : ℕ → HostEvent
  begin_progress : Option ℕ → HostEvent
  add_progress : ℕ → HostEvent
  close_progress : HostEvent

abbrev pub History : Type 0
History = List HostEvent

-- libusb and the operating system, each any function of the history. A control transfer returns a
-- negative number, as `none`, or how many bytes it moved, beside those that it put in the buffer.
-- The other transfers and the claims return 0 or an error; a transfer that was short returns 0 too.
pub record HostEnv : Type 0 where
  pub opens : History → Bool
  pub on_control : History → Transfer → Option ℕ × List ℕ
  pub on_bulk : History → ℕ → ℕ → List ℕ → ℕ × List ℕ
  pub on_interrupt : History → ℕ → ℕ → List ℕ → ℕ × List ℕ
  pub on_claim : History → ℕ → ℕ
  pub on_release : History → ℕ → ℕ
  pub opens_file : History → Bool
  -- `length`, which is negative, as `none`, for a file that has none.
  pub file_length : History → Option ℕ
  pub on_read_file : History → ℕ → Option (List ℕ)
  pub on_write_file : History → List ℕ → Bool
  -- Bounds the loops that wait for the programmer.
  pub status_polls : ℕ

-- `requests::usbError_t`, `responses::usbError_t` and `std::nested_exception`.
pub data Exception : Type 0 where
  request_error response_error nested_exception : Exception

-- `crashed` is a division by zero, and `waiting` a loop that has used up its polls.
pub data Ended {ℓ} (A : Type ℓ) : Type ℓ where
  returned : A → Ended A
  raised : Exception → Ended A
  crashed waiting : Ended A

abbrev pub HostAction : Type 0 → Type 0
HostAction A = History → Ended A × History

abbrev pub return : {A : Type 0} → A → HostAction A
return a log = (returned a, log)

abbrev pub throw : {A : Type 0} → Exception → HostAction A
throw e log = (raised e, log)

abbrev pub crash : {A : Type 0} → HostAction A
crash log = (crashed, log)

abbrev pub hang : {A : Type 0} → HostAction A
hang log = (waiting, log)

abbrev pub gets : {A : Type 0} → (History → A) → HostAction A
gets f log = (returned (f log), log)

infixl 5 ◌>>=◌ ◌>>◌
abbrev pub ◌>>=◌ : {A B : Type 0} → HostAction A → (A → HostAction B) → HostAction B
◌>>=◌ m f log =
    let (r, log') = m log in
    elim r [
      | returned a ↦ f a log'
      | raised e ↦ (raised e, log')
      | crashed ↦ (crashed, log')
      | waiting ↦ (waiting, log')
    ]

abbrev pub ◌>>◌ : {B : Type 0} → HostAction (Unit {0}) → HostAction B → HostAction B
m >> k = m >>= λ _. k

-- `try m catch (std::exception &) h`, which lets what is no `std::exception` through.
abbrev pub catch_error : {A : Type 0} → HostAction A → (Exception → HostAction A) → HostAction A
catch_error m h log =
    let (r, log') = m log in
    elim r [
      | raised e ↦ h e log'
      | returned a ↦ (returned a, log')
      | crashed ↦ (crashed, log')
      | waiting ↦ (waiting, log')
    ]

-- The check of a call that may have failed: what to do then, or with what it returned.
abbrev pub or_else : {A B : Type 0} → Option A → HostAction B → (A → HostAction B) → HostAction B
or_else none failed k = failed
or_else (some a) failed k = k a

abbrev pub note : HostEvent → HostAction (Unit {0})
note e log = (returned tt, e ∷ log)

-- A buffer of zeros after a transfer into it.
unfoldable pub padded : ℕ → List ℕ → List ℕ
padded size bytes = bytes ++ replicate (size - length bytes) 0

-- A buffer that is used again after a transfer into it.
unfoldable pub overlay : List ℕ → List ℕ → List ℕ
overlay bytes buffer = bytes ++ drop (length bytes) buffer

-- `result == bufferLen`.
abbrev pub is_complete : Option ℕ → ℕ → Bool
is_complete none size = false
is_complete (some moved) size = moved == size

abbrev only_if : {A : Type 0} → Bool → A → Option A
only_if true a = some a
only_if false a = none

module _ (env : HostEnv) where
  -- The bytes are read only after a transfer that was complete.
  unfoldable pub control_transfer : Transfer → HostAction (Option (List ℕ))
  control_transfer t log =
      let (result, bytes) = env.on_control log t in
      (returned (only_if (is_complete result t.length) bytes), control t ∷ log)

  -- The bytes, if libusb reported no error.
  unfoldable pub bulk_transfer : ℕ → ℕ → List ℕ → HostAction (Option (List ℕ))
  bulk_transfer address size sent log =
      let (result, bytes) = env.on_bulk log address size sent in
      (returned (only_if (result == 0) bytes), bulk address size sent ∷ log)

  unfoldable pub interrupt_transfer : ℕ → ℕ → List ℕ → HostAction (Option (List ℕ))
  interrupt_transfer address size sent log =
      let (result, bytes) = env.on_interrupt log address size sent in
      (returned (only_if (result == 0) bytes), interrupt address size sent ∷ log)

  unfoldable pub read_bulk : ℕ → ℕ → HostAction (Option (List ℕ))
  read_bulk endpoint size = bulk_transfer (endpoint_address controller_in endpoint) size []

  unfoldable pub write_bulk : ℕ → List ℕ → HostAction (Option (List ℕ))
  write_bulk endpoint bytes =
      bulk_transfer (endpoint_address controller_out endpoint) (length bytes) bytes

  unfoldable pub read_interrupt : ℕ → ℕ → HostAction (Option (List ℕ))
  read_interrupt endpoint size =
      interrupt_transfer (endpoint_address controller_in endpoint) size []

  unfoldable pub write_interrupt : ℕ → List ℕ → HostAction (Option (List ℕ))
  write_interrupt endpoint bytes =
      interrupt_transfer (endpoint_address controller_out endpoint) (length bytes) bytes

  unfoldable pub claim_interface : ℕ → HostAction Bool
  claim_interface number log = (returned (env.on_claim log number == 0), claim number ∷ log)

  unfoldable pub release_interface : ℕ → HostAction Bool
  release_interface number log = (returned (env.on_release log number == 0), release number ∷ log)

  -- A request's `read` or `write` on the host's interface, 0.
  unfoldable pub ask : HostRequest → HostAction (Option (List ℕ))
  ask request = control_transfer (transfer_of request 0)

  unfoldable pub save : List ℕ → HostAction Bool
  save bytes log = (returned (env.on_write_file log bytes), write_file bytes ∷ log)

  unfoldable pub load : ℕ → HostAction (Option (List ℕ))
  load size log = (returned (env.on_read_file log size), read_file size ∷ log)

  -- `if (!device.releaseInterface(0)) return 2; return 1;`
  unfoldable pub give_up : HostAction ℕ
  give_up = do ok ← release_interface 0; return (if ok then 1 else 2)

  -- `rawDevice.open()`, `valid` and `claimInterface(0)`.
  unfoldable pub open_and_claim : HostAction Bool
  open_and_claim = do opened ← gets env.opens; if opened then claim_interface 0 else return false

  -- The start of each operation, which gives up if the device cannot be had.
  unfoldable pub with_device : HostAction ℕ → HostAction ℕ
  with_device session = do ready ← open_and_claim; if ready then session else return 1

  -- `if (!device.releaseInterface(0)) return 1; return code;`
  unfoldable pub release_with : ℕ → HostAction ℕ
  release_with code = do ok ← release_interface 0; return (if ok then code else 1)
