-- ===== src/Firmware/Descriptors/Registered.antt =====
-- The handlers that `run` of firmware/spiFlashProgrammer.cxx has registered for the flash protocol,
-- against the endpoints of firmware/usb/descriptors.cxx.
use spiflash_programmer.Prelude.{
  ℕ, ◌≡◌, refl, Bool, true, false, ◌&&◌, ◌||◌, List, [], ◌∷◌, ◌==◌, arith,
}
use spiflash_programmer.Protocol.Transport.{Direction, controller_out, controller_in}
use spiflash_programmer.Machine.{World}
use spiflash_programmer.Machine.Action.{Action, pure, ◌>>◌, modify, done}
use spiflash_programmer.Firmware.Descriptors.{
  Sizes, interface_part, endpoint_part, MultiPart, config_sections, config_descriptor,
}

-- The calls of the USB core: a handler of an endpoint in a configuration, of the start of frame for an
-- interface, and of the control requests to an interface in a configuration.
pub data Registration : Type 0 where
  endpoint_handler : ℕ → Direction → ℕ → Registration
  frame_handler : ℕ → Registration
  control_handler : ℕ → ℕ → Registration

unfoldable pub register_handlers : ℕ → ℕ → ℕ → ℕ → Action (List Registration)
register_handlers in_ep out_ep interface config = do
  modify (λ s. record s { reading = record s.reading { read_endpoint = in_ep } })
  modify (λ s. record s { writing = record s.writing { write_endpoint = out_ep } })
  pure (
      endpoint_handler in_ep controller_in config
      ∷ endpoint_handler out_ep controller_out config
      ∷ frame_handler interface
      ∷ control_handler interface config
      ∷ [])

-- The call that `run` makes.
unfoldable pub register_flash : Action (List Registration)
unfolding register_handlers
register_flash = register_handlers 1 1 0 1

abbrev same_direction : Direction → Direction → Bool
same_direction controller_in controller_in = true
same_direction controller_out controller_out = true
same_direction _ _ = false

-- Whether an endpoint has a handler in a configuration.
abbrev pub is_handled : List Registration → ℕ → Direction → ℕ → Bool
is_handled [] config dir number = false
is_handled (endpoint_handler n d c ∷ others) config dir number =
    (c == config && same_direction d dir && n == number) || is_handled others config dir number
is_handled (_ ∷ others) config dir number = is_handled others config dir number

-- Whether the interface that owns the control requests is this one.
abbrev pub is_controlled : List Registration → ℕ → Bool
is_controlled [] interface = false
is_controlled (control_handler i c ∷ others) interface =
    i == interface || is_controlled others interface
is_controlled (_ ∷ others) interface = is_controlled others interface

-- Whether an interface has an endpoint among the parts, of which the first belong to interface `at`.
abbrev pub is_declared_from : ℕ → List MultiPart → ℕ → Direction → ℕ → Bool
is_declared_from at [] interface dir number = false
is_declared_from at ((size, interface_part d) ∷ parts) interface dir number =
    is_declared_from d.number parts interface dir number
is_declared_from at ((size, endpoint_part d) ∷ parts) interface dir number =
    (at == interface && same_direction d.address.0 dir && d.address.1 == number)
    || is_declared_from at parts interface dir number
is_declared_from at ((size, _) ∷ parts) interface dir number =
    is_declared_from at parts interface dir number

abbrev pub is_declared : List MultiPart → ℕ → Direction → ℕ → Bool
is_declared = is_declared_from 0

abbrev flash_handlers : List Registration
flash_handlers =
    endpoint_handler 1 controller_in 1
    ∷ endpoint_handler 1 controller_out 1
    ∷ frame_handler 0
    ∷ control_handler 0 1
    ∷ []

flash_handlers_lem :
    (sizes : Sizes) (interface number : ℕ) (dir : Direction)
    → is_controlled flash_handlers interface ≡ true
    → is_handled flash_handlers 1 dir number
      ≡ is_declared (config_sections sizes) interface dir number
unfolding config_sections
flash_handlers_lem sizes interface number controller_in ours = ground arith
flash_handlers_lem sizes interface number controller_out ours = ground arith

-- In the configuration that the device declares, an endpoint has a handler of the flash protocol
-- exactly when the descriptors give it to an interface whose control requests the protocol handles,
-- and the firmware reads and writes by the numbers of these endpoints.
pub handlers_declared :
    (sizes : Sizes) (s : World)
    → (handlers : List Registration) × (t : World) × (register_flash s ≡ done (handlers, t))
      × ((interface number : ℕ) (dir : Direction)
          → is_controlled handlers interface ≡ true
          → is_handled handlers (config_descriptor sizes).value dir number
            ≡ is_declared (config_sections sizes) interface dir number)
      × (is_declared (config_sections sizes) 0 controller_in t.read_endpoint ≡ true)
      × (is_declared (config_sections sizes) 0 controller_out t.write_endpoint ≡ true)
unfolding register_flash config_sections
handlers_declared sizes s = (
  flash_handlers,
  record s {
    reading = record s.reading { read_endpoint = 1 };
    writing = record s.writing { write_endpoint = 1 };
  },
  refl,
  flash_handlers_lem sizes,
  refl,
  refl,
)
