-- ===== src/Host/Targeted.antt =====
-- The chip that a history of the host has targeted: `targetDevice` of software/flashprog.cxx, as
-- `handleTargetDevice` of firmware/usb/flashProto.cxx takes it.
use spiflash_programmer.Prelude.{
  ℕ, ◌≡◌, refl, [], ◌∷◌, Option, none, some, ◌==◌, if◌then◌else◌, false,
}
use spiflash_programmer.Protocol.{target_device, message_code}
use spiflash_programmer.Protocol.Page.{Page}
use spiflash_programmer.Host.Requests.{
  transfer_of, target_chip, read_page, write_page, write_control, address_value,
}
use spiflash_programmer.Host.Options.{Chip}
use spiflash_programmer.Host.Session.{History, control}

-- The address, number and bus, in the last request that targets a chip.
abbrev pub targeted : History → Option ℕ
targeted [] = none
targeted (control t ∷ log) =
    if t.request == message_code target_device then some t.value else targeted log
targeted (_ ∷ log) = targeted log

abbrev pub chip_address : Chip → ℕ
chip_address chip = address_value chip.index chip.bus

pub targeted-target :
    (chip : Chip) (log : History)
    → targeted (control (transfer_of (target_chip chip.index chip.bus) 0) ∷ log)
      ≡ some (chip_address chip)
unfolding transfer_of write_control message_code
targeted-target chip log = refl

pub targeted-read :
    (place : Page) (count : ℕ) (log : History)
    → targeted (control (transfer_of (read_page place count) 0) ∷ log) ≡ targeted log
unfolding transfer_of write_control message_code
targeted-read place count log = refl

pub targeted-write :
    (place : Page) (count : ℕ) (log : History)
    → targeted (control (transfer_of (write_page place false count) 0) ∷ log) ≡ targeted log
unfolding transfer_of write_control message_code
targeted-write place count log = refl
