-- ===== src/Host/Program.antt =====
-- `main` of software/flashprog.cxx, from the parsed command line on.
use spiflash_programmer.Prelude.{
  ℕ, Bool, true, false, not, ◌&&◌, List, [], ◌∷◌, ◌==◌, if◌then◌else◌, Option, none, some,
}
use spiflash_programmer.Host.Options.{Chip}
use spiflash_programmer.Host.Session.{HostAction, HostEnv, return}
use spiflash_programmer.Host.Chips.{list_devices}
use spiflash_programmer.Host.Erasing.{erase_device}
use spiflash_programmer.Host.Reading.{read_device}
use spiflash_programmer.Host.Writing.{write_device}
use spiflash_programmer.Host.Sfdp.{dump_sfdp}

-- The actions of the command line, with the chip that their options name.
pub data Operation : Type 0 where
  list_programmers list_flash : Operation
  erase_chip read_chip write_chip verified_write_chip sfdp_chip : Chip → Operation

-- `idVendor` and `idProduct`.
abbrev pub UsbId : Type 0
UsbId = ℕ × ℕ

unfoldable pub is_programmer : UsbId → Bool
is_programmer id = id.0 == 0x1209 && id.1 == 0xab0c

-- The loop over the devices of the list.
unfoldable pub programmers_in : List UsbId → List UsbId
programmers_in [] = []
programmers_in (id ∷ ids) = if is_programmer id then id ∷ programmers_in ids else programmers_in ids

abbrev pub is_single : List UsbId → Bool
is_single (id ∷ []) = true
is_single _ = false

module _ (env : HostEnv) where
  -- The comparisons with the operation's name: `list` is none of those that they try.
  unfoldable pub run_operation : Operation → HostAction ℕ
  run_operation list_programmers = list_devices env
  run_operation list_flash = return 0
  run_operation (erase_chip chip) = erase_device env chip
  run_operation (read_chip chip) = read_device env chip
  run_operation (write_chip chip) = write_device env chip false
  run_operation (verified_write_chip chip) = write_device env chip true
  run_operation (sfdp_chip chip) = dump_sfdp env chip

  -- The default is to list. Whether libusb starts, and the devices that it finds, are parameters.
  unfoldable pub run_program : Bool → List UsbId → Option Operation → HostAction ℕ
  run_program starts found operation =
      if not starts
      then return 2
      else if is_single (programmers_in found)
      then elim operation [ none ↦ run_operation list_programmers | some op ↦ run_operation op ]
      else return 0
