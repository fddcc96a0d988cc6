-- ===== src/Proto/Paged/Session.antt =====
-- A read of a chip with a page buffer, from the host's request to the last packet:
-- firmware/usb/flashProto.cxx.
use spiflash_programmer.Prelude.{ℕ, ◌<◌, Bool, List}
use spiflash_programmer.Protocol.Page.{Page}
use spiflash_programmer.Machine.{SpiChip, Ssi, Event}
use spiflash_programmer.Machine.Action.{Env}
use spiflash_programmer.Proto.Paged.{IsReadyAfter}

-- The chip is ready after fewer questions than the firmware asks, whenever it is asked.
abbrev pub IsReadyInTime : Env → Bool → SpiChip → Ssi → Type 0
IsReadyInTime env nand chip port =
    (log : List Event) → (n : ℕ) × (n < env.polls) × IsReadyAfter env nand chip port n log
