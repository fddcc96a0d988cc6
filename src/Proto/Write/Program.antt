-- ===== src/Proto/Write/Program.antt =====
-- The packets of a write, and the commands before them: firmware/usb/flashProto.cxx.
use spiflash_programmer.Prelude.{ℕ, zero, suc, ◌≡◌, refl, List, ◌∷◌, u8, ◌>>>◌}
use spiflash_programmer.Machine.{SpiChip, Ssi, Event, transfer}
use spiflash_programmer.Machine.Action.{Env, Action, pure, ◌>>◌}
use spiflash_programmer.Spi.{select_pins}
use spiflash_programmer.Proto.Erase.Range.{poll_events}
use spiflash_programmer.Proto.Write.{perform_write}
use spiflash_programmer.Proto.Write.Session.{bus_events}

pub bus_events-poll :
    (chip : SpiChip) (port : Ssi) (log : List Event)
    → bus_events (poll_events chip port log) ≡ poll_events chip port (bus_events log)
unfolding select_pins
bus_events-poll SpiChip.local1 port log = refl
bus_events-poll SpiChip.local2 port log = refl
bus_events-poll SpiChip.target port log = refl
bus_events-poll SpiChip.none port log = refl

-- The USB core has `m` packets from the host, one after the other.
unfoldable pub out_packets : Env → ℕ → ℕ → Action (Unit {0})
out_packets env endpoint zero = pure tt
out_packets env endpoint (suc m) = do perform_write env endpoint; out_packets env endpoint m

-- The write enable, and the program command with its address.
abbrev pub program_events : SpiChip → Ssi → ℕ → List Event → List Event
program_events chip port addr log =
    transfer port (u8 addr)
    ∷ transfer port (u8 (addr >>> 8))
    ∷ transfer port (u8 (addr >>> 16))
    ∷ transfer port 0x02
    ∷ select_pins chip (select_pins SpiChip.none (transfer port 0x06 ∷ select_pins chip log))

pub bus_events-program :
    (chip : SpiChip) (port : Ssi) (addr : ℕ) (log : List Event)
    → bus_events (program_events chip port addr log)
      ≡ program_events chip port addr (bus_events log)
unfolding select_pins
bus_events-program SpiChip.local1 port addr log = refl
bus_events-program SpiChip.local2 port addr log = refl
bus_events-program SpiChip.target port addr log = refl
bus_events-program SpiChip.none port addr log = refl
