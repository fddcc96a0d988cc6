-- ===== src/Proto/Paged.antt =====
-- Chips with a page buffer, and the wait for them: firmware/usb/flashProto.cxx.
pub mod Loaded
pub mod Stream
pub mod Session
use spiflash_programmer.Prelude.{
  ℕ, zero, suc, ◌+◌, ◌<◌, ◌≡◌, refl, Bool, true, false, not, List, ◌∷◌, some, u8, arith, bit_and,
  ◌==◌, if◌then◌else◌, ◌>>>◌,
}
use spiflash_programmer.Protocol.Page.{Page, page_value}
use spiflash_programmer.Machine.{World, SpiChip, Ssi, Event, transfer}
use spiflash_programmer.Machine.Action.{Env, done}
use spiflash_programmer.Spi.{spi_device, spi_select, spi_write, spi_read, select_pins}
use spiflash_programmer.Spi.Transaction.{transaction}
use spiflash_programmer.Spi.Stream.{command}
use spiflash_programmer.Proto.Common.{
  is_busy, wait_ready, begin_page_read, write_address24, is_large, is_w25n,
}
use spiflash_programmer.Proto.Read.Begin.{addressed, transaction-addressed}

-- The chip is asked for its status, a Winbond NAND chip for that of register C0h; the last byte is
-- the one that the answer comes with.
abbrev pub asked : Bool → SpiChip → Ssi → List Event → List Event
asked true chip port log =
    transfer port 0 ∷ transfer port 0xc0 ∷ transfer port 0x05 ∷ select_pins chip log
asked false chip port log = transfer port 0 ∷ transfer port 0x05 ∷ select_pins chip log

-- The status has been asked for `n` times.
abbrev pub asked_times : Bool → SpiChip → Ssi → ℕ → List Event → List Event
asked_times nand chip port zero log = log
asked_times nand chip port (suc n) log =
    asked_times nand chip port n (select_pins SpiChip.none (asked nand chip port log))

-- What the answer says.
abbrev pub reports_busy : Env → Bool → SpiChip → Ssi → List Event → Bool
reports_busy env nand chip port log =
    not (bit_and (u8 (env.reply (asked nand chip port log))) 1 == 0)

-- The chip reports that it is busy the first `n` times, and that it is ready then.
abbrev pub IsReadyAfter : Env → Bool → SpiChip → Ssi → ℕ → List Event → Type 0
IsReadyAfter env nand chip port zero log = reports_busy env nand chip port log ≡ false
IsReadyAfter env nand chip port (suc n) log =
    (reports_busy env nand chip port log ≡ true)
    × IsReadyAfter env nand chip port n (select_pins SpiChip.none (asked nand chip port log))

abbrev pub after_asking : Bool → SpiChip → Ssi → ℕ → World → World
after_asking nand chip port n s = record s {
  board = record s.board { log = asked_times nand chip port n s.log; selected = SpiChip.none };
}

-- The world once a chip has got the page's number, has been asked for its status until it was ready,
-- and has got the read command from the buffer's first byte on.
abbrev pub buffered : Bool → SpiChip → Ssi → ℕ → ℕ → World → World
buffered nand chip port n page s =
    let t : World = addressed chip port 0x13 page s in
    addressed chip port 0x03 0 (
      after_asking nand chip port (suc n) (record t {
        board = record t.board { log = select_pins SpiChip.none t.log; selected = SpiChip.none };
      }))

module _ (env : Env) (chip : SpiChip) (port : Ssi) (wired : spi_device chip ≡ some port) where
  is_busy_lem :
      (nand : Bool) (s : World)
      → s.target_device ≡ chip
      → is_w25n s.target_id ≡ nand
      → is_busy env s
        ≡ done (reports_busy env nand chip port s.log, after_asking nand chip port 1 s)
  unfolding is_busy spi_select spi_write spi_read
  is_busy_lem true s on_chip kind = ground (arith, wired)
  is_busy_lem false s on_chip kind = ground (arith, wired)

  wait_ready_ends :
      (nand : Bool) (n polls : ℕ) (s : World)
      → s.target_device ≡ chip
      → is_w25n s.target_id ≡ nand
      → n < polls
      → IsReadyAfter env nand chip port n s.log
      → wait_ready env polls s ≡ done (tt, after_asking nand chip port (suc n) s)
  unfolding wait_ready
  wait_ready_ends nand n zero s on_chip kind enough h = absurd (omega arith)
  wait_ready_ends nand zero (suc polls) s on_chip kind enough h =
      let one = is_busy_lem nand s on_chip kind in ground (arith, one, h)
  wait_ready_ends nand (suc n) (suc polls) s on_chip kind enough (busy, h) =
      let one = is_busy_lem nand s on_chip kind in
      let rest =
        wait_ready_ends nand n polls (after_asking nand chip port 1 s) on_chip kind (omega arith)
          h in
      ground (arith, one, busy, rest)

  pub begin_page_read_paged :
      (nand : Bool) (n : ℕ) (page : Page) (s : World)
      → s.target_device ≡ chip
      → is_w25n s.target_id ≡ nand
      → is_large s ≡ true
      → n < env.polls
      → IsReadyAfter env nand chip port n
          (select_pins SpiChip.none (addressed chip port 0x13 (page_value page) s).log)
      → begin_page_read env page s ≡ done (tt, buffered nand chip port n (page_value page) s)
  unfolding begin_page_read write_address24 spi_select spi_write
  begin_page_read_paged nand n page s on_chip kind large enough h =
      let t : World = addressed chip port 0x13 (page_value page) s in
      let u : World = record t {
        board = record t.board { log = select_pins SpiChip.none t.log; selected = SpiChip.none };
      } in
      let waits = wait_ready_ends nand n env.polls u on_chip kind enough h in
      ground (arith, wired, waits)
