-- ===== src/Proto/Erase/Range.antt =====
-- Erasing a range of pages, one a frame: `tick` of firmware/usb/flashProto.cxx.
use spiflash_programmer.Prelude.{
  ℕ, zero, suc, ◌+◌, ◌*◌, ◌<◌, ◌≡◌, refl, true, false, List, [], ◌∷◌, some, u8, u32, ◌>>>◌, arith,
  bit_and,
}
use spiflash_programmer.Protocol.Page.{
  page_value, page_next, IsPage, page_value-page_next, page_value-lt, page_of-IsPage,
}
use spiflash_programmer.Machine.{World, SpiChip, Ssi, Event, transfer, led}
use spiflash_programmer.Machine.Action.{Env, Action, done, pure, ◌>>◌}
use spiflash_programmer.Spi.{
  spi_device, spi_select, spi_write, spi_read, select_pins, led_set_colour,
}
use spiflash_programmer.Spi.Transaction.{transaction, transaction-select, transaction-transfer}
use spiflash_programmer.Proto.Common.{is_busy, is_large, is_w25n, write_address24}
use spiflash_programmer.Proto.Read.{is_none}
use spiflash_programmer.Proto.Erase.{tick, erase_step}

-- The chip's status is asked for.
abbrev pub poll_events : SpiChip → Ssi → List Event → List Event
poll_events chip port log =
    select_pins SpiChip.none (transfer port 0 ∷ transfer port 0x05 ∷ select_pins chip log)

-- The events of one page's erase: the status, the write enable, and the erase at an address.
abbrev pub page_events : SpiChip → Ssi → ℕ → ℕ → List Event → List Event
page_events chip port opcode addr log =
    let enabled =
      select_pins SpiChip.none
        (transfer port 0x06 ∷ select_pins chip (poll_events chip port log)) in
    select_pins SpiChip.none (
      transfer port (u8 addr)
      ∷ transfer port (u8 (addr >>> 8))
      ∷ transfer port (u8 (addr >>> 16))
      ∷ transfer port opcode
      ∷ select_pins chip enabled)

-- The events of the erase of `n` pages of `size` bytes from number `a` on, and of its end.
abbrev pub range_events : SpiChip → Ssi → ℕ → ℕ → ℕ → ℕ → List Event → List Event
range_events chip port opcode size zero a log = led false true false ∷ poll_events chip port log
range_events chip port opcode size (suc n) a log =
    range_events chip port opcode size n (a + 1) (page_events chip port opcode (u32 (a * size)) log)

-- As many frames of the bus, each with its tick.
pub frames : Env → ℕ → Action (Unit {0})
frames env zero = pure tt
frames env (suc n) = do tick env; frames env n

wired-chosen : (chip : SpiChip) (port : Ssi) → spi_device chip ≡ some port → is_none chip ≡ false
unfolding spi_device
wired-chosen SpiChip.none port e = cc
wired-chosen _ port e = refl

module _ (env : Env) (chip : SpiChip) (port : Ssi) (wired : spi_device chip ≡ some port)
    (ready : (log : List Event)
      → transaction chip log ≡ some (0 ∷ 0x05 ∷ [])
      → bit_and (u8 (env.reply log)) 1 ≡ 0) where
  -- The world after a poll.
  abbrev pub polled : World → World
  polled s = record s {
    board = record s.board { log = poll_events chip port s.log; selected = SpiChip.none };
  }

  pub is_busy_ready :
      (s : World)
      → s.target_device ≡ chip
      → is_w25n s.target_id ≡ false
      → is_busy env s ≡ done (false, polled s)
  unfolding is_busy spi_select spi_write spi_read
  is_busy_ready s on_chip no_nand =
      let l0 = select_pins chip s.log in
      let t0 = transaction-select chip s.log wired in
      let t1 = transaction-transfer chip port 0x05 l0 _ wired t0 in
      let t2 = transaction-transfer chip port 0 (transfer port 0x05 ∷ l0) _ wired t1 in
      ground (arith, wired, ready (transfer port 0 ∷ transfer port 0x05 ∷ l0) t2)

  abbrev page_erased : World → World
  page_erased s = record s {
    board = record s.board {
      log =
          page_events chip port s.target_params.erase_instruction
            (u32 (page_value s.begin_page * page_value s.target_params.erase_page_size)) s.log;
      selected = SpiChip.none;
    };
    status = record s.status { erase_page = s.begin_page };
    erasing = record s.erasing { begin_page = page_next s.begin_page };
  }

  tick_page :
      (s : World)
      → s.target_device ≡ chip
      → is_w25n s.target_id ≡ false
      → is_large s ≡ false
      → s.erase_active ≡ true
      → page_value s.begin_page < page_value s.end_page
      → tick env s ≡ done (tt, page_erased s)
  unfolding tick erase_step spi_select spi_write write_address24
  tick_page s on_chip no_nand is_small active more =
      ground (arith, is_busy_ready s on_chip no_nand, wired, wired-chosen chip port wired)

  abbrev range_erased : World → World
  range_erased s = record s {
    board = record s.board {
      log = led false true false ∷ poll_events chip port s.log;
      selected = SpiChip.none;
    };
    status = record s.status { erase_page = s.begin_page };
    erasing = record s.erasing { erase_active = false };
  }

  tick_end :
      (s : World)
      → s.target_device ≡ chip
      → is_w25n s.target_id ≡ false
      → s.erase_active ≡ true
      → page_value s.begin_page ≡ page_value s.end_page
      → tick env s ≡ done (tt, range_erased s)
  unfolding tick erase_step led_set_colour
  tick_end s on_chip no_nand active same = ground (arith, is_busy_ready s on_chip no_nand, wired)

  -- On a chip of at most 2 ^ 24 bytes that reports ready in each frame, an erase of `n` pages takes
  -- `n` frames and one more to end. The chip is sent a write enable and the erase instruction at
  -- the address of each page of the range, in order, and nothing beside that and the polls.
  pub erase_range :
      (n : ℕ) (s : World)
      → s.target_device ≡ chip
      → is_w25n s.target_id ≡ false
      → is_large s ≡ false
      → s.erase_active ≡ true
      → IsPage s.begin_page
      → IsPage s.end_page
      → page_value s.end_page ≡ page_value s.begin_page + n
      → (t : World) × (frames env (suc n) s ≡ done (tt, t))
        × (t.log
            ≡ range_events chip port s.target_params.erase_instruction
                (page_value s.target_params.erase_page_size)
                n
                (page_value s.begin_page)
                s.log)
        × (t.erase_active ≡ false)
        × (page_value t.status.erase_page ≡ page_value s.end_page)
        × (t.selected ≡ SpiChip.none)
  unfolding frames
  erase_range zero s on_chip no_nand is_small active begins ends_ size =
      let e : page_value s.begin_page ≡ page_value s.end_page = omega (arith, size) in
      let ticks = tick_end s on_chip no_nand active e in
      (range_erased s, ground (arith, ticks), refl, refl, e, refl)
  erase_range (suc n) s on_chip no_nand is_small active begins ends_ size =
      let ticks = tick_page s on_chip no_nand is_small active (omega arith) in
      let next = page_value-page_next s.begin_page begins in
      let top = page_value-lt s.end_page ends_ in
      let step : page_value (page_next s.begin_page) ≡ page_value s.begin_page + 1 = omega arith in
      let is_page : IsPage (page_next s.begin_page) =
        unfold page_next in page_of-IsPage (u32 (page_value s.begin_page + 1)) in
      let (t, runs, events, stopped, last, off) =
        erase_range n (page_erased s) on_chip no_nand is_small active is_page ends_ (omega arith) in
      (t, ground (arith, ticks, runs), cc (events, step), stopped, last, off)
