-- ===== src/Proto/Write/Pages.antt =====
-- A write of any size up to 64 KiB, over the ends of pages: firmware/usb/flashProto.cxx.
pub mod Ending
pub mod Turn
pub mod Session
use native.Mathlib.Nat.{mod-eq_of_lt, mul-mod_left, mul-add-mod_self_right, one-le-pow}
use spiflash_programmer.Prelude.{
  ℕ, zero, suc, ◌+◌, ◌-◌, ◌*◌, ◌%◌, ◌^◌, ◌<◌, ◌≤◌, ◌≡◌, refl, Bool, true, false, ◌&&◌, List, [],
  ◌∷◌, some, u8, u16, u32, sub32, arith, bit_and, min, length, ◌∙◌, sym, ap, subst, ==_self, ◌==◌,
  ltb, byte_at, if◌then◌else◌, Bool-cases, inl, inr,
}
use spiflash_programmer.Protocol.Page.{page_value, page_next}
use spiflash_programmer.Machine.{World, SpiChip, Ssi, Event, transfer, Pointer}
use spiflash_programmer.Machine.Action.{Env, Action, done, pure, ◌>>◌, with_board}
use spiflash_programmer.Spi.{spi_device, spi_select, spi_write, select_pins}
use spiflash_programmer.Spi.Transaction.{transaction}
use spiflash_programmer.Proto.Common.{
  is_large, is_w25n, page_address, write_address24, wait_ready, set_ep,
}
use spiflash_programmer.Proto.Erase.Range.{poll_events, polled, is_busy_ready}
use spiflash_programmer.Proto.Write.{
  perform_write, handle_write, write_address, finish_page, page_mask, set_write_count,
}
use spiflash_programmer.Proto.Write.Packets.{
  Holds, put, logged, mask-mod, IsFeeding, IsWriting, perform_write_more, packet_written,
  packet_written-IsWriting, received, receive_lem, write_bytes_lem,
}
use spiflash_programmer.Proto.Write.Session.{
  bus_events, bus_events-put, bus_events-select, put-put, perform_write_last, all_written,
  wait_ready_lem,
}
use spiflash_programmer.Proto.Write.Program.{
  out_packets, program_events, bus_events-poll, bus_events-program,
}
use spiflash_programmer.Proto.Write.Verified.{page_value-next}

-- What a chip sees after a byte of a write to `base`: if a page of `size` bytes ends with it and more
-- is to come, the chip is released and polled, and the program command of the next page follows.
abbrev pub after_byte : SpiChip → Ssi → List ℕ → (base size idx : ℕ) → List Event → List Event
after_byte chip port payload base size idx log =
    if (idx + 1) % size == 0 && ltb (idx + 1) (length payload)
    then program_events chip port (base + (idx + 1)) (
        poll_events chip port
          (select_pins SpiChip.none (transfer port (byte_at payload idx) ∷ log)))
    else transfer port (byte_at payload idx) ∷ log

-- The bytes of a write from `idx` on, on top of a log.
abbrev pub page_stream :
    SpiChip → Ssi → List ℕ → (base size count idx : ℕ) → List Event → List Event
page_stream chip port payload base size zero idx log = log
page_stream chip port payload base size (suc count) idx log =
    page_stream chip port payload base size count (idx + 1)
      (after_byte chip port payload base size idx log)

module _ (chip : SpiChip) (port : Ssi) (payload : List ℕ) (base size : ℕ) where
  pub page_stream-append :
      (a b idx : ℕ) (log : List Event)
      → page_stream chip port payload base size (a + b) idx log
        ≡ page_stream chip port payload base size b
            (idx + a)
            (page_stream chip port payload base size a idx log)
  page_stream-append zero b idx log =
      let e : idx + 0 ≡ idx = omega arith in let f : 0 + b ≡ b = omega arith in rw (e, f) refl
  page_stream-append (suc a) b idx log =
      let e : idx + suc a ≡ idx + 1 + a = omega arith in
      let f : suc a + b ≡ suc (a + b) = omega arith in
      rw (e, f) (page_stream-append a b (idx + 1) _)

  -- Inside of a page, and at the very end, bytes follow one another.
  pub page_stream-put :
      (count idx : ℕ) (log : List Event)
      → ((i : ℕ)
          → i < count
          → ((idx + i + 1) % size == 0 && ltb (idx + i + 1) (length payload)) ≡ false)
      → page_stream chip port payload base size count idx log ≡ put port payload count idx log
  page_stream-put zero idx log h = refl
  page_stream-put (suc count) idx log h =
      let here : ((idx + 1) % size == 0 && ltb (idx + 1) (length payload)) ≡ false =
        (let e : idx + 1 ≡ idx + 0 + 1 = omega arith in rw e (h 0 (omega arith))) in
      rw here (
        page_stream-put count (idx + 1) _ λ i small.
          let e : idx + 1 + i + 1 ≡ idx + suc i + 1 = omega arith in rw e (h (suc i) (omega arith)))

  -- Bytes of which the last one ends a page, with more to come.
  pub page_stream-turn :
      (count idx : ℕ) (log : List Event)
      → ((i : ℕ)
          → i < count
          → ((idx + i + 1) % size == 0 && ltb (idx + i + 1) (length payload)) ≡ false)
      → ((idx + count + 1) % size == 0 && ltb (idx + count + 1) (length payload)) ≡ true
      → page_stream chip port payload base size (count + 1) idx log
        ≡ program_events chip port (base + (idx + count + 1)) (
            poll_events chip port (select_pins SpiChip.none (put port payload (count + 1) idx log)))
  page_stream-turn count idx log before ends =
      page_stream-append count 1 idx log
      ∙ ap (page_stream chip port payload base size 1 (idx + count))
          (page_stream-put count idx log before)
      ∙ rw ends refl
      ∙ ap
          (λ l.
            program_events chip port (base + (idx + count + 1))
              (poll_events chip port (select_pins SpiChip.none l)))
          (put-put port payload count 1 idx log)

-- The world with the write enable and the program command on the bus.
abbrev pub programmed : SpiChip → Ssi → ℕ → World → World
programmed chip port addr s = record s {
  board = record s.board { log = program_events chip port addr s.log; selected = chip };
  writing = record s.writing { write_page = page_next s.write_page };
}

pub write_address_lem :
    (chip : SpiChip) (port : Ssi) (s : World)
    → spi_device chip ≡ some port
    → s.target_device ≡ chip
    → is_large s ≡ false
    → write_address s ≡ done (tt, programmed chip port (page_address s s.write_page) s)
unfolding write_address write_address24 spi_select spi_write
write_address_lem chip port s wired on_chip is_small = ground (arith, wired, on_chip, is_small)

pub mod_inside : (d g h x : ℕ) → x ≡ g * d + h → 0 < h → h < d → (x % d == 0) ≡ false
mod_inside d g h x e positive small =
    let r : x % d ≡ h =
      ap (λ (y : ℕ). y % d) e ∙ mul-add-mod_self_right g d h ∙ mod-eq_of_lt small in
    ground (arith, r)

pub mod_end : (d g x : ℕ) → x ≡ g * d → (x % d == 0) ≡ true
mod_end d g x e =
    let r : x % d ≡ 0 = ap (λ (y : ℕ). y % d) e ∙ mul-mod_left g d in ground (arith, r)

pub double_le : (a d : ℕ) → 1 < d → a + a ≤ a * d
double_le a d wide = grind arith

-- `r` bytes before the end of a page, no byte but the last of them ends it.
pub no_turn :
    (d g n r i : ℕ) → n + r ≡ g * d + d → r ≤ d → i + 1 < r → ((n + i + 1) % d == 0) ≡ false
no_turn d g n r i turn room short =
    mod_inside d g (d - r + (i + 1)) (n + i + 1) (omega arith) (omega arith) (omega arith)
