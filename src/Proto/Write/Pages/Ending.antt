-- ===== src/Proto/Write/Pages/Ending.antt =====
-- The packet of a write that ends a page, with more to come: `performWrite` of firmware/usb/flashProto.cxx.
use spiflash_programmer.Prelude.{
  ℕ, ◌+◌, ◌-◌, ◌<◌, ◌≡◌, true, false, List, [], ◌∷◌, some, u8, sub32, arith, bit_and, min, length,
  subst, ==_self, ◌==◌,
}
use spiflash_programmer.Machine.{World, SpiChip, Ssi, Event}
use spiflash_programmer.Machine.Action.{Env, done, with_board}
use spiflash_programmer.Spi.{spi_device, spi_select, select_pins}
use spiflash_programmer.Spi.Transaction.{transaction}
use spiflash_programmer.Proto.Common.{is_large, is_w25n, page_address}
use spiflash_programmer.Proto.Erase.Range.{polled, is_busy_ready}
use spiflash_programmer.Proto.Write.{perform_write, finish_page, page_mask}
use spiflash_programmer.Proto.Write.Packets.{
  Holds, IsFeeding, IsWriting, packet_written, received, receive_lem, write_bytes_lem,
}
use spiflash_programmer.Proto.Write.Session.{wait_ready_lem}
use spiflash_programmer.Proto.Write.Pages.{programmed, write_address_lem}

module _ (env : Env) (endpoint : ℕ) (chip : SpiChip) (port : Ssi) (payload : List ℕ) (packet : ℕ)
    (wired : spi_device chip ≡ some port) (feeding : IsFeeding env payload packet)
    (positive : 0 < packet) (bounded : length payload < 65536) (waits : 0 < env.polls)
    (ready : (log : List Event)
      → transaction chip log ≡ some (0 ∷ 0x05 ∷ [])
      → bit_and (u8 (env.reply log)) 1 ≡ 0) where
  -- The world once a packet has been written, the chip released and polled.
  abbrev pub page_polled : ℕ → ℕ → World → World
  page_polled n left s =
      let u : World =
        packet_written env endpoint chip port payload packet wired feeding positive bounded n left
          s in
      polled env chip port wired ready (
        with_board u
          (record u.board { log = select_pins SpiChip.none u.log; selected = SpiChip.none }))

  abbrev pub page_turned : ℕ → ℕ → World → World
  page_turned n left s =
      let w : World = page_polled n left s in programmed chip port (page_address w w.write_page) w

  -- A packet that ends a page, with more to come.
  pub perform_write_turn :
      (n left : ℕ) (s : World)
      → IsWriting endpoint chip payload n left s
      → (bit_and (n + packet) (page_mask s) == 0) ≡ true
      → packet < left
      → is_large s ≡ false
      → is_w25n s.target_id ≡ false
      → s.verify_write ≡ false
      → perform_write env endpoint s ≡ done (tt, page_turned n left s)
  unfolding perform_write finish_page spi_select
  perform_write_turn n left s h ends more is_small no_nand unverified =
      let t : World = received env endpoint s in
      let u : World =
        packet_written env endpoint chip port payload packet wired feeding positive bounded n left
          s in
      let v : World =
        with_board u
          (record u.board { log = select_pins SpiChip.none u.log; selected = SpiChip.none }) in
      let w : World = page_polled n left s in
      let count = feeding.counts s.log (s.ep_out endpoint) s.flash_buffer in
      let came : (t.ep_out endpoint).transfer_count ≡ left - packet =
        rw (==_self endpoint) (omega (arith, count, h.to_come)) in
      let all_bytes = h.all_bytes in
      let whole : min packet (s.ep_out endpoint).transfer_count ≡ packet =
        omega (arith, h.to_come) in
      let kept : Holds payload (n + packet) t.flash_buffer =
        subst (λ m. Holds payload (n + m) t.flash_buffer) whole
          (feeding.stores s.log (s.ep_out endpoint) s.flash_buffer n (omega (arith, h.to_come))
            h.pointer h.held) in
      let writes = write_bytes_lem port payload t.flash_buffer packet n t kept in
      let begin : sub32 s.write_total s.write_count ≡ n = omega (arith, h.total, h.to_write) in
      let end : sub32 s.write_total (left - packet) ≡ n + packet = omega (arith, h.total) in
      let step : sub32 s.write_count packet ≡ left - packet = omega (arith, h.to_write) in
      let off : n + packet - n ≡ packet = omega arith in
      let waited =
        wait_ready_lem env env.polls v w waits
          (is_busy_ready env chip port wired ready v h.targeted no_nand) in
      let turns = write_address_lem chip port w wired h.targeted is_small in
      ground (
        arith,
        h.selected,
        h.total,
        h.to_write,
        wired,
        receive_lem env endpoint s,
        came,
        writes,
        begin,
        end,
        ends,
        step,
        off,
        waited,
        turns,
      )
