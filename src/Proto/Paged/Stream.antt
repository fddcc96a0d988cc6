-- ===== src/Proto/Paged/Stream.antt =====
-- Packets out of a chip's page buffer: `performRead` of firmware/usb/flashProto.cxx.
use native.Mathlib.Nat.{mod-eq_of_lt}
use spiflash_programmer.Prelude.{
  take, ℕ, ◌+◌, ◌-◌, ◌^◌, ◌<◌, ◌≤◌, ◌≡◌, refl, true, false, ◌++◌, some, arith, replicate, ◌∙◌,
  bit_and, ◌==◌,
}
use spiflash_programmer.Protocol.Page.{page_value}
use spiflash_programmer.Machine.{World, SpiChip, Ssi, led}
use spiflash_programmer.Machine.Action.{Env, done, emit, with_board}
use spiflash_programmer.Spi.{spi_device, spi_select, led_set_colour, select_pins}
use spiflash_programmer.Spi.Transaction.{transaction, sent-select}
use spiflash_programmer.Spi.Stream.{command, slice, after_reading, transaction-dummies, dummies}
use spiflash_programmer.Spi.Buffer.{IsPaged, loaded, loaded-dummies, read_bytes-page, loaded-send}
use spiflash_programmer.Proto.Read.{perform_read, set_read_count, finish_read}
use spiflash_programmer.Proto.Read.Stream.{IsServed, transmitted, transmit_lem, served_slice}
use spiflash_programmer.Proto.Write.{page_mask}
use spiflash_programmer.Proto.Write.Packets.{mask-mod}

-- In the middle of a read: the page is in the chip's buffer, `k` bytes have been read, and what is
-- left does not go beyond the page.
pub record IsBuffering (chip : SpiChip) (page size k left : ℕ) (s : World) : Type 0 where
  pub selected : s.selected ≡ chip
  pub position : transaction chip s.log ≡ some (replicate k 0 ++ command 0x03 0 0 0)
  pub holds : loaded chip s.log ≡ some page
  pub to_read : s.read_count ≡ left
  pub page_size : page_value s.target_params.flash_page_size ≡ size
  pub room : k + left ≤ size

module _ (env : Env) (endpoint : ℕ) (chip : SpiChip) (port : Ssi) (mem : ℕ → ℕ → ℕ)
    (wired : spi_device chip ≡ some port) (paged : IsPaged env chip mem)
    (positive : 0 < env.ep_buffer_size) (page j : ℕ) (fits : 2 ^ j < 65536) where
  pub buffered_more :
      (k left : ℕ) (s : World)
      → IsBuffering chip page (2 ^ j) k left s
      → env.ep_buffer_size < left
      → left < 65536
      → (t : World) × (perform_read env endpoint s ≡ done (tt, t))
        × IsServed endpoint
            (slice (mem page) (0 + k) env.ep_buffer_size)
            (left - env.ep_buffer_size)
            s
            t
        × IsBuffering chip page (2 ^ j) (env.ep_buffer_size + k) (left - env.ep_buffer_size) t
  unfolding perform_read
  buffered_more k left s h more small =
      let n = env.ep_buffer_size in
      let zero_first : 0 + k ≡ k = omega arith in
      let bytes = slice (mem page) k n in
      let t : World =
        set_read_count (left - n) (transmitted endpoint bytes n (after_reading port n s)) in
      let reads = read_bytes-page env chip port mem wired paged page n k s h.holds h.position in
      let inside : (bit_and (left - n) (page_mask s) == 0) ≡ false =
        (let few : left - n < 2 ^ j = omega (arith, h.room) in
          rw (h.page_size, mask-mod j (left - n) fits, mod-eq_of_lt few) (ground (arith, more))) in
      let moved = transaction-dummies chip port wired n k s.log _ h.position in
      let keeps : loaded chip t.log ≡ some page =
        loaded-send chip endpoint (take n bytes) (dummies port n s.log) _ moved
        ∙ loaded-dummies env chip port mem wired paged page n k s.log _ h.holds h.position in
      (
        t,
        ground (
          arith,
          reads,
          transmit_lem endpoint bytes n (after_reading port n s),
          wired,
          inside,
          h.selected,
          h.to_read,
        ),
        record {
          served = rw zero_first (served_slice endpoint port n (mem page) k s.log);
          remaining = refl;
          same_id = refl;
        },
        record {
          selected = h.selected;
          position = moved;
          holds = keeps;
          to_read = refl;
          page_size = h.page_size;
          room = omega (arith, h.room);
        },
      )

  pub buffered_last :
      (k : ℕ) (s : World)
      → IsBuffering chip page (2 ^ j) k env.ep_buffer_size s
      → (t : World) × (perform_read env endpoint s ≡ done (tt, t))
        × IsServed endpoint (slice (mem page) (0 + k) env.ep_buffer_size) 0 s t
        × (t.selected ≡ SpiChip.none)
  unfolding perform_read finish_read spi_select led_set_colour
  buffered_last k s h =
      let n = env.ep_buffer_size in
      let zero_first : 0 + k ≡ k = omega arith in
      let bytes = slice (mem page) k n in
      let u : World = set_read_count 0 (transmitted endpoint bytes n (after_reading port n s)) in
      let t : World = emit (led false true false) (
        with_board u
          (record u.board { log = select_pins SpiChip.none u.log; selected = SpiChip.none })) in
      let reads = read_bytes-page env chip port mem wired paged page n k s h.holds h.position in
      (
        t,
        ground (
          arith,
          reads,
          transmit_lem endpoint bytes n (after_reading port n s),
          wired,
          h.selected,
          h.to_read,
          h.room,
        ),
        record {
          served =
              sent-select endpoint SpiChip.none u.log
              ∙ rw zero_first (served_slice endpoint port n (mem page) k s.log);
          remaining = refl;
          same_id = refl;
        },
        refl,
      )
