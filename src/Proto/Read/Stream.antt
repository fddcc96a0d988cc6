-- ===== src/Proto/Read/Stream.antt =====
-- A whole read of firmware/usb/flashProto.cxx, over a chip that answers the read command.
use spiflash_programmer.Prelude.{
  ℕ, zero, suc, ◌+◌, ◌-◌, ◌*◌, ◌<◌, ◌≡◌, refl, true, false, List, ◌++◌, some, arith, replicate,
  take, ◌∷◌, ==_self, ◌∙◌,
}
use spiflash_programmer.Machine.{World, SpiChip, Ssi, Pointer, write_ep, Event, led}
use spiflash_programmer.Machine.Action.{Env, done, emit, with_board}
use spiflash_programmer.Spi.{spi_device, spi_select, led_set_colour, select_pins}
use spiflash_programmer.Spi.Transaction.{transaction, sent, sent-select}
use spiflash_programmer.Spi.Stream.{
  IsReadable, command, slice, dummies, after_reading, sent-dummies, transaction-dummies,
  read_bytes-slice,
}
use spiflash_programmer.Proto.Common.{set_ep_in, is_w25n, send}
use spiflash_programmer.Proto.Read.{
  transmit, perform_read, set_read_count, finish_read, spi_select, led_set_colour,
}

take_all : (n : ℕ) (mem : ℕ → ℕ) (a : ℕ) → take n (slice mem a n) ≡ slice mem a n
take_all zero mem a = refl
take_all (suc n) mem a = rw (take_all n mem (a + 1))

pub served_slice :
    (endpoint : ℕ) (port : Ssi) (n : ℕ) (mem : ℕ → ℕ) (a : ℕ) (log : List Event)
    → sent endpoint (write_ep endpoint (take n (slice mem a n)) ∷ dummies port n log)
      ≡ sent endpoint log ++ slice mem a n
served_slice endpoint port n mem a log =
    rw (==_self endpoint, take_all n mem a, sent-dummies endpoint port n log)

-- The state after a packet has been handed to the USB core.
abbrev pub transmitted : ℕ → List ℕ → ℕ → World → World
transmitted endpoint response count s = emit (write_ep endpoint (take count response)) (
    set_ep_in endpoint
      (record {
        mem_buffer = Pointer.response;
        transfer_count = count;
        flags = (s.ep_in endpoint).flags;
      })
      (record s { reading = record s.reading { response = response } }))

pub transmit_lem :
    (endpoint : ℕ) (response : List ℕ) (count : ℕ) (s : World)
    → transmit endpoint response count s ≡ done (tt, transmitted endpoint response count s)
unfolding transmit send
transmit_lem endpoint response count s = refl

-- `t` is what serving `bytes` leaves of `s`, with `left` more to come.
pub record IsServed (endpoint : ℕ) (bytes : List ℕ) (left : ℕ) (s t : World) : Type 0 where
  pub served : sent endpoint t.log ≡ sent endpoint s.log ++ bytes
  pub remaining : t.read_count ≡ left
  pub same_id : t.target_id ≡ s.target_id

-- In the middle of a read: the chip has had its address and `k` bytes have been read.
pub record IsStreaming (chip : SpiChip) (a2 a1 a0 k left : ℕ) (s : World) : Type 0 where
  pub selected : s.selected ≡ chip
  pub position : transaction chip s.log ≡ some (replicate k 0 ++ command 0x03 a2 a1 a0)
  pub to_read : s.read_count ≡ left
  pub no_paging : is_w25n s.target_id ≡ false

module _ (env : Env) (endpoint : ℕ) (chip : SpiChip) (port : Ssi) (mem : ℕ → ℕ)
    (wired : spi_device chip ≡ some port) (readable : IsReadable env chip mem)
    (positive : 0 < env.ep_buffer_size) (small : env.ep_buffer_size < 65536) where
  pub perform_read_more :
      (a2 a1 a0 k left : ℕ) (s : World)
      → IsStreaming chip a2 a1 a0 k left s
      → env.ep_buffer_size < left
      → left < 65536
      → (t : World) × (perform_read env endpoint s ≡ done (tt, t))
        × IsServed endpoint
            (slice mem (a2 * 65536 + a1 * 256 + a0 + k) env.ep_buffer_size)
            (left - env.ep_buffer_size)
            s
            t
        × IsStreaming chip a2 a1 a0 (env.ep_buffer_size + k) (left - env.ep_buffer_size) t
  unfolding perform_read
  perform_read_more a2 a1 a0 k left s h more fits =
      let n = env.ep_buffer_size in
      let bytes = slice mem (a2 * 65536 + a1 * 256 + a0 + k) n in
      let t : World =
        set_read_count (left - n) (transmitted endpoint bytes n (after_reading port n s)) in
      let reads = read_bytes-slice env chip port mem wired readable n k a2 a1 a0 s h.position in
      (
        t,
        ground (arith, reads, transmit_lem endpoint bytes n (after_reading port n s), wired),
        record {
          served = served_slice endpoint port n mem (a2 * 65536 + a1 * 256 + a0 + k) s.log;
          remaining = refl;
          same_id = refl;
        },
        record {
          selected = h.selected;
          position = transaction-dummies chip port wired n k s.log _ h.position;
          to_read = refl;
          no_paging = h.no_paging;
        },
      )

  pub perform_read_last :
      (a2 a1 a0 k : ℕ) (s : World)
      → IsStreaming chip a2 a1 a0 k env.ep_buffer_size s
      → (t : World) × (perform_read env endpoint s ≡ done (tt, t))
        × IsServed endpoint (slice mem (a2 * 65536 + a1 * 256 + a0 + k) env.ep_buffer_size) 0 s t
        × (t.selected ≡ SpiChip.none)
  unfolding perform_read finish_read spi_select led_set_colour
  perform_read_last a2 a1 a0 k s h =
      let n = env.ep_buffer_size in
      let bytes = slice mem (a2 * 65536 + a1 * 256 + a0 + k) n in
      let u : World = set_read_count 0 (transmitted endpoint bytes n (after_reading port n s)) in
      let t : World = emit (led false true false) (
        with_board u
          (record u.board { log = select_pins SpiChip.none u.log; selected = SpiChip.none })) in
      let reads = read_bytes-slice env chip port mem wired readable n k a2 a1 a0 s h.position in
      (
        t,
        ground (arith, reads, transmit_lem endpoint bytes n (after_reading port n s), wired),
        record {
          served =
              sent-select endpoint SpiChip.none u.log
              ∙ served_slice endpoint port n mem (a2 * 65536 + a1 * 256 + a0 + k) s.log;
          remaining = refl;
          same_id = refl;
        },
        refl,
      )
