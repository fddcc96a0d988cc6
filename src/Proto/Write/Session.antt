-- ===== src/Proto/Write/Session.antt =====
-- The last packet of a write to a page, and all the packets put together:
-- firmware/usb/flashProto.cxx.
use spiflash_programmer.Prelude.{
  ℕ, zero, suc, ◌+◌, ◌-◌, ◌<◌, ◌≤◌, ◌≡◌, refl, true, false, List, [], ◌∷◌, some, u8, arith, bit_and,
  min, sub32, length, subst, ==_self,
}
use spiflash_programmer.Machine.{World, SpiChip, Ssi, Event, led, read_ep, write_ep, flush_write_ep}
use spiflash_programmer.Machine.Action.{Env, done, with_board, emit}
use spiflash_programmer.Spi.{spi_device, spi_select, select_pins, led_set_colour}
use spiflash_programmer.Spi.Transaction.{transaction}
use spiflash_programmer.Proto.Common.{is_busy, is_large, is_w25n, wait_ready}
use spiflash_programmer.Proto.Erase.Range.{polled, is_busy_ready}
use spiflash_programmer.Proto.Write.{perform_write, finish_page, set_write_count}
use spiflash_programmer.Proto.Write.Packets.{
  Holds, put, logged, write_bytes_lem, received, receive_lem, IsFeeding, IsWriting,
}

-- What the chips see of a log: the events of the pins and of the controllers.
abbrev pub bus_events : List Event → List Event
bus_events [] = []
bus_events (read_ep endpoint ∷ log) = bus_events log
bus_events (write_ep endpoint bytes ∷ log) = bus_events log
bus_events (flush_write_ep endpoint ∷ log) = bus_events log
bus_events (led r g b ∷ log) = bus_events log
bus_events (e ∷ log) = e ∷ bus_events log

pub bus_events-put :
    (port : Ssi) (payload : List ℕ) (n idx : ℕ) (log : List Event)
    → bus_events (put port payload n idx log) ≡ put port payload n idx (bus_events log)
bus_events-put port payload zero idx log = refl
bus_events-put port payload (suc n) idx log = bus_events-put port payload n (idx + 1) _

pub bus_events-select :
    (chip : SpiChip) (log : List Event)
    → bus_events (select_pins chip log) ≡ select_pins chip (bus_events log)
unfolding select_pins
bus_events-select SpiChip.local1 log = refl
bus_events-select SpiChip.local2 log = refl
bus_events-select SpiChip.target log = refl
bus_events-select SpiChip.none log = refl

pub put-put :
    (port : Ssi) (payload : List ℕ) (a b idx : ℕ) (log : List Event)
    → put port payload b (idx + a) (put port payload a idx log) ≡ put port payload (a + b) idx log
put-put port payload zero b idx log =
    let e : idx + 0 ≡ idx = omega arith in let f : 0 + b ≡ b = omega arith in rw (e, f)
put-put port payload (suc a) b idx log =
    let e : idx + suc a ≡ idx + 1 + a = omega arith in
    let f : suc a + b ≡ suc (a + b) = omega arith in
    rw (e, f) (put-put port payload a b (idx + 1) _)

-- A chip that is not busy ends the wait.
pub wait_ready_lem :
    (env : Env) (polls : ℕ) (s t : World)
    → 0 < polls
    → is_busy env s ≡ done (false, t)
    → wait_ready env polls s ≡ done (tt, t)
unfolding wait_ready
wait_ready_lem env zero s t p e = absurd (omega arith)
wait_ready_lem env (suc polls) s t p e = ground (arith, e)

module _ (env : Env) (endpoint : ℕ) (chip : SpiChip) (port : Ssi) (payload : List ℕ) (packet : ℕ)
    (wired : spi_device chip ≡ some port) (feeding : IsFeeding env payload packet)
    (positive : 0 < packet) (bounded : length payload < 65536) (waits : 0 < env.polls)
    (ready : (log : List Event)
      → transaction chip log ≡ some (0 ∷ 0x05 ∷ [])
      → bit_and (u8 (env.reply log)) 1 ≡ 0) where
  -- The world once the last `left` bytes have been written.
  abbrev pub all_written : ℕ → ℕ → World → World
  all_written n left s =
      let t : World = received env endpoint s in
      let u : World = set_write_count 0 (logged (put port payload left n t.log) t) in
      let v : World =
        with_board u
          (record u.board { log = select_pins SpiChip.none u.log; selected = SpiChip.none }) in
      emit (led false true false) (polled env chip port wired ready v)

  pub perform_write_last :
      (n left : ℕ) (s : World)
      → IsWriting endpoint chip payload n left s
      → 0 < left
      → left ≤ packet
      → is_large s ≡ false
      → is_w25n s.target_id ≡ false
      → s.verify_write ≡ false
      → perform_write env endpoint s ≡ done (tt, all_written n left s)
  unfolding perform_write finish_page spi_select led_set_colour
  perform_write_last n left s h some_left last is_small no_nand unverified =
      let t : World = received env endpoint s in
      let u : World = set_write_count 0 (logged (put port payload left n t.log) t) in
      let v : World =
        with_board u
          (record u.board { log = select_pins SpiChip.none u.log; selected = SpiChip.none }) in
      let count = feeding.counts s.log (s.ep_out endpoint) s.flash_buffer in
      let self = ==_self endpoint in
      let came : (t.ep_out endpoint).transfer_count ≡ 0 =
        rw self (omega (arith, count, h.to_come)) in
      let all_bytes = h.all_bytes in
      let whole : min packet (s.ep_out endpoint).transfer_count ≡ left = omega (arith, h.to_come) in
      let kept : Holds payload (n + left) t.flash_buffer =
        subst (λ m. Holds payload (n + m) t.flash_buffer) whole
          (feeding.stores s.log (s.ep_out endpoint) s.flash_buffer n (omega (arith, h.to_come))
            h.pointer h.held) in
      let writes = write_bytes_lem port payload t.flash_buffer left n t kept in
      let begin : sub32 s.write_total s.write_count ≡ n = omega (arith, h.total, h.to_write) in
      let end : sub32 s.write_total 0 ≡ n + left = omega (arith, h.total) in
      let step : sub32 s.write_count left ≡ 0 = omega (arith, h.to_write) in
      let off : n + left - n ≡ left = omega arith in
      let waited =
        wait_ready_lem env env.polls v (polled env chip port wired ready v) waits
          (is_busy_ready env chip port wired ready v h.targeted no_nand) in
      ground (
        arith,
        h.selected,
        h.total,
        h.to_write,
        wired,
        receive_lem env endpoint s,
        came,
        writes,
        begin,
        end,
        step,
        off,
        waited,
      )
