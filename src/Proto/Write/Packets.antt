-- ===== src/Proto/Write/Packets.antt =====
-- Writing a page, from the data stage to the last packet: firmware/usb/flashProto.cxx.
use native.Mathlib.Nat.{one-le-pow}
use spiflash_programmer.Prelude.{
  ℕ, ◌∙◌, ap, zero, suc, ◌+◌, ◌-◌, ◌^◌, ◌%◌, ◌<◌, ◌≡◌, refl, List, ◌∷◌, some, arith, bit_and, min,
  sub32, false, ◌==◌, bit_and_mask, get_elem?, length, byte_at, ==_self, subst,
}
use spiflash_programmer.Machine.{World, SpiChip, Ssi, Event, transfer, EpStatus, Pointer, read_ep}
use spiflash_programmer.Machine.Action.{Env, done, with_board, emit}
use spiflash_programmer.Spi.{spi_device, spi_write}
use spiflash_programmer.Proto.Common.{set_ep_out}
use spiflash_programmer.Proto.Write.{
  receive, write_bytes, perform_write, set_write_count, page_mask,
}

-- `idx & (size - 1)` for a page of 2 ^ k bytes.
pub mask-mod : (k idx : ℕ) → 2 ^ k < 65536 → bit_and idx (sub32 (2 ^ k) 1) ≡ idx % 2 ^ k
mask-mod k idx fits =
    let e : sub32 (2 ^ k) 1 ≡ 2 ^ k - 1 = omega (arith, one-le-pow k 2 (omega arith)) in
    rw e (bit_and_mask k idx)

-- The first `n` bytes of the buffer are those of the host's data.
abbrev pub Holds : List ℕ → ℕ → List ℕ → Type 0
Holds payload n buffer = (i : ℕ) → i < n → get_elem? buffer i ≡ some (byte_at payload i)

-- The bytes from `idx` on as transfers, on top of a log.
abbrev pub put : Ssi → List ℕ → ℕ → ℕ → List Event → List Event
put port payload zero idx log = log
put port payload (suc n) idx log =
    put port payload n (idx + 1) (transfer port (byte_at payload idx) ∷ log)

abbrev pub logged : List Event → World → World
logged log s = with_board s (record s.board { log = log })

pub write_bytes_lem :
    (port : Ssi) (payload buffer : List ℕ) (n idx : ℕ) (s : World)
    → Holds payload (idx + n) buffer
    → write_bytes port buffer n idx s ≡ done (tt, logged (put port payload n idx s.log) s)
unfolding write_bytes spi_write
write_bytes_lem port payload buffer zero idx s h = refl
write_bytes_lem port payload buffer (suc n) idx s h =
    let e : idx + suc n ≡ idx + 1 + n = omega arith in
    let byte = h idx (omega arith) in
    let rest =
      write_bytes_lem port payload buffer n (idx + 1)
        (logged (transfer port (byte_at payload idx) ∷ s.log) s) (λ i small. h i (omega arith)) in
    ground (arith, byte, rest)

-- The world after `readEP`.
abbrev pub received : Env → ℕ → World → World
received env endpoint s =
    let result = env.read_ep s.log (s.ep_out endpoint) s.flash_buffer in
    emit (read_ep endpoint) (
      set_ep_out endpoint result.0
        (record s { writing = record s.writing { flash_buffer = result.1 } }))

pub receive_lem :
    (env : Env) (endpoint : ℕ) (s : World)
    → receive env endpoint s ≡ done (tt, received env endpoint s)
unfolding receive
receive_lem env endpoint s = refl

-- The USB core's `readEP` for packets of at most `packet` bytes of the host's data: it moves the
-- next packet to where the endpoint points, and counts it off.
pub record IsFeeding (env : Env) (payload : List ℕ) (packet : ℕ) : Type 0 where
  pub counts :
      (log : List Event) (e : EpStatus) (buffer : List ℕ)
      → ((env.read_ep log e buffer).0).transfer_count ≡ e.transfer_count - packet
  pub stores :
      (log : List Event) (e : EpStatus) (buffer : List ℕ) (n : ℕ)
      → n + e.transfer_count ≡ length payload
      → e.mem_buffer ≡ Pointer.flash_buffer n
      → Holds payload n buffer
      → Holds payload (n + min packet e.transfer_count) (env.read_ep log e buffer).1
  pub moves :
      (log : List Event) (e : EpStatus) (buffer : List ℕ) (n : ℕ)
      → e.mem_buffer ≡ Pointer.flash_buffer n
      → ((env.read_ep log e buffer).0).mem_buffer
        ≡ Pointer.flash_buffer (n + min packet e.transfer_count)

-- In the middle of a write of `payload`: `n` bytes have been written and `left` are to come.
pub record IsWriting (endpoint : ℕ) (chip : SpiChip) (payload : List ℕ) (n left : ℕ) (s : World)
    : Type 0 where
  pub selected : s.selected ≡ chip
  pub targeted : s.target_device ≡ chip
  pub all_bytes : n + left ≡ length payload
  pub total : s.write_total ≡ length payload
  pub to_write : s.write_count ≡ left
  pub to_come : (s.ep_out endpoint).transfer_count ≡ left
  pub pointer : (s.ep_out endpoint).mem_buffer ≡ Pointer.flash_buffer n
  pub held : Holds payload n s.flash_buffer

module _ (env : Env) (endpoint : ℕ) (chip : SpiChip) (port : Ssi) (payload : List ℕ) (packet : ℕ)
    (wired : spi_device chip ≡ some port) (feeding : IsFeeding env payload packet)
    (positive : 0 < packet) (bounded : length payload < 65536) where
  -- The world after a packet of `m` bytes that is not the last one.
  abbrev pub packet_written : ℕ → ℕ → World → World
  packet_written n left s =
      let t : World = received env endpoint s in
      set_write_count (left - packet) (logged (put port payload packet n t.log) t)

  pub perform_write_more :
      (n left : ℕ) (s : World)
      → IsWriting endpoint chip payload n left s
      → (bit_and (n + packet) (page_mask s) == 0) ≡ false
      → packet < left
      → perform_write env endpoint s ≡ done (tt, packet_written n left s)
  unfolding perform_write
  perform_write_more n left s h inside more =
      let t : World = received env endpoint s in
      let count = feeding.counts s.log (s.ep_out endpoint) s.flash_buffer in
      let self = ==_self endpoint in
      let came : (t.ep_out endpoint).transfer_count ≡ left - packet =
        rw self (omega (arith, count, h.to_come)) in
      let all_bytes = h.all_bytes in
      let whole : min packet (s.ep_out endpoint).transfer_count ≡ packet =
        omega (arith, h.to_come) in
      let kept : Holds payload (n + packet) t.flash_buffer =
        subst (λ m. Holds payload (n + m) t.flash_buffer) whole
          (feeding.stores s.log (s.ep_out endpoint) s.flash_buffer n (omega (arith, h.to_come))
            h.pointer h.held) in
      let writes = write_bytes_lem port payload t.flash_buffer packet n t kept in
      let begin : sub32 s.write_total s.write_count ≡ n = omega (arith, h.total, h.to_write) in
      let end : sub32 s.write_total (left - packet) ≡ n + packet = omega (arith, h.total) in
      let step : sub32 s.write_count packet ≡ left - packet = omega (arith, h.to_write) in
      let off : n + packet - n ≡ packet = omega arith in
      ground (
        arith,
        h.selected,
        h.total,
        h.to_write,
        wired,
        receive_lem env endpoint s,
        came,
        writes,
        begin,
        end,
        inside,
        step,
        off,
      )

  pub packet_written-IsWriting :
      (n left : ℕ) (s : World)
      → IsWriting endpoint chip payload n left s
      → packet < left
      → IsWriting endpoint chip payload (n + packet) (left - packet) (packet_written n left s)
  packet_written-IsWriting n left s h more =
      let count = feeding.counts s.log (s.ep_out endpoint) s.flash_buffer in
      let self = ==_self endpoint in
      let whole : min packet (s.ep_out endpoint).transfer_count ≡ packet =
        omega (arith, h.to_come) in
      record {
        selected = h.selected;
        targeted = h.targeted;
        all_bytes = omega (arith, h.all_bytes);
        total = h.total;
        to_write = refl;
        to_come = rw self (omega (arith, count, h.to_come));
        pointer = rw self (
            feeding.moves s.log (s.ep_out endpoint) s.flash_buffer n h.pointer
            ∙ ap (λ m. Pointer.flash_buffer (n + m)) whole);
        held =
            subst (λ m. Holds payload (n + m) (received env endpoint s).flash_buffer) whole
              (feeding.stores s.log (s.ep_out endpoint) s.flash_buffer n
                (omega (arith, h.to_come, h.all_bytes)) h.pointer h.held);
      }
