-- ===== src/Proto/Read/Tables.antt =====
-- The SFDP reads of firmware/usb/flashProto.cxx, from the host's request to the last packet, over a
-- chip that describes itself.
use spiflash_programmer.Prelude.{
  ℕ, zero, suc, ◌+◌, ◌-◌, ◌*◌, ◌^◌, ◌<◌, ◌≤◌, ◌≡◌, refl, true, false, List, ◌++◌, ◌∷◌, some, arith,
  ◌∙◌, ap, replicate, take, drop, ==_self, u8, ◌>>>◌, sym, Bool-cases, ltb, ltb→lt, inl, inr,
}
use spiflash_programmer.Machine.{World, SpiChip, Ssi, sfdp, led, transfer}
use spiflash_programmer.Machine.Action.{Env, done, Action, pure, ◌>>◌, emit, with_board}
use spiflash_programmer.Spi.{spi_device, spi_select, spi_write, led_set_colour, select_pins}
use spiflash_programmer.Spi.Transaction.{transaction, transaction-transfer, sent, sent-select}
use spiflash_programmer.Spi.Stream.{
  IsSelfDescribing, command, slice, after_reading, sent-dummies, transaction-dummies,
  read_bytes-tables,
}
use spiflash_programmer.Proto.Read.{
  perform_data_or_sfdp_read, perform_sfdp_read, set_read_count, finish_read, handle_sfdp_read,
  is_none,
}
use spiflash_programmer.Proto.Read.Stream.{transmitted, transmit_lem}
use spiflash_programmer.Proto.Read.Session.{slice-append, wired-present}
use spiflash_programmer.Proto.Read.Begin.{
  addressed, transaction-addressed, sent-addressed, address_bytes,
}
use spiflash_programmer.Proto.Common.{write_address24}
use mathlib.Core.List.{append_assoc}

-- The USB core calls for `m` packets, one after the other.
pub data_packets : Env → ℕ → ℕ → Action (Unit {0})
data_packets env endpoint zero = pure tt
data_packets env endpoint (suc m) = do
  perform_data_or_sfdp_read env endpoint
  data_packets env endpoint m

-- In the middle of an SFDP read: the chip has had its address and `k` bytes have been read.
record IsDescribing (chip : SpiChip) (a2 a1 a0 k left : ℕ) (s : World) : Type 0 where
  selected : s.selected ≡ chip
  position : transaction chip s.log ≡ some (replicate k 0 ++ 0 ∷ command 0x5a a2 a1 a0)
  to_read : s.read_count ≡ left
  mode : s.read_mode ≡ sfdp

take-slice :
    (n : ℕ) (mem : ℕ → ℕ) (a : ℕ) (rest : List ℕ) → take n (slice mem a n ++ rest) ≡ slice mem a n
take-slice zero mem a rest = refl
take-slice (suc n) mem a rest = rw (take-slice n mem (a + 1) rest)

-- Once all has been sent, a packet does nothing.
packets_idle :
    (env : Env) (endpoint m : ℕ) (s : World)
    → s.read_count ≡ 0
    → s.read_mode ≡ sfdp
    → data_packets env endpoint m s ≡ done (tt, s)
unfolding data_packets perform_data_or_sfdp_read perform_sfdp_read
packets_idle env endpoint zero s e mode = refl
packets_idle env endpoint (suc m) s e mode = ground (arith, packets_idle env endpoint m s e mode)

module _ (env : Env) (endpoint : ℕ) (chip : SpiChip) (port : Ssi) (tables : ℕ → ℕ)
    (wired : spi_device chip ≡ some port) (describing : IsSelfDescribing env chip tables)
    (positive : 0 < env.ep_buffer_size) (small : env.ep_buffer_size < 65536) where
  -- A packet that is not the last one is full.
  full_packet :
      (a2 a1 a0 k left : ℕ) (s : World)
      → IsDescribing chip a2 a1 a0 k left s
      → env.ep_buffer_size < left
      → left < 65536
      → (t : World) × (perform_data_or_sfdp_read env endpoint s ≡ done (tt, t))
        × (sent endpoint t.log
            ≡ sent endpoint s.log
              ++ slice tables (a2 * 65536 + a1 * 256 + a0 + k) env.ep_buffer_size)
        × IsDescribing chip a2 a1 a0 (env.ep_buffer_size + k) (left - env.ep_buffer_size) t
  unfolding perform_data_or_sfdp_read perform_sfdp_read
  full_packet a2 a1 a0 k left s h more fits =
      let n = env.ep_buffer_size in
      let a : ℕ = a2 * 65536 + a1 * 256 + a0 + k in
      let response : List ℕ = slice tables a n ++ drop n s.response in
      let t : World =
        set_read_count (left - n) (transmitted endpoint response n (after_reading port n s)) in
      let reads =
        read_bytes-tables env chip port tables wired describing n k a2 a1 a0 s h.position in
      (
        t,
        ground (arith, reads, transmit_lem endpoint response n (after_reading port n s), wired),
        rw (
          ==_self endpoint,
          take-slice n tables a (drop n s.response),
          sent-dummies endpoint port n s.log,
        ),
        record {
          selected = h.selected;
          position = transaction-dummies chip port wired n k s.log _ h.position;
          to_read = refl;
          mode = h.mode;
        },
      )

  -- The last packet has what is left, and releases the chip.
  last_packet :
      (a2 a1 a0 k left : ℕ) (s : World)
      → IsDescribing chip a2 a1 a0 k left s
      → 0 < left
      → left ≤ env.ep_buffer_size
      → (t : World) × (perform_data_or_sfdp_read env endpoint s ≡ done (tt, t))
        × (sent endpoint t.log
            ≡ sent endpoint s.log ++ slice tables (a2 * 65536 + a1 * 256 + a0 + k) left)
        × (t.read_count ≡ 0)
        × (t.read_mode ≡ sfdp)
        × (t.selected ≡ SpiChip.none)
  unfolding perform_data_or_sfdp_read perform_sfdp_read finish_read spi_select led_set_colour
  last_packet a2 a1 a0 k left s h some_left last =
      let a : ℕ = a2 * 65536 + a1 * 256 + a0 + k in
      let response : List ℕ = slice tables a left ++ drop left s.response in
      let u : World =
        set_read_count 0 (transmitted endpoint response left (after_reading port left s)) in
      let t : World = emit (led false true false) (
        with_board u
          (record u.board { log = select_pins SpiChip.none u.log; selected = SpiChip.none })) in
      let reads =
        read_bytes-tables env chip port tables wired describing left k a2 a1 a0 s h.position in
      let same : sent endpoint u.log ≡ sent endpoint s.log ++ slice tables a left = rw (
        ==_self endpoint,
        take-slice left tables a (drop left s.response),
        sent-dummies endpoint port left s.log,
      ) in
      (
        t,
        ground
            (arith, reads, transmit_lem endpoint response left (after_reading port left s), wired),
        sent-select endpoint SpiChip.none u.log ∙ same,
        refl,
        h.mode,
        refl,
      )

  tables_serve :
      (m a2 a1 a0 k left : ℕ) (s : World)
      → IsDescribing chip a2 a1 a0 k left s
      → 0 < left
      → left ≤ suc m * env.ep_buffer_size
      → left < 65536
      → (t : World) × (data_packets env endpoint (suc m) s ≡ done (tt, t))
        × (sent endpoint t.log
            ≡ sent endpoint s.log ++ slice tables (a2 * 65536 + a1 * 256 + a0 + k) left)
        × (t.read_count ≡ 0)
        × (t.selected ≡ SpiChip.none)
  unfolding data_packets
  tables_serve zero a2 a1 a0 k left s h some_left enough fits =
      let (t, runs, sends, none_left, mode, off) =
        last_packet a2 a1 a0 k left s h some_left (omega arith) in
      (t, ground (arith, runs), sends, none_left, off)
  tables_serve (suc m) a2 a1 a0 k left s h some_left enough fits =
      let n = env.ep_buffer_size in
      let a : ℕ = a2 * 65536 + a1 * 256 + a0 + k in
      elim (Bool-cases (ltb n left)) [
        | inl more ↦
            let full = ltb→lt n left more in
            let (t, runs, sends, on) = full_packet a2 a1 a0 k left s h full fits in
            let total : suc (suc m) * n ≡ n + suc m * n = grind arith in
            let (u, runs', sends', none_left, off) =
              tables_serve m a2 a1 a0 (n + k) (left - n) t on (omega arith) (omega (arith, total))
                (omega arith) in
            let place : a2 * 65536 + a1 * 256 + a0 + (n + k) ≡ a + n = omega arith in
            let whole : n + (left - n) ≡ left = omega arith in
            let join : slice tables a n
                  ++ slice tables (a2 * 65536 + a1 * 256 + a0 + (n + k)) (left - n)
                ≡ slice tables a left =
              rw place (sym (slice-append tables a n (left - n)) ∙ ap (slice tables a) whole) in
            (
              u,
              ground (arith, runs, runs'),
              sends'
                  ∙ ap
                      (λ (l : List ℕ).
                        l ++ slice tables (a2 * 65536 + a1 * 256 + a0 + (n + k)) (left - n))
                      sends
                  ∙ append_assoc (sent endpoint s.log) _ _
                  ∙ ap (λ (l : List ℕ). sent endpoint s.log ++ l) join,
              none_left,
              off,
            )
        | inr less ↦
            let (t, runs, sends, none_left, mode, off) =
              last_packet a2 a1 a0 k left s h some_left (ground arith) in
            let idle = packets_idle env endpoint (suc m) t none_left mode in
            (t, ground (arith, runs, idle), sends, none_left, off)
      ]

  -- The data stage's callback and the `m` packets after it send the host the bytes of the chip's
  -- tables from the address on, as many as were asked for, if these fit into `suc m` packets.
  pub tables_session :
      (m : ℕ) (s : World)
      → s.read_endpoint ≡ endpoint
      → s.target_device ≡ chip
      → s.sfdp_address < 2 ^ 24
      → 0 < s.read_count
      → s.read_count ≤ suc m * env.ep_buffer_size
      → s.read_count < 65536
      → (t : World) × ((handle_sfdp_read env >> data_packets env endpoint m) s ≡ done (tt, t))
        × (sent endpoint t.log ≡ sent endpoint s.log ++ slice tables s.sfdp_address s.read_count)
        × (t.read_count ≡ 0)
        × (t.selected ≡ SpiChip.none)
  unfolding handle_sfdp_read data_packets perform_data_or_sfdp_read write_address24 spi_select
      spi_write
  tables_session m s ep on_chip in_reach some_bytes enough fits =
      let addr : ℕ = s.sfdp_address in
      let s1 : World = record s { reading = record s.reading { read_mode = sfdp } } in
      let s2 : World = emit (transfer port 0) (addressed chip port 0x5a addr s1) in
      let describes : IsDescribing chip (u8 (addr >>> 16)) (u8 (addr >>> 8)) (u8 addr) 0
          s.read_count s2 =
        record {
          selected = refl;
          position =
              transaction-transfer chip port 0 (addressed chip port 0x5a addr s1).log _ wired
                (transaction-addressed chip port wired 0x5a addr s1);
          to_read = refl;
          mode = refl;
        } in
      let (t, runs, sends, none_left, off) =
        tables_serve m _ _ _ 0 s.read_count s2 describes some_bytes enough fits in
      let present : is_none s.target_device ≡ false = rw on_chip (wired-present chip port wired) in
      let place : u8 (addr >>> 16) * 65536 + u8 (addr >>> 8) * 256 + u8 addr + 0 ≡ addr =
        omega (arith, address_bytes addr) in
      (
        t,
        ground (arith, runs, present, wired),
        cc (sends, sent-addressed chip port endpoint 0x5a addr s1, place),
        none_left,
        off,
      )
