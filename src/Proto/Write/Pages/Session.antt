-- ===== src/Proto/Write/Pages/Session.antt =====
-- A whole write over several pages: firmware/usb/flashProto.cxx from the data stage to the end.
use spiflash_programmer.Prelude.{
  ℕ, zero, suc, ◌+◌, ◌-◌, ◌*◌, ◌^◌, ◌<◌, ◌≤◌, ◌≡◌, refl, false, List, [], ◌∷◌, some, u8, u16, arith,
  bit_and, length, ◌∙◌, sym, ap, subst, ==_self, ltb, Bool-cases, inl, inr,
}
use spiflash_programmer.Protocol.Page.{page_value}
use spiflash_programmer.Machine.{World, SpiChip, Ssi, Event, Pointer}
use spiflash_programmer.Machine.Action.{Env, done, ◌>>◌}
use spiflash_programmer.Spi.{spi_device, select_pins}
use spiflash_programmer.Spi.Transaction.{transaction}
use spiflash_programmer.Proto.Common.{is_large, is_w25n, page_address, set_ep}
use spiflash_programmer.Proto.Erase.Range.{poll_events}
use spiflash_programmer.Proto.Write.{perform_write, handle_write}
use spiflash_programmer.Proto.Write.Packets.{put, IsFeeding, received}
use spiflash_programmer.Proto.Write.Session.{
  bus_events, bus_events-put, bus_events-select, perform_write_last, all_written,
}
use spiflash_programmer.Proto.Write.Program.{
  out_packets, program_events, bus_events-poll, bus_events-program,
}
use spiflash_programmer.Proto.Write.Verified.{page_value-next}
use spiflash_programmer.Proto.Write.Pages.{
  page_stream, page_stream-append, page_stream-put, programmed, write_address_lem, double_le,
  no_turn,
}
use spiflash_programmer.Proto.Write.Pages.Turn.{IsPaging, packet_inside, packet_turning}

module _ (env : Env) (endpoint : ℕ) (chip : SpiChip) (port : Ssi) (payload : List ℕ)
    (packet k q page : ℕ) (wired : spi_device chip ≡ some port)
    (feeding : IsFeeding env payload packet) (positive : 0 < packet)
    (bounded : length payload < 65536) (waits : 0 < env.polls)
    (ready : (log : List Event)
      → transaction chip log ≡ some (0 ∷ 0x05 ∷ [])
      → bit_and (u8 (env.reply log)) 1 ≡ 0)
    (fits : 2 ^ k < 65536) (wide : 1 < 2 ^ k) (whole_packets : 2 ^ k ≡ q * packet)
    (in_chip : page * 2 ^ k + length payload ≤ 2 ^ 24) where
  abbrev stream : ℕ → ℕ → List Event → List Event
  stream = page_stream chip port payload (page * 2 ^ k) (2 ^ k)

  -- Either way, the next packet finds the same.
  packet_step :
      (g c n left : ℕ) (s : World)
      → IsPaging endpoint chip payload packet k page g (suc c) n left s
      → packet < left
      → (t : World) × (g' : ℕ) × (c' : ℕ) × (perform_write env endpoint s ≡ done (tt, t))
        × IsPaging endpoint chip payload packet k page g' (suc c') (n + packet) (left - packet) t
        × (bus_events t.log ≡ stream packet n (bus_events s.log))
  packet_step g zero n left s h more =
      let (t, runs, keeps, events) =
        packet_turning env endpoint chip port payload packet k q page wired feeding positive bounded
          waits ready fits wide whole_packets in_chip g n left s h more in
      let some_packets : suc (q - 1) ≡ q = grind arith in
      (
        t,
        suc g,
        q - 1,
        runs,
        subst
            (λ c.
              IsPaging endpoint chip payload packet k page (suc g) c (n + packet) (left - packet) t)
            (sym some_packets) keeps,
        events,
      )
  packet_step g (suc c) n left s h more =
      let (t, runs, keeps, events) =
        packet_inside env endpoint chip port payload packet k q page wired feeding positive bounded
          waits ready fits wide whole_packets in_chip g c n left s h more in
      (t, g, c, runs, keeps, events)

  -- The bytes of the last packet follow one another.
  stream-last :
      (g c n left : ℕ) (s : World) (log : List Event)
      → IsPaging endpoint chip payload packet k page g (suc c) n left s
      → left ≤ packet
      → stream left n log ≡ put port payload left n log
  stream-last g c n left s log h last =
      let d : ℕ = 2 ^ k in
      let next : suc g * d ≡ g * d + d = grind arith in
      let split : suc c * packet ≡ packet + c * packet = grind arith in
      let turn = h.turn in
      let room = h.room in
      let all_bytes = h.writing.all_bytes in
      page_stream-put chip port payload (page * 2 ^ k) d left n log λ i short.
        elim (Bool-cases (ltb (i + 1) left)) [
          | inl before ↦
              let on =
                no_turn d g n (suc c * packet) i (omega (arith, turn, next)) room
                  (ground (arith, before, split, last)) in
              rw on refl
          | inr ending ↦ ground (arith, ending, short, all_bytes)
        ]

  pages_packets :
      (m g c n left : ℕ) (s : World)
      → IsPaging endpoint chip payload packet k page g (suc c) n left s
      → m * packet < left
      → left ≤ suc m * packet
      → (t : World) × (out_packets env endpoint (suc m) s ≡ done (tt, t))
        × (bus_events t.log
            ≡ poll_events chip port (select_pins SpiChip.none (stream left n (bus_events s.log))))
        × (t.write_count ≡ 0)
        × (t.selected ≡ SpiChip.none)
  unfolding out_packets
  pages_packets zero g c n left s h lower upper =
      let last =
        perform_write_last env endpoint chip port payload packet wired feeding positive bounded
          waits ready n left s h.writing (omega arith) (omega arith) h.is_small h.no_nand
          h.unverified in
      (
        all_written env endpoint chip port payload packet wired feeding positive bounded waits ready
            n left s,
        ground (arith, last),
        bus_events-poll chip port _
            ∙ ap (poll_events chip port) (
                bus_events-select SpiChip.none _
                ∙ ap (select_pins SpiChip.none) (
                    bus_events-put port payload left n (received env endpoint s).log
                    ∙ sym (stream-last g c n left s (bus_events s.log) h (omega arith)))),
        refl,
        refl,
      )
  pages_packets (suc m) g c n left s h lower upper =
      let more : packet < left = grind arith in
      let (t, g', c', one, keeps, events) = packet_step g c n left s h more in
      let e1 : suc m * packet ≡ packet + m * packet = grind arith in
      let e2 : suc (suc m) * packet ≡ packet + suc m * packet = grind arith in
      let (u, runs, events', stopped, off) =
        pages_packets m g' c' (n + packet) (left - packet) t keeps (omega (arith, e1))
          (omega (arith, e2)) in
      let sum : packet + (left - packet) ≡ left = omega arith in
      let joined : stream (left - packet) (n + packet) (bus_events t.log)
          ≡ stream left n (bus_events s.log) =
        ap (stream (left - packet) (n + packet)) events
        ∙ sym (
            page_stream-append chip port payload (page * 2 ^ k) (2 ^ k) packet (left - packet) n
              (bus_events s.log))
        ∙ ap (λ x. stream x n (bus_events s.log)) sum in
      (
        u,
        ground (arith, one, runs),
        events' ∙ ap (λ l. poll_events chip port (select_pins SpiChip.none l)) joined,
        stopped,
        off,
      )

  -- A write of up to 64 KiB from the start of a page on, within a chip of at most 2 ^ 24 bytes that
  -- reports ready, unverified, in packets of which whole ones make up a page: the data stage's callback
  -- and the packets give the bus the write enable and the program command with the first page's address,
  -- and then the host's bytes, in order, each once; where a byte ends a page and more are to come, the
  -- chip is released and polled, and write enable and program command follow for the next page. After
  -- the last byte the chip is released and polled. Nothing is left to write, and no chip is selected.
  pub write_pages_session :
      (m : ℕ) (s : World)
      → s.write_endpoint ≡ endpoint
      → s.target_device ≡ chip
      → page_value s.write_page ≡ page
      → s.write_count ≡ length payload
      → s.write_total ≡ length payload
      → m * packet < length payload
      → length payload ≤ suc m * packet
      → page_value s.target_params.flash_page_size ≡ 2 ^ k
      → is_large s ≡ false
      → is_w25n s.target_id ≡ false
      → s.verify_write ≡ false
      → (t : World) × ((handle_write >> out_packets env endpoint (suc m)) s ≡ done (tt, t))
        × (bus_events t.log
            ≡ poll_events chip port (
                select_pins SpiChip.none (
                  stream
                    (length payload)
                    0
                    (program_events chip port (page * 2 ^ k) (bus_events s.log)))))
        × (t.write_count ≡ 0)
        × (t.selected ≡ SpiChip.none)
  unfolding handle_write
  write_pages_session m s ep on_chip on_page count total lower upper size is_small no_nand
        unverified =
      let d : ℕ = 2 ^ k in
      let s1 : World = record s { writing = record s.writing { verify_page = s.write_page } } in
      let addr : page_address s s.write_page ≡ page * d =
        rw (on_page, size) (omega (arith, in_chip)) in
      let s2 : World = programmed chip port (page_address s s.write_page) s1 in
      let s' : World = record s2 {
        ep_out = set_ep s.ep_out s.write_endpoint (record {
          mem_buffer = Pointer.flash_buffer 0;
          transfer_count = u16 s.write_count;
          flags = (s.ep_out s.write_endpoint).flags;
        });
      } in
      let begins = write_address_lem chip port s1 wired on_chip is_small in
      let self = ==_self endpoint in
      let few : page + 1 < 2 ^ 24 = omega (arith, double_le page d wide, in_chip) in
      let some_packets : suc (q - 1) ≡ q = grind arith in
      let one : 1 * d ≡ d = omega arith in
      let paging : IsPaging endpoint chip payload packet k page 0 q 0 (length payload) s' = record {
        writing = record {
          selected = refl;
          targeted = on_chip;
          all_bytes = omega arith;
          total = total;
          to_write = count;
          to_come = rw (ep, self) (omega (arith, count));
          pointer = rw (ep, self) refl;
          held = λ i small. absurd (omega arith);
        };
        turn = omega (arith, whole_packets, one);
        room = omega (arith, whole_packets);
        next_page = omega (arith, page_value-next s.write_page, on_page, few);
        size = size;
        is_small = is_small;
        no_nand = no_nand;
        unverified = unverified;
      } in
      let (t, runs, events, stopped, off) =
        pages_packets m 0 (q - 1) 0 (length payload) s'
          (subst (λ c. IsPaging endpoint chip payload packet k page 0 c 0 (length payload) s')
            (sym some_packets) paging)
          lower upper in
      (
        t,
        ground (arith, begins, runs),
        events
            ∙ ap
                (λ l.
                  poll_events chip port (select_pins SpiChip.none (stream (length payload) 0 l)))
                (bus_events-program chip port _ s.log
                  ∙ ap (λ a. program_events chip port a (bus_events s.log)) addr),
        stopped,
        off,
      )
