-- ===== src/Proto/Write/Pages/Turn.antt =====
-- A packet of a write over several pages: inside of a page, or at its end.
use spiflash_programmer.Prelude.{
  ℕ, suc, ◌+◌, ◌-◌, ◌*◌, ◌%◌, ◌^◌, ◌<◌, ◌≤◌, ◌≡◌, refl, true, false, ◌&&◌, List, [], ◌∷◌, some, u8,
  u32, arith, bit_and, length, ◌∙◌, sym, ap, subst, ◌==◌, ltb,
}
use spiflash_programmer.Protocol.Page.{page_value, page_next}
use spiflash_programmer.Machine.{World, SpiChip, Ssi, Event}
use spiflash_programmer.Machine.Action.{Env, done}
use spiflash_programmer.Spi.{spi_device, select_pins}
use spiflash_programmer.Spi.Transaction.{transaction}
use spiflash_programmer.Proto.Common.{is_large, is_w25n}
use spiflash_programmer.Proto.Erase.Range.{poll_events}
use spiflash_programmer.Proto.Write.{perform_write, page_mask}
use spiflash_programmer.Proto.Write.Packets.{
  put, mask-mod, IsFeeding, IsWriting, perform_write_more, packet_written, packet_written-IsWriting,
  received,
}
use spiflash_programmer.Proto.Write.Session.{bus_events, bus_events-put, bus_events-select}
use spiflash_programmer.Proto.Write.Program.{program_events, bus_events-poll, bus_events-program}
use spiflash_programmer.Proto.Write.Verified.{page_value-next}
use spiflash_programmer.Proto.Write.Pages.{
  page_stream, page_stream-put, page_stream-turn, mod_inside, mod_end, double_le, no_turn,
}
use spiflash_programmer.Proto.Write.Pages.Ending.{page_turned, perform_write_turn}

-- Between two packets of a write to a page and those after it: `c` packets fill the current page, and
-- the program command of the next one will be that of page `page + suc g`.
pub record IsPaging (endpoint : ℕ) (chip : SpiChip) (payload : List ℕ)
    (packet k page g c n left : ℕ) (s : World) : Type 0 where
  pub writing : IsWriting endpoint chip payload n left s
  pub turn : n + c * packet ≡ suc g * 2 ^ k
  pub room : c * packet ≤ 2 ^ k
  pub next_page : page_value s.write_page ≡ page + suc g
  pub size : page_value s.target_params.flash_page_size ≡ 2 ^ k
  pub is_small : is_large s ≡ false
  pub no_nand : is_w25n s.target_id ≡ false
  pub unverified : s.verify_write ≡ false

module _ (env : Env) (endpoint : ℕ) (chip : SpiChip) (port : Ssi) (payload : List ℕ)
    (packet k q page : ℕ) (wired : spi_device chip ≡ some port)
    (feeding : IsFeeding env payload packet) (positive : 0 < packet)
    (bounded : length payload < 65536) (waits : 0 < env.polls)
    (ready : (log : List Event)
      → transaction chip log ≡ some (0 ∷ 0x05 ∷ [])
      → bit_and (u8 (env.reply log)) 1 ≡ 0)
    (fits : 2 ^ k < 65536) (wide : 1 < 2 ^ k) (whole_packets : 2 ^ k ≡ q * packet)
    (in_chip : page * 2 ^ k + length payload ≤ 2 ^ 24) where
  abbrev stream : ℕ → ℕ → List Event → List Event
  stream = page_stream chip port payload (page * 2 ^ k) (2 ^ k)

  -- A packet that neither ends a page nor the write.
  pub packet_inside :
      (g c n left : ℕ) (s : World)
      → IsPaging endpoint chip payload packet k page g (suc (suc c)) n left s
      → packet < left
      → (t : World) × (perform_write env endpoint s ≡ done (tt, t))
        × IsPaging endpoint chip payload packet k page g (suc c) (n + packet) (left - packet) t
        × (bus_events t.log ≡ stream packet n (bus_events s.log))
  packet_inside g c n left s h more =
      let d : ℕ = 2 ^ k in
      let rest : ℕ = suc c * packet in
      let split : suc (suc c) * packet ≡ packet + rest = grind arith in
      let some_rest : 0 < rest = grind arith in
      let next : suc g * d ≡ g * d + d = grind arith in
      let turn = h.turn in
      let room = h.room in
      let all_bytes = h.writing.all_bytes in
      let inside : (bit_and (n + packet) (page_mask s) == 0) ≡ false = ground (
        arith,
        mask-mod k (n + packet) fits,
        mod_inside d g (d - rest) (n + packet),
        h.size,
        turn,
        room,
        split,
        some_rest,
        next,
      ) in
      let runs =
        perform_write_more env endpoint chip port payload packet wired feeding positive bounded n
          left s h.writing inside more in
      (
        packet_written env endpoint chip port payload packet wired feeding positive bounded n left
            s,
        runs,
        record {
          writing =
              packet_written-IsWriting env endpoint chip port payload packet wired feeding positive
                bounded n left s h.writing more;
          turn = omega (arith, turn, split);
          room = omega (arith, room, split);
          next_page = h.next_page;
          size = h.size;
          is_small = h.is_small;
          no_nand = h.no_nand;
          unverified = h.unverified;
        },
        bus_events-put port payload packet n (received env endpoint s).log
            ∙ sym (
                page_stream-put chip port payload (page * 2 ^ k) d packet n (bus_events s.log)
                  λ i short.
                    let on =
                      no_turn d g n (packet + rest) i (omega (arith, turn, split, next))
                        (omega (arith, room, split)) (omega (arith, some_rest)) in
                    rw on refl),
      )

  -- A packet that ends a page, with more to come.
  pub packet_turning :
      (g n left : ℕ) (s : World)
      → IsPaging endpoint chip payload packet k page g 1 n left s
      → packet < left
      → (t : World) × (perform_write env endpoint s ≡ done (tt, t))
        × IsPaging endpoint chip payload packet k page (suc g) q (n + packet) (left - packet) t
        × (bus_events t.log ≡ stream packet n (bus_events s.log))
  packet_turning g n left s h more =
      let d : ℕ = 2 ^ k in
      let one : 1 * packet ≡ packet = omega arith in
      let next : suc g * d ≡ g * d + d = grind arith in
      let after : suc (suc g) * d ≡ suc g * d + d = grind arith in
      let pages : (page + suc g) * d ≡ page * d + suc g * d = grind arith in
      let turn = h.turn in
      let room = h.room in
      let all_bytes = h.writing.all_bytes in
      let few : page + suc g + 1 < 2 ^ 24 =
        omega (arith, double_le (page + suc g) d wide, pages, turn, one, all_bytes, in_chip) in
      let ends : (bit_and (n + packet) (page_mask s) == 0) ≡ true =
        ground (
          arith,
          mask-mod k (n + packet) fits,
          mod_end d (suc g) (n + packet),
          h.size,
          turn,
          one,
        ) in
      let runs =
        perform_write_turn env endpoint chip port payload packet wired feeding positive bounded
          waits ready n left s h.writing ends more h.is_small h.no_nand h.unverified in
      let h' =
        packet_written-IsWriting env endpoint chip port payload packet wired feeding positive
          bounded n left s h.writing more in
      let addr : u32 (page_value s.write_page * page_value s.target_params.flash_page_size)
          ≡ page * d + (n + packet) =
        rw (h.next_page, h.size) (omega (arith, pages, turn, one, all_bytes, in_chip)) in
      let last : packet - 1 + 1 ≡ packet = omega arith in
      let turns : stream packet n (bus_events s.log)
          ≡ program_events chip port (page * d + (n + packet)) (
              poll_events chip port
                (select_pins SpiChip.none (put port payload packet n (bus_events s.log)))) =
        (let p : ℕ = packet - 1 in
          let log : List Event = bus_events s.log in
          let after_put : (a m : ℕ) → List Event = λ a m.
            program_events chip port (page * d + a)
              (poll_events chip port (select_pins SpiChip.none (put port payload m n log))) in
          let place : n + p + 1 ≡ n + packet = omega arith in
          let ending : ((n + p + 1) % d == 0 && ltb (n + p + 1) (length payload)) ≡ true =
            rw place (ground (arith, mod_end d (suc g) (n + packet), turn, one, all_bytes)) in
          let exact =
            page_stream-turn chip port payload (page * 2 ^ k) d p n log
              (λ i short.
                let on =
                  no_turn d g n packet i (omega (arith, turn, one, next)) (omega (arith, room, one))
                    (omega arith) in
                rw on refl)
              ending in
          subst (λ m. stream m n log ≡ after_put (n + packet) m) last
            (exact ∙ ap (λ a. after_put a (p + 1)) place)) in
      let advanced : page_value (page_next s.write_page) ≡ page + suc (suc g) =
        omega (arith, page_value-next s.write_page, h.next_page, few) in
      (
        page_turned env endpoint chip port payload packet wired feeding positive bounded waits ready
            n left s,
        runs,
        record {
          writing = record {
            selected = refl;
            targeted = h'.targeted;
            all_bytes = h'.all_bytes;
            total = h'.total;
            to_write = h'.to_write;
            to_come = h'.to_come;
            pointer = h'.pointer;
            held = h'.held;
          };
          turn = omega (arith, turn, one, after, whole_packets);
          room = omega (arith, whole_packets);
          next_page = advanced;
          size = h.size;
          is_small = h.is_small;
          no_nand = h.no_nand;
          unverified = h.unverified;
        },
        bus_events-program chip port _ _
            ∙ ap (program_events chip port _) (
                bus_events-poll chip port _
                ∙ ap (poll_events chip port) (
                    bus_events-select SpiChip.none _
                    ∙ ap (select_pins SpiChip.none)
                        (bus_events-put port payload packet n (received env endpoint s).log)))
            ∙ ap
                (λ a. program_events chip port a (
                  poll_events chip port
                    (select_pins SpiChip.none (put port payload packet n (bus_events s.log)))))
                addr
            ∙ sym turns,
      )
