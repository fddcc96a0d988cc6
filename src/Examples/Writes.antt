-- ===== src/Examples/Writes.antt =====
-- Six bytes written to two pages, in packets of four.
use spiflash_programmer.Prelude.{
  ℕ, zero, suc, ◌+◌, ◌-◌, ◌*◌, ◌^◌, ◌<◌, ◌≡◌, refl, arith, min, List, [], ◌∷◌, length, some,
  get_elem?, byte_at, ap,
}
use spiflash_programmer.Machine.{World, SpiChip, target, ssi0, Pointer, flash_buffer}
use spiflash_programmer.Machine.Action.{Env, done, ◌>>◌}
use spiflash_programmer.Spi.{spi_device, select_pins}
use spiflash_programmer.Protocol.Page.{page_value}
use spiflash_programmer.Proto.Write.{handle_write}
use spiflash_programmer.Proto.Write.Packets.{IsFeeding}
use spiflash_programmer.Proto.Write.Session.{bus_events}
use spiflash_programmer.Proto.Write.Program.{out_packets, program_events}
use spiflash_programmer.Proto.Write.Pages.{page_stream}
use spiflash_programmer.Proto.Write.Pages.Session.{write_pages_session}
use spiflash_programmer.Proto.Erase.Range.{poll_events}
use spiflash_programmer.Examples.Data.{quiet_env, targeted}

abbrev six_bytes : List ℕ
six_bytes = 10 ∷ 20 ∷ 30 ∷ 40 ∷ 50 ∷ 60 ∷ []

abbrev moved : Pointer → ℕ → Pointer
moved (flash_buffer n) m = Pointer.flash_buffer (n + m)
moved p m = p

-- A USB core that has the host's bytes for the buffer, and counts off four at a time.
abbrev writing_env : Env
writing_env = record quiet_env {
  read_ep = λ log e buffer. (
    record e {
      mem_buffer = moved e.mem_buffer (min 4 e.transfer_count);
      transfer_count = e.transfer_count - 4;
    },
    six_bytes,
  );
}

pub element :
    (bytes : List ℕ) (i : ℕ) → i < length bytes → get_elem? bytes i ≡ some (byte_at bytes i)
element [] i small = absurd (omega arith)
element (b ∷ bytes) zero small = refl
element (b ∷ bytes) (suc i) small = element bytes i (omega arith)

writing_env-IsFeeding : IsFeeding writing_env six_bytes 4
writing_env-IsFeeding = record {
  counts = λ log e buffer. refl;
  stores = λ log e buffer n whole at h i small. element six_bytes i (omega (arith, whole));
  moves = λ log e buffer n at. ap (λ p. moved p (min 4 e.transfer_count)) at;
}

abbrev writing_world : World
writing_world = record targeted {
  writing = record targeted.writing {
    write_page = record { byte0 = 3; byte1 = 0; byte2 = 0 };
    write_count = 6;
    write_total = 6;
  };
}

-- They go to a page of four bytes and the next one.
abbrev small_pages_world : World
small_pages_world = record writing_world {
  target_params = record targeted.target_params {
    flash_page_size = record { byte0 = 4; byte1 = 0; byte2 = 0 };
  };
}

write_pages_session_example :
    (t : World) × ((handle_write >> out_packets writing_env 1 2) small_pages_world ≡ done (tt, t))
    × (bus_events t.log
        ≡ poll_events target ssi0 (
            select_pins SpiChip.none (
              page_stream target ssi0 six_bytes
                (3 * 2 ^ 2)
                (2 ^ 2)
                6
                0
                (program_events target ssi0 (3 * 2 ^ 2) []))))
    × (t.write_count ≡ 0)
    × (t.selected ≡ SpiChip.none)
unfolding spi_device page_value
write_pages_session_example =
    write_pages_session writing_env 1 target ssi0 six_bytes 4 2 1 3 refl writing_env-IsFeeding
      (omega arith) (omega arith) (omega arith) (λ log h. refl) (omega arith) (omega arith) refl
      (omega arith) 1 small_pages_world refl refl refl refl refl (omega arith) (omega arith) refl
      refl refl refl
