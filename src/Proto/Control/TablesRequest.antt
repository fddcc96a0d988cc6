-- ===== src/Proto/Control/TablesRequest.antt =====
-- An SFDP read as the host asks for it: the control request, its data stage, and the packets.
use spiflash_programmer.Prelude.{
  ℕ, ◌≡◌, ◌<◌, ◌≤◌, ◌*◌, ◌++◌, ◌^◌, true, arith, suc, some, ◌∷◌, false,
}
use spiflash_programmer.Protocol.{Message}
use spiflash_programmer.Protocol.Transport.{controller_out}
use spiflash_programmer.Machine.{World, SpiChip, Ssi, led, Pointer, Callback}
use spiflash_programmer.Machine.Action.{Env, done, ◌>>◌}
use spiflash_programmer.Proto.Control.{Packet, zero_length, handle_message, run_callback}
use spiflash_programmer.Proto.Common.{flash_buffer_size, expect_data, set_ep}
use spiflash_programmer.Proto.Read.{setup_sfdp_read, set_read_count}
use spiflash_programmer.Proto.Read.Tables.{data_packets, tables_session}
use spiflash_programmer.Spi.{spi_device, led_set_colour}
use spiflash_programmer.Spi.Transaction.{sent}
use spiflash_programmer.Spi.Stream.{IsSelfDescribing, slice}

-- The data stage: the four bytes of the address are stored into `sfdpAddress`.
abbrev pub store_sfdp_address : ℕ → World → World
store_sfdp_address address s = record s { reading = record s.reading { sfdp_address = address } }

-- The world after an accepted request for `count` bytes.
abbrev pub tables_awaited : Env → ℕ → World → World
tables_awaited env count s = record (set_read_count count s) {
  board = record s.board { log = led false true true ∷ s.log };
  ep_out = set_ep s.ep_out 0 (record {
    mem_buffer = Pointer.sfdp_address;
    transfer_count = 4;
    flags = env.needs_arming true (s.ep_out 0).flags;
  });
  setup_callback = Callback.handle_sfdp_read;
}

setup_sfdp_read_accepts :
    (env : Env) (count : ℕ) (s : World)
    → 0 < count
    → count ≤ flash_buffer_size
    → setup_sfdp_read env count s ≡ done (true, tables_awaited env count s)
unfolding setup_sfdp_read expect_data led_set_colour
setup_sfdp_read_accepts env count s some_bytes fits = ground arith

module _ (env : Env) (endpoint : ℕ) (chip : SpiChip) (port : Ssi) (tables : ℕ → ℕ)
    (wired : spi_device chip ≡ some port) (describing : IsSelfDescribing env chip tables)
    (positive : 0 < env.ep_buffer_size) (small : env.ep_buffer_size < 65536) where
  -- A request for 1 to 4096 bytes of the tables is accepted. Once the data stage has stored the
  -- address, the callback that the request set up and `m` further packets, enough for the count,
  -- send the host exactly so many bytes of the chip's tables from the address on, in order.
  pub tables_request :
      (m : ℕ) (p : Packet) (address : ℕ) (s : World)
      → p.dir ≡ controller_out
      → 0 < p.value
      → p.value ≤ flash_buffer_size
      → p.value ≤ suc m * env.ep_buffer_size
      → address < 2 ^ 24
      → s.read_endpoint ≡ endpoint
      → s.target_device ≡ chip
      → (t : World) × (handle_message env Message.sfdp p s ≡ done (zero_length, t))
        × ((u : World) × ((run_callback env t.setup_callback >> data_packets env endpoint m)
                (store_sfdp_address address t)
              ≡ done (tt, u))
            × (sent endpoint u.log ≡ sent endpoint s.log ++ slice tables address p.value)
            × (u.read_count ≡ 0)
            × (u.selected ≡ SpiChip.none))
  unfolding handle_message run_callback
  tables_request m p address s out some_bytes fits enough in_reach ep on_chip =
      let t : World = tables_awaited env p.value s in
      let accepts = setup_sfdp_read_accepts env p.value s some_bytes fits in
      let (u, runs, sends, none_left, off) =
        tables_session env endpoint chip port tables wired describing positive small m
          (store_sfdp_address address t) ep on_chip in_reach some_bytes enough (omega arith) in
      (t, ground (arith, accepts, out), (u, runs, sends, none_left, off))
