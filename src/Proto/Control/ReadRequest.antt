-- ===== src/Proto/Control/ReadRequest.antt =====
-- A read as the host asks for it: the control request, its data stage, and the packets.
use spiflash_programmer.Prelude.{
  ℕ, ◌≡◌, ◌<◌, ◌≤◌, ◌*◌, ◌++◌, ◌^◌, true, false, arith, suc, some, ◌∷◌,
}
use spiflash_programmer.Protocol.{read}
use spiflash_programmer.Protocol.Page.{Page, page_value}
use spiflash_programmer.Protocol.Transport.{controller_out}
use spiflash_programmer.Machine.{World, SpiChip, Ssi, led, Pointer, Callback}
use spiflash_programmer.Machine.Action.{Env, done, ◌>>◌}
use spiflash_programmer.Proto.Control.{Packet, zero_length, handle_message, run_callback}
use spiflash_programmer.Proto.Common.{flash_buffer_size, is_large, is_w25n, expect_data, set_ep}
use spiflash_programmer.Proto.Read.{setup_read, set_read_count}
use spiflash_programmer.Proto.Read.Session.{packets, read_session}
use spiflash_programmer.Spi.{spi_device, led_set_colour}
use spiflash_programmer.Spi.Transaction.{sent}
use spiflash_programmer.Spi.Stream.{IsReadable, slice}

-- The data stage: the page's three bytes are stored into `readPage`.
abbrev pub store_read_page : Page → World → World
store_read_page page s = record s { reading = record s.reading { read_page = page } }

-- The world after an accepted request for `count` bytes.
abbrev pub read_awaited : Env → ℕ → World → World
read_awaited env count s = record (set_read_count count s) {
  board = record s.board { log = led false false false ∷ s.log };
  ep_out = set_ep s.ep_out 0 (record {
    mem_buffer = Pointer.read_page;
    transfer_count = 3;
    flags = env.needs_arming true (s.ep_out 0).flags;
  });
  setup_callback = Callback.handle_read;
}

pub setup_read_accepts :
    (env : Env) (count : ℕ) (s : World)
    → 0 < count
    → count ≤ flash_buffer_size
    → setup_read env count s ≡ done (true, read_awaited env count s)
unfolding setup_read expect_data led_set_colour
setup_read_accepts env count s some_bytes fits = ground arith

module _ (env : Env) (endpoint : ℕ) (chip : SpiChip) (port : Ssi) (mem : ℕ → ℕ)
    (wired : spi_device chip ≡ some port) (readable : IsReadable env chip mem)
    (positive : 0 < env.ep_buffer_size) (small : env.ep_buffer_size < 65536) where
  -- A read request for `suc m` whole packets, at most the flash buffer's size, is accepted. Once the
  -- data stage has stored the page, the callback that the request set up and `m` further packets
  -- send the host the chip's bytes from that page's first one on, in order and without gap. The
  -- chip is one that is addressed by bytes.
  pub read_request :
      (m : ℕ) (p : Packet) (page : Page) (s : World)
      → p.dir ≡ controller_out
      → p.value ≡ suc m * env.ep_buffer_size
      → p.value ≤ flash_buffer_size
      → s.read_endpoint ≡ endpoint
      → s.target_device ≡ chip
      → is_large s ≡ false
      → is_w25n s.target_id ≡ false
      → page_value page * page_value s.target_params.flash_page_size < 2 ^ 24
      → (t : World) × (handle_message env read p s ≡ done (zero_length, t))
        × ((u : World) × ((run_callback env t.setup_callback >> packets env endpoint m)
                (store_read_page page t)
              ≡ done (tt, u))
            × (sent endpoint u.log
                ≡ sent endpoint s.log
                  ++ slice mem
                      (page_value page * page_value s.target_params.flash_page_size)
                      p.value)
            × (u.read_count ≡ 0)
            × (u.selected ≡ SpiChip.none))
  unfolding handle_message run_callback
  read_request m p page s out whole fits ep on_chip is_small no_nand in_chip =
      let count : ℕ = suc m * env.ep_buffer_size in
      let some_bytes : 0 < count = grind arith in
      let t : World = read_awaited env p.value s in
      let accepts = setup_read_accepts env p.value s (omega (arith, whole)) fits in
      let (u, runs, sends, none_left, off) =
        read_session env endpoint chip port mem wired readable positive small m
          (store_read_page page t) ep on_chip is_small no_nand in_chip whole
          (omega (arith, whole)) in
      (t, ground (arith, accepts, out), (u, runs, cc sends, none_left, off))
