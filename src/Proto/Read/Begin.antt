-- ===== src/Proto/Read/Begin.antt =====
-- Addressing a page, as the chip sees it: `beginPageRead` of firmware/usb/flashProto.cxx.
use spiflash_programmer.Prelude.{ℕ, ◌+◌, ◌*◌, ◌^◌, ◌<◌, ◌≡◌, false, some, u8, ◌>>>◌, arith, ◌∷◌}
use spiflash_programmer.Protocol.Page.{Page}
use spiflash_programmer.Machine.{World, SpiChip, Ssi, transfer}
use spiflash_programmer.Machine.Action.{Env, done}
use spiflash_programmer.Spi.{spi_device, spi_select, spi_write, select_pins}
use spiflash_programmer.Spi.Transaction.{
  transaction, transaction-select, transaction-transfer, sent, sent-select,
}
use spiflash_programmer.Spi.Stream.{command}
use spiflash_programmer.Proto.Common.{begin_page_read, write_address24, is_large, page_address}

-- `addr` is written as its three low bytes, high byte first, to the chip.
abbrev pub addressed : SpiChip → Ssi → ℕ → ℕ → World → World
addressed chip port opcode addr s = record s {
  board = record s.board {
    selected = chip;
    log =
        transfer port (u8 addr)
        ∷ transfer port (u8 (addr >>> 8))
        ∷ transfer port (u8 (addr >>> 16))
        ∷ transfer port opcode
        ∷ select_pins chip s.log;
  };
}

module _ (chip : SpiChip) (port : Ssi) (wired : spi_device chip ≡ some port) where
  pub transaction-addressed :
      (opcode addr : ℕ) (s : World)
      → transaction chip (addressed chip port opcode addr s).log
        ≡ some (command opcode (u8 (addr >>> 16)) (u8 (addr >>> 8)) (u8 addr))
  transaction-addressed opcode addr s =
      let l0 = select_pins chip s.log in
      let l1 = transfer port opcode ∷ l0 in
      let l2 = transfer port (u8 (addr >>> 16)) ∷ l1 in
      let l3 = transfer port (u8 (addr >>> 8)) ∷ l2 in
      let t0 = transaction-select chip s.log wired in
      let t1 = transaction-transfer chip port opcode l0 _ wired t0 in
      let t2 = transaction-transfer chip port (u8 (addr >>> 16)) l1 _ wired t1 in
      let t3 = transaction-transfer chip port (u8 (addr >>> 8)) l2 _ wired t2 in
      transaction-transfer chip port (u8 addr) l3 _ wired t3

pub sent-addressed :
    (chip : SpiChip) (port : Ssi) (endpoint opcode addr : ℕ) (s : World)
    → sent endpoint (addressed chip port opcode addr s).log ≡ sent endpoint s.log
sent-addressed chip port endpoint opcode addr s = sent-select endpoint chip s.log

module _ (env : Env) (chip : SpiChip) (port : Ssi) (wired : spi_device chip ≡ some port) where
  -- A chip of at most 2 ^ 24 bytes gets the read command with the page's byte address.
  pub begin_page_read_small :
      (page : Page) (s : World)
      → s.target_device ≡ chip
      → is_large s ≡ false
      → begin_page_read env page s ≡ done (tt, addressed chip port 0x03 (page_address s page) s)
  unfolding begin_page_read write_address24 spi_select spi_write
  begin_page_read_small page s on_chip is_small = ground (arith, wired)

-- The three bytes make up the address again.
pub address_bytes :
    (addr : ℕ) → addr < 2 ^ 24 → u8 (addr >>> 16) * 65536 + u8 (addr >>> 8) * 256 + u8 addr ≡ addr
address_bytes addr h = omega arith
