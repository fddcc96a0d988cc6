-- ===== src/Spi/Buffer.antt =====
-- The page buffer of a chip, as the bus has left it.
use spiflash_programmer.Prelude.{
  ℕ, zero, suc, ◌+◌, ◌*◌, ◌<◌, ◌≡◌, refl, List, [], ◌∷◌, ◌++◌, Option, none, some, ◌==◌,
  if◌then◌else◌, arith, replicate, ◌∙◌,
}
use spiflash_programmer.Machine.{
  Event, World, transfer, SpiChip, local1, local2, target, Ssi, write_ep,
}
use spiflash_programmer.Machine.Action.{Env, done}
use spiflash_programmer.Spi.{spi_device, select_pins, spi_read}
use spiflash_programmer.Spi.Transaction.{transaction, transaction-transfer}
use spiflash_programmer.Spi.Stream.{command, slice, after_reading, dummies}
use spiflash_programmer.Sfdp.{read_bytes}

-- A page number is taken from a whole transaction of the command 13h and three bytes.
abbrev pub taken : Option (List ℕ) → Option ℕ → Option ℕ
taken (some (a0 ∷ a1 ∷ a2 ∷ opcode ∷ [])) before =
    if opcode == 0x13 then some (a2 * 65536 + a1 * 256 + a0) else before
taken _ before = before

-- At an event that leaves the chip deselected, what it got before counts.
abbrev pub settled : Option (List ℕ) → Option (List ℕ) → Option ℕ → Option ℕ
settled none got before = taken got before
settled (some _) got before = before

-- The number of the page that the chip has put into its buffer last.
abbrev pub loaded : SpiChip → List Event → Option ℕ
loaded chip [] = none
loaded chip (e ∷ log) =
    settled (transaction chip (e ∷ log)) (transaction chip log) (loaded chip log)

pub loaded-transfer :
    (chip : SpiChip) (port : Ssi) (b : ℕ) (log : List Event) (bytes : List ℕ)
    → spi_device chip ≡ some port
    → transaction chip log ≡ some bytes
    → loaded chip (transfer port b ∷ log) ≡ loaded chip log
loaded-transfer chip port b log bytes wired h =
    rw (transaction-transfer chip port b log bytes wired h)

pub loaded-send :
    (chip : SpiChip) (endpoint : ℕ) (sends : List ℕ) (log : List Event) (bytes : List ℕ)
    → transaction chip log ≡ some bytes
    → loaded chip (write_ep endpoint sends ∷ log) ≡ loaded chip log
loaded-send chip endpoint sends log bytes h = rw h

pub transaction-deselect :
    (chip : SpiChip) {port : Ssi} (log : List Event)
    → spi_device chip ≡ some port
    → transaction chip (select_pins SpiChip.none log) ≡ none
unfolding select_pins spi_device
transaction-deselect local1 log e = refl
transaction-deselect local2 log e = refl
transaction-deselect target log e = refl
transaction-deselect SpiChip.none log e = cc

-- The end of a transaction is what the chip goes by.
pub loaded-deselect :
    (chip : SpiChip) {port : Ssi} (log : List Event) (bytes : List ℕ)
    → spi_device chip ≡ some port
    → transaction chip log ≡ some bytes
    → loaded chip (select_pins SpiChip.none log) ≡ taken (some bytes) (loaded chip log)
unfolding select_pins spi_device
loaded-deselect local1 log bytes e h = rw h
loaded-deselect local2 log bytes e h = rw h
loaded-deselect target log bytes e h = rw h
loaded-deselect SpiChip.none log bytes e h = cc

pub loaded-select :
    (chip : SpiChip) {port : Ssi} (log : List Event)
    → spi_device chip ≡ some port
    → transaction chip log ≡ none
    → loaded chip (select_pins chip log) ≡ loaded chip log
unfolding select_pins spi_device
loaded-select local1 log e h = rw h
loaded-select local2 log e h = rw h
loaded-select target log e h = rw h
loaded-select SpiChip.none log e h = cc

-- Data sheets of serial NAND chips: 13h and three bytes put a page into the buffer; after 03h, two
-- bytes of a column, high byte first, and a dummy byte, each further byte clocked out is that of the
-- next column of the page in the buffer.
pub record IsPaged (env : Env) (chip : SpiChip) (mem : ℕ → ℕ → ℕ) : Type 0 where
  pub answers :
      (log : List Event) (page k column1 column0 dummy : ℕ)
      → loaded chip log ≡ some page
      → transaction chip log ≡ some (replicate (suc k) 0 ++ command 0x03 column1 column0 dummy)
      → env.reply log ≡ mem page (column1 * 256 + column0 + k)
  pub is_byte : (page a : ℕ) → mem page a < 256

module _ (env : Env) (chip : SpiChip) (port : Ssi) (mem : ℕ → ℕ → ℕ)
    (wired : spi_device chip ≡ some port) (paged : IsPaged env chip mem) where
  pub loaded-dummies :
      (page n k : ℕ) (log : List Event) (bytes : List ℕ)
      → loaded chip log ≡ some page
      → transaction chip log ≡ some (replicate k 0 ++ bytes)
      → loaded chip (dummies port n log) ≡ some page
  loaded-dummies page zero k log bytes holds h = holds
  loaded-dummies page (suc n) k log bytes holds h =
      loaded-dummies page n (suc k) (transfer port 0 ∷ log) bytes
        (loaded-transfer chip port 0 log _ wired h ∙ holds)
        (transaction-transfer chip port 0 log _ wired h)

  pub read_bytes-page :
      (page n k : ℕ) (s : World)
      → loaded chip s.log ≡ some page
      → transaction chip s.log ≡ some (replicate k 0 ++ command 0x03 0 0 0)
      → read_bytes env port n s ≡ done (slice (mem page) k n, after_reading port n s)
  unfolding read_bytes spi_read
  read_bytes-page page zero k s holds h = refl
  read_bytes-page page (suc n) k s holds h =
      let t = transaction-transfer chip port 0 s.log _ wired h in
      let kept = loaded-transfer chip port 0 s.log _ wired h ∙ holds in
      let byte = paged.answers (transfer port 0 ∷ s.log) page k 0 0 0 kept t in
      let small = paged.is_byte page k in
      let rest = read_bytes-page page n (suc k) (after_reading port 1 s) kept t in
      let next : suc k ≡ k + 1 = omega arith in ground (arith, rest, byte, small, next)
