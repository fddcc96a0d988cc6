-- ===== src/Spi/Stream.antt =====
-- A chip that answers the read command, and a run of bytes read from it.
use spiflash_programmer.Prelude.{
  ℕ, zero, suc, ◌+◌, ◌*◌, ◌<◌, ◌≡◌, refl, List, [], ◌∷◌, ◌++◌, some, arith, replicate,
}
use spiflash_programmer.Machine.{Event, World, transfer, SpiChip, Ssi}
use spiflash_programmer.Machine.Action.{Env, done, with_board}
use spiflash_programmer.Spi.{spi_device, spi_read}
use spiflash_programmer.Spi.Transaction.{transaction, transaction-transfer, sent}
use spiflash_programmer.Sfdp.{read_bytes}

-- The bytes of an address, newest first, after a command.
abbrev pub command : ℕ → ℕ → ℕ → ℕ → List ℕ
command opcode a2 a1 a0 = a0 ∷ a1 ∷ a2 ∷ opcode ∷ []

-- 25-series data sheets, READ: after 03h and three address bytes, high byte first, each further
-- byte clocked out is that of the next address.
pub record IsReadable (env : Env) (chip : SpiChip) (mem : ℕ → ℕ) : Type 0 where
  pub answers :
      (log : List Event) (k a2 a1 a0 : ℕ)
      → transaction chip log ≡ some (replicate (suc k) 0 ++ command 0x03 a2 a1 a0)
      → env.reply log ≡ mem (a2 * 65536 + a1 * 256 + a0 + k)
  pub is_byte : (a : ℕ) → mem a < 256

abbrev pub slice : (ℕ → ℕ) → ℕ → ℕ → List ℕ
slice mem a zero = []
slice mem a (suc n) = mem a ∷ slice mem (a + 1) n

-- The log after `n` bytes have been read.
abbrev pub dummies : Ssi → ℕ → List Event → List Event
dummies port zero log = log
dummies port (suc n) log = dummies port n (transfer port 0 ∷ log)

pub sent-dummies :
    (endpoint : ℕ) (port : Ssi) (n : ℕ) (log : List Event)
    → sent endpoint (dummies port n log) ≡ sent endpoint log
sent-dummies endpoint port zero log = refl
sent-dummies endpoint port (suc n) log = sent-dummies endpoint port n (transfer port 0 ∷ log)

abbrev pub after_reading : Ssi → ℕ → World → World
after_reading port n s = with_board s (record s.board { log = dummies port n s.log })

module _ (chip : SpiChip) (port : Ssi) (wired : spi_device chip ≡ some port) where
  pub transaction-dummies :
      (n k : ℕ) (log : List Event) (bytes : List ℕ)
      → transaction chip log ≡ some (replicate k 0 ++ bytes)
      → transaction chip (dummies port n log) ≡ some (replicate (n + k) 0 ++ bytes)
  transaction-dummies zero k log bytes h = let e : 0 + k ≡ k = omega arith in rw e h
  transaction-dummies (suc n) k log bytes h =
      let e : suc n + k ≡ n + suc k = omega arith in
      rw e (
        transaction-dummies n (suc k) (transfer port 0 ∷ log) bytes
          (transaction-transfer chip port 0 log (replicate k 0 ++ bytes) wired h))

-- JESD216, Read SFDP: after 5Ah, three address bytes, high byte first, and one dummy byte, each
-- further byte clocked out is that of the next address of the chip's tables.
pub record IsSelfDescribing (env : Env) (chip : SpiChip) (tables : ℕ → ℕ) : Type 0 where
  pub answers :
      (log : List Event) (k a2 a1 a0 : ℕ)
      → transaction chip log ≡ some (replicate (suc k) 0 ++ 0 ∷ command 0x5a a2 a1 a0)
      → env.reply log ≡ tables (a2 * 65536 + a1 * 256 + a0 + k)
  pub is_byte : (a : ℕ) → tables a < 256

-- A chip that has been sent `head` answers with the bytes of `mem` from `a` on.
module _ (env : Env) (chip : SpiChip) (port : Ssi) (mem : ℕ → ℕ) (head : List ℕ) (a : ℕ)
    (wired : spi_device chip ≡ some port)
    (answers : (log : List Event) (k : ℕ)
      → transaction chip log ≡ some (replicate (suc k) 0 ++ head)
      → env.reply log ≡ mem (a + k))
    (is_byte : (b : ℕ) → mem b < 256) where
  read_bytes-from :
      (n k : ℕ) (s : World)
      → transaction chip s.log ≡ some (replicate k 0 ++ head)
      → read_bytes env port n s ≡ done (slice mem (a + k) n, after_reading port n s)
  unfolding read_bytes spi_read
  read_bytes-from zero k s h = refl
  read_bytes-from (suc n) k s h =
      let t = transaction-transfer chip port 0 s.log _ wired h in
      let byte = answers (transfer port 0 ∷ s.log) k t in
      let small = is_byte (a + k) in
      let rest = read_bytes-from n (suc k) (after_reading port 1 s) t in
      let next : a + suc k ≡ a + k + 1 = omega arith in ground (arith, rest, byte, small, next)

module _ (env : Env) (chip : SpiChip) (port : Ssi) (mem : ℕ → ℕ)
    (wired : spi_device chip ≡ some port) where
  pub read_bytes-slice :
      (readable : IsReadable env chip mem) (n k a2 a1 a0 : ℕ) (s : World)
      → transaction chip s.log ≡ some (replicate k 0 ++ command 0x03 a2 a1 a0)
      → read_bytes env port n s
        ≡ done (slice mem (a2 * 65536 + a1 * 256 + a0 + k) n, after_reading port n s)
  read_bytes-slice readable n k a2 a1 a0 =
      read_bytes-from env chip port mem (command 0x03 a2 a1 a0) (a2 * 65536 + a1 * 256 + a0) wired
        (λ log j. readable.answers log j a2 a1 a0) readable.is_byte n k

  pub read_bytes-tables :
      (describing : IsSelfDescribing env chip mem) (n k a2 a1 a0 : ℕ) (s : World)
      → transaction chip s.log ≡ some (replicate k 0 ++ 0 ∷ command 0x5a a2 a1 a0)
      → read_bytes env port n s
        ≡ done (slice mem (a2 * 65536 + a1 * 256 + a0 + k) n, after_reading port n s)
  read_bytes-tables describing n k a2 a1 a0 =
      read_bytes-from env chip port mem (0 ∷ command 0x5a a2 a1 a0) (a2 * 65536 + a1 * 256 + a0)
        wired (λ log j. describing.answers log j a2 a1 a0) describing.is_byte n k
