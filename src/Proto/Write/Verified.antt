-- ===== src/Proto/Write/Verified.antt =====
-- What the verification after a write of firmware/usb/flashProto.cxx compares.
use spiflash_programmer.Proto.Write.Packets.{mask-mod}
use native.Mathlib.Nat.{mod-eq_of_lt, one-le-pow, zero-mod}
use spiflash_programmer.Prelude.{
  ℕ, suc, ◌+◌, ◌*◌, ◌^◌, ◌<◌, ◌≤◌, ◌≡◌, refl, ◌∙◌, Bool, true, false, ◌&&◌, List, [], ◌∷◌, ◌++◌,
  some, arith, replicate, length, get_elem?, byte_at, u8, u32, ◌>>>◌, ◌==◌, bit_and, sub32,
  Bool-cases, inl, inr,
}
use spiflash_programmer.Protocol.Page.{Page, page_value, page_next, page_value-page_of}
use spiflash_programmer.Machine.{World, SpiChip, Ssi, transfer}
use spiflash_programmer.Machine.Action.{Env, done}
use spiflash_programmer.Spi.{spi_device, spi_select, spi_read, select_pins}
use spiflash_programmer.Spi.Transaction.{transaction, transaction-transfer}
use spiflash_programmer.Spi.Stream.{IsReadable, command, after_reading}
use spiflash_programmer.Proto.Common.{is_large, page_address}
use spiflash_programmer.Proto.Read.Begin.{
  addressed, begin_page_read_small, transaction-addressed, address_bytes,
}
use spiflash_programmer.Proto.Write.{verify_byte, verify_bytes, verify}

-- A memory has these bytes from an address on.
abbrev pub agrees : List ℕ → (ℕ → ℕ) → ℕ → Bool
agrees [] mem a = true
agrees (x ∷ xs) mem a = x == mem a && agrees xs mem (a + 1)

-- The status after a comparison.
abbrev compared : Bool → World → World
compared true s = s
compared false s = record s { status = record s.status { write_ok = false } }

-- The buffer has these bytes from an index on.
abbrev HoldsAt : List ℕ → ℕ → List ℕ → Type 0
HoldsAt xs idx buffer = (i : ℕ) → i < length xs → get_elem? buffer (idx + i) ≡ some (byte_at xs i)

-- No index within a page but 0 is a multiple of the page's size.
mask-ne-zero :
    (k idx : ℕ) → 0 < idx → idx < 2 ^ k → 2 ^ k < 65536 → bit_and idx (sub32 (2 ^ k) 1) ≡ idx
mask-ne-zero k idx positive inside fits = mask-mod k idx fits ∙ mod-eq_of_lt inside

-- The page after one that is not the last.
pub page_value-next :
    (p : Page) → page_value p + 1 < 2 ^ 24 → page_value (page_next p) ≡ page_value p + 1
unfolding page_next
page_value-next p h = omega (arith, page_value-page_of (u32 (page_value p + 1)))

-- Back to the bus with no chip, and the turn to the next page.
abbrev turned : World → World
turned s = record s {
  board = record s.board { log = select_pins SpiChip.none s.log; selected = SpiChip.none };
  writing = record s.writing { verify_page = page_next s.verify_page };
}

abbrev released : World → World
released s = record s {
  board = record s.board { log = select_pins SpiChip.none s.log; selected = SpiChip.none };
}

module _ (env : Env) (chip : SpiChip) (port : Ssi) (mem : ℕ → ℕ) (k : ℕ)
    (wired : spi_device chip ≡ some port) (readable : IsReadable env chip mem)
    (fits : 2 ^ k < 65536) where
  spi_read_answer :
      (j a2 a1 a0 : ℕ) (s : World)
      → transaction chip s.log ≡ some (replicate j 0 ++ command 0x03 a2 a1 a0)
      → spi_read env port s ≡ done (mem (a2 * 65536 + a1 * 256 + a0 + j), after_reading port 1 s)
  unfolding spi_read
  spi_read_answer j a2 a1 a0 s h =
      let t = transaction-transfer chip port 0 s.log _ wired h in
      ground (
        arith,
        readable.answers (transfer port 0 ∷ s.log) j a2 a1 a0 t,
        readable.is_byte (a2 * 65536 + a1 * 256 + a0 + j),
      )

  -- A byte that is not the first of a page is compared, and the chip reads on.
  verify_byte_on :
      (x idx j a2 a1 a0 : ℕ) (s : World)
      → transaction chip s.log ≡ some (replicate j 0 ++ command 0x03 a2 a1 a0)
      → get_elem? s.flash_buffer idx ≡ some x
      → 0 < idx
      → idx < 2 ^ k
      → page_value s.target_params.flash_page_size ≡ 2 ^ k
      → verify_byte env port idx s
        ≡ done (tt, compared (x == mem (a2 * 65536 + a1 * 256 + a0 + j)) (after_reading port 1 s))
  unfolding verify_byte
  verify_byte_on x idx j a2 a1 a0 s h held positive inside size =
      let mask = mask-ne-zero k idx positive inside fits in
      ground (arith, spi_read_answer j a2 a1 a0 s h, held, mask, size)

  -- Within a page the bytes are compared with those that the chip goes on to send.
  verify_tail :
      (xs : List ℕ) (idx j a2 a1 a0 : ℕ) (s : World)
      → transaction chip s.log ≡ some (replicate j 0 ++ command 0x03 a2 a1 a0)
      → HoldsAt xs idx s.flash_buffer
      → 0 < idx
      → idx + length xs ≤ 2 ^ k
      → page_value s.target_params.flash_page_size ≡ 2 ^ k
      → (t : World) × (verify_bytes env port (length xs) idx s ≡ done (tt, t))
        × (t.status.write_ok
            ≡ (s.status.write_ok && agrees xs mem (a2 * 65536 + a1 * 256 + a0 + j)))
  unfolding verify_bytes
  verify_tail [] idx j a2 a1 a0 s h held positive inside size = (s, refl, ground arith)
  verify_tail (x ∷ xs) idx j a2 a1 a0 s h held positive inside size =
      let a : ℕ = a2 * 65536 + a1 * 256 + a0 + j in
      let s1 : World = after_reading port 1 s in
      let here : idx + 0 ≡ idx = omega arith in
      let byte : get_elem? s.flash_buffer idx ≡ some x = rw here at (held 0 (omega arith)) in
      let one = verify_byte_on x idx j a2 a1 a0 s h byte positive (omega arith) size in
      let moved = transaction-transfer chip port 0 s.log _ wired h in
      let rest : HoldsAt xs (idx + 1) s.flash_buffer = λ i small.
        let e : idx + 1 + i ≡ idx + suc i = omega arith in rw e (held (suc i) (omega arith)) in
      let next : a2 * 65536 + a1 * 256 + a0 + suc j ≡ a + 1 = omega arith in
      elim (Bool-cases (x == mem a)) [
        | inl same ↦
            let (t, runs, ok) =
              verify_tail xs (idx + 1) (suc j) a2 a1 a0 s1 moved rest (omega arith) (omega arith)
                size in
            (t, ground (arith, one, same, runs), ground (arith, ok, same, next))
        | inr other ↦
            let (t, runs, ok) =
              verify_tail xs (idx + 1) (suc j) a2 a1 a0 (compared false s1) moved rest (omega arith)
                (omega arith) size in
            (t, ground (arith, one, other, runs), ground (arith, ok, other, next))
      ]

  -- The first byte is compared with the page's, and the chip is addressed at the next page.
  verify_byte_first :
      (x : ℕ) (s : World)
      → s.target_device ≡ chip
      → is_large s ≡ false
      → page_value s.target_params.flash_page_size ≡ 2 ^ k
      → get_elem? s.flash_buffer 0 ≡ some x
      → (a : ℕ) → a ≡ page_value s.verify_page * 2 ^ k
      → a < 2 ^ 24
      → verify_byte env port 0 (addressed chip port 0x03 a s)
        ≡ done (
          tt,
          (let u : World =
                turned
                  (compared (x == mem a) (after_reading port 1 (addressed chip port 0x03 a s))) in
              addressed chip port 0x03 (page_address u u.verify_page) u),
        )
  unfolding verify_byte spi_select
  verify_byte_first x s on_chip is_small size held a exact in_chip =
      let s1 : World = after_reading port 1 (addressed chip port 0x03 a s) in
      let place : u8 (a >>> 16) * 65536 + u8 (a >>> 8) * 256 + u8 a + 0 ≡ a =
        omega (arith, address_bytes a) in
      let reads =
        spi_read_answer 0 _ _ _ (addressed chip port 0x03 a s)
          (transaction-addressed chip port wired 0x03 a s) in
      let zeros : bit_and 0 (sub32 (page_value s.target_params.flash_page_size) 1) ≡ 0 =
        rw size (mask-mod k 0 fits ∙ zero-mod (2 ^ k)) in
      elim (Bool-cases (x == mem a)) [
        | inl same ↦
            let u : World = turned s1 in
            let begins =
              begin_page_read_small env chip port wired u.verify_page u on_chip is_small in
            ground (arith, reads, place, held, zeros, same, begins)
        | inr other ↦
            let u : World = turned (compared false s1) in
            let begins =
              begin_page_read_small env chip port wired u.verify_page u on_chip is_small in
            ground (arith, reads, place, held, zeros, other, begins)
      ]

  -- A verification of up to a page of a chip of at most 2 ^ 24 bytes, with another page after it, ends.
  -- It finds no fault exactly if the first byte is that of the page and all others are those of the
  -- page after it, from its first byte on; so a page of more than one byte that was written as it
  -- should be passes only if the next page happens to hold these bytes. No chip stays selected.
  pub verify_compares :
      (x : ℕ) (xs : List ℕ) (s : World)
      → s.target_device ≡ chip
      → is_large s ≡ false
      → page_value s.target_params.flash_page_size ≡ 2 ^ k
      → s.write_total ≡ length (x ∷ xs)
      → length (x ∷ xs) ≤ 2 ^ k
      → HoldsAt (x ∷ xs) 0 s.flash_buffer
      → (page_value s.verify_page + 1) * 2 ^ k < 2 ^ 24
      → (t : World) × (verify env port s ≡ done (tt, t))
        × (t.status.write_ok ≡ (
            s.status.write_ok
            && (x == mem (page_value s.verify_page * 2 ^ k)
                && agrees xs mem ((page_value s.verify_page + 1) * 2 ^ k))))
        × (t.selected ≡ SpiChip.none)
  unfolding verify verify_bytes verify_byte spi_select
  verify_compares x xs s on_chip is_small size total inside held in_chip =
      let a : ℕ = page_value s.verify_page * 2 ^ k in
      let b : ℕ = (page_value s.verify_page + 1) * 2 ^ k in
      let big : 1 ≤ 2 ^ k = one-le-pow k 2 (omega arith) in
      let apart : a + 2 ^ k ≡ b = grind arith in
      let few : page_value s.verify_page + 1 < 2 ^ 24 = grind arith in
      let here : page_address s s.verify_page ≡ a = ground (arith, size) in
      let there : page_address s (page_next s.verify_page) ≡ b =
        ground (arith, size, page_value-next s.verify_page few) in
      let begins = begin_page_read_small env chip port wired s.verify_page s on_chip is_small in
      let byte : get_elem? s.flash_buffer 0 ≡ some x = held 0 (omega arith) in
      let first = verify_byte_first x s on_chip is_small size byte a refl (omega (arith, apart)) in
      let s1 : World = after_reading port 1 (addressed chip port 0x03 a s) in
      let place : u8 (b >>> 16) * 65536 + u8 (b >>> 8) * 256 + u8 b + 0 ≡ b =
        omega (arith, address_bytes b) in
      let rest : HoldsAt xs 1 s.flash_buffer =
        λ i small. let e : 1 + i ≡ 0 + suc i = omega arith in rw e (held (suc i) (omega arith)) in
      elim (Bool-cases (x == mem a)) [
        | inl same ↦
            let u : World = turned s1 in
            let (t, runs, ok) =
              verify_tail xs 1 0 _ _ _ (addressed chip port 0x03 b u)
                (transaction-addressed chip port wired 0x03 b u) rest (omega arith) (omega arith)
                size in
            (
              released t,
              ground (arith, begins, here, there, first, same, runs, total),
              ground (arith, ok, place, same),
              refl,
            )
        | inr other ↦
            let u : World = turned (compared false s1) in
            let (t, runs, ok) =
              verify_tail xs 1 0 _ _ _ (addressed chip port 0x03 b u)
                (transaction-addressed chip port wired 0x03 b u) rest (omega arith) (omega arith)
                size in
            (
              released t,
              ground (arith, begins, here, there, first, other, runs, total),
              ground (arith, ok, place, other),
              refl,
            )
      ]
