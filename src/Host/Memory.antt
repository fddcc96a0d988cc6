-- ===== src/Host/Memory.antt =====
-- A chip's memory and a file's position, as a history of the host leaves them.
use spiflash_programmer.Host.Copies.{length-slice}
use native.Mathlib.Nat.{mod-eq_of_lt}
use spiflash_programmer.Protocol.{write, erase, message_code, erase_code, page_range}
use spiflash_programmer.Host.Requests.{Transfer}
use spiflash_programmer.Host.Targeted.{targeted}
use spiflash_programmer.Prelude.{
  bit_and, bit_and_mask, leb, ◌&&◌, ◌==◌, Option, none, some, Bool, false, length, [], ◌∷◌, zero,
  suc, refl, true, inl, inr, Bool-cases, ℕ, List, ◌+◌, ◌<◌, take, ◌≡◌, if◌then◌else◌, byte_at, ap,
  ltb, ◌*◌, min, arith, ◌-◌, ◌∙◌, ◌≤◌,
}
use spiflash_programmer.Protocol.Layout.{ListDevice}
use spiflash_programmer.Host.Chips.{page_in}
use spiflash_programmer.Protocol.Page.{page_value}
use spiflash_programmer.Spi.Stream.{slice}
use spiflash_programmer.Host.Session.{History, control, bulk, read_file}

-- A chip of a programmer: where it is, and in what units it is written and erased.
pub record Placed : Type 0 where
  pub address : ℕ
  pub page_bytes : ℕ
  pub erase_bytes : ℕ

abbrev pub listed_at : ℕ → ListDevice → Placed
listed_at address info = record {
  address = address;
  page_bytes = page_value info.page_size;
  erase_bytes = page_value info.erase_size;
}

-- Programming clears bits of the bytes from `base` on, as the chips' data sheets have it.
abbrev pub program : ℕ → List ℕ → (ℕ → ℕ) → ℕ → ℕ
program base bytes mem a =
    if ltb a base
    then mem a
    else if ltb a (base + length bytes)
    then bit_and (byte_at bytes (a - base)) (mem a)
    else mem a

-- Erasing sets all bits from `begin` up to `end`.
abbrev pub empty : ℕ → ℕ → (ℕ → ℕ) → ℕ → ℕ
empty begin end mem a = if ltb a begin then mem a else if ltb a end then 0xff else mem a

abbrev pub is_on : Option ℕ → ℕ → Bool
is_on none address = false
is_on (some n) address = n == address

-- The last request before the data of a write, and the chip that it is for.
abbrev pub pending : History → Option (Transfer × Option ℕ)
pending [] = none
pending (control t ∷ log) = some (t, targeted log)
pending (read_file n ∷ log) = pending log
pending (_ ∷ log) = none

-- A count of 0 asks for 256 bytes.
abbrev pub announced : ℕ → ℕ
announced count = if count == 0 then 256 else count

-- The request announces a write of just so many bytes, at most 4096, to the chip.
abbrev pub is_write : Placed → Transfer → Option ℕ → List ℕ → Bool
is_write chip t on bytes =
    t.request == message_code write
    && announced t.value == length bytes
    && leb (length bytes) 4096
    && is_on on chip.address

abbrev pub delivered : Placed → ℕ → List ℕ → Option (Transfer × Option ℕ) → (ℕ → ℕ) → ℕ → ℕ
delivered chip endpoint bytes none mem = mem
delivered chip endpoint bytes (some (t, on)) mem =
    if endpoint == 1 && is_write chip t on bytes
    then program (page_value (page_in t.payload 0) * chip.page_bytes) bytes mem
    else mem

-- A request for the erase of a range of pages; the erase is over once the programmer reports so.
abbrev pub started : Placed → Transfer → Option ℕ → (ℕ → ℕ) → ℕ → ℕ
started chip t on mem =
    if t.request == message_code erase && t.value == erase_code page_range && is_on on chip.address
    then empty (page_value (page_in t.payload 0) * chip.erase_bytes)
        (page_value (page_in t.payload 3) * chip.erase_bytes) mem
    else mem

-- The chip's memory after a history, if it held `mem` before.
abbrev pub stored : Placed → (ℕ → ℕ) → History → ℕ → ℕ
stored chip mem [] = mem
stored chip mem (bulk endpoint size bytes ∷ log) =
    delivered chip endpoint bytes (pending log) (stored chip mem log)
stored chip mem (control t ∷ log) = started chip t (targeted log) (stored chip mem log)
stored chip mem (_ ∷ log) = stored chip mem log

-- How far the file has been read.
abbrev pub consumed : History → ℕ
consumed [] = 0
consumed (read_file n ∷ log) = consumed log + n
consumed (_ ∷ log) = consumed log

byte_at-slice :
    (content : ℕ → ℕ) (b n i : ℕ) → i < n → byte_at (slice content b n) i ≡ content (b + i)
byte_at-slice content b zero i p = let no : ⊥ = omega (arith, p) in elim no [ ]
byte_at-slice content b (suc n) zero p = ap content (omega arith)
byte_at-slice content b (suc n) (suc i) p =
    byte_at-slice content (b + 1) n i (omega (arith, p)) ∙ ap content (omega arith)

pub take-slice : (content : ℕ → ℕ) (b n : ℕ) → take n (slice content b n) ≡ slice content b n
take-slice content b zero = refl
take-slice content b (suc n) = ap (◌∷◌ (content b)) (take-slice content (b + 1) n)

-- All bits of an emptied byte are there.
bit_and-emptied : (b : ℕ) → b < 256 → bit_and b 0xff ≡ b
bit_and-emptied b small = bit_and_mask 8 b ∙ mod-eq_of_lt small

-- What was right below `base` is right up to the end of what is programmed there.
pub program-extends :
    (content mem : ℕ → ℕ) (base n : ℕ)
    → ((a : ℕ) → content a < 256)
    → ((a : ℕ) → a < base → mem a ≡ content a)
    → (a : ℕ) → a < base + n
    → (base ≤ a → mem a ≡ 0xff)
    → program base (slice content base n) mem a ≡ content a
program-extends content mem base n small right a p emptied = elim (Bool-cases (ltb a base)) [
  | inl e ↦
      let below : a < base = ground (arith, e) in
      let kept : program base (slice content base n) mem a ≡ mem a = ground (arith, e) in
      kept ∙ right a below
  | inr e ↦
      let above : base ≤ a = ground (arith, e) in
      let within : ltb a (base + length (slice content base n)) ≡ true =
        ground (arith, length-slice content base n, p) in
      let taken : program base (slice content base n) mem a
          ≡ bit_and (byte_at (slice content base n) (a - base)) (mem a) =
        rw (e, within) refl in
      let byte : byte_at (slice content base n) (a - base) ≡ content a =
        byte_at-slice content base n (a - base) (omega (arith, above, p))
        ∙ ap content (omega (arith, above)) in
      taken ∙ rw (byte, emptied above) (bit_and-emptied (content a) (small a))
]

-- Beyond what is programmed all stays as it was.
pub program-beyond :
    (base : ℕ) (bytes : List ℕ) (mem : ℕ → ℕ) (a : ℕ)
    → base + length bytes ≤ a
    → program base bytes mem a ≡ mem a
program-beyond base bytes mem a p = ground (arith, p)

pub block_bound :
    (block n size len : ℕ) → (block + suc n) * size < len + size → block * size + n * size < len
block_bound block n size len h =
    let split : (block + suc n) * size ≡ block * size + n * size + size = grind arith in
    omega (arith, split, h)

pub next_place :
    (block n size len amount at : ℕ)
    → at ≡ block * size
    → amount ≡ min (len - block * size) size
    → 0 < n
    → block * size + n * size < len
    → at + amount ≡ (block + 1) * size
next_place block (suc n) size len amount at here same some_left bound =
    let next : (block + 1) * size ≡ block * size + size = grind arith in
    let one : suc n * size ≡ size + n * size = grind arith in
    ground (arith, here, same, next, one, bound)
next_place block zero size len amount at here same some_left bound =
    let no : ⊥ = omega (arith, some_left) in elim no [ ]

pub within_block :
    (block size len amount a : ℕ)
    → amount ≡ min (len - block * size) size
    → a < (block + 1) * size
    → a < len
    → block * size < len
    → a < block * size + amount
within_block block size len amount a same p q more =
    let next : (block + 1) * size ≡ block * size + size = grind arith in ground (arith, next)
