-- ===== src/Sfdp/Standard.antt =====
-- What a chip's tables say by JEDEC JESD216, in doublewords and bytes of the tables alone.
use spiflash_programmer.Prelude.{
  ℕ, zero, suc, ◌+◌, ◌*◌, ◌/◌, ◌%◌, ◌^◌, ◌-◌, min, List, [], ◌∷◌, ◌++◌, Option, none, some, ltb,
  ◌==◌, if◌then◌else◌, replicate, byte_at,
}
use spiflash_programmer.Spi.Stream.{slice}
use spiflash_programmer.Sfdp.{SpiParameters}
use spiflash_programmer.Sfdp.Fields.{doubleword_at}

-- The header of parameter table number `idx`, after the 8 bytes of the SFDP header.
abbrev pub header_words : (ℕ → ℕ) → ℕ → ℕ × ℕ
header_words tables idx =
    (doubleword_at (slice tables (8 + 8 * idx) 8) 0, doubleword_at (slice tables (8 + 8 * idx) 8) 4)

-- The first of `left` headers, from `idx` on, with the identifier FF00h of the basic table: its low
-- byte is the first doubleword's lowest, and its high byte the second one's highest.
unfoldable pub basic_header : (ℕ → ℕ) → ℕ → ℕ → Option (ℕ × ℕ)
basic_header tables zero idx = none
basic_header tables (suc left) idx =
    let words = header_words tables idx in
    if words.0 % 256 + words.1 / 2 ^ 24 * 256 == 0xff00
    then some words
    else basic_header tables left (idx + 1)

-- The 64 bytes of a table that may be shorter, and then ends in zeros: the header has the number of its
-- doublewords and its address.
abbrev pub basic_table : (ℕ → ℕ) → ℕ × ℕ → List ℕ
basic_table tables words =
    slice tables (words.1 % 2 ^ 24) (min 64 (words.0 / 2 ^ 24 * 4))
    ++ replicate (64 - min 64 (words.0 / 2 ^ 24 * 4)) 0

-- The bytes that the second doubleword stands for: the number of bits less one, or, with bit 31 set,
-- the logarithm of the number of bits.
abbrev pub density_bytes : List ℕ → Option ℕ
density_bytes table =
    if ltb (doubleword_at table 4) (2 ^ 31)
    then some ((doubleword_at table 4 + 1) / 8)
    else if ltb (doubleword_at table 4 - 2 ^ 31) 32
    then some (2 ^ (doubleword_at table 4 - 2 ^ 31) / 8)
    else none

-- Erase types have the logarithm of a size and an opcode: the first one with an opcode, or zeros.
unfoldable pub erase_of : ℕ → List (ℕ × ℕ) → Option (ℕ × ℕ)
erase_of opcode [] = some (0, 0)
erase_of opcode ((exponent, code) ∷ types) =
    if code == opcode
    then if ltb exponent 32 then some (opcode, 2 ^ exponent) else none
    else erase_of opcode types

abbrev pub erase_types : List ℕ → List (ℕ × ℕ)
erase_types table =
    (byte_at table 28, byte_at table 29)
    ∷ (byte_at table 30, byte_at table 31)
    ∷ (byte_at table 32, byte_at table 33)
    ∷ (byte_at table 34, byte_at table 35)
    ∷ []

abbrev pub combined : ℕ → Option ℕ → Option (ℕ × ℕ) → Option SpiParameters
combined page none sector = none
combined page (some size) none = none
combined page (some size) (some (opcode, sector)) = some (record {
  page_size = page;
  sector_size = sector;
  capacity = size;
  sector_erase_opcode = opcode;
})

-- The 4 KiB erase's opcode is the second byte, and bits 4 to 7 of the 11th doubleword are the page
-- size's logarithm.
abbrev pub basic_parameters : List ℕ → Option SpiParameters
basic_parameters table =
    combined (2 ^ (doubleword_at table 40 % 256 / 16)) (density_bytes table)
      (erase_of (byte_at table 1) (erase_types table))

-- What a chip says of itself: `some none` if it has no basic table, and `none` if it has one with a
-- size of no value. The signature is 50444653h, and byte 6 the number of headers less one.
unfoldable pub described : (ℕ → ℕ) → Option (Option SpiParameters)
described tables =
    if doubleword_at (slice tables 0 8) 0 == 0x5044_4653
    then elim (basic_header tables (tables 6 + 1) 0) [
      | none ↦ some none
      | some words ↦ elim (basic_parameters (basic_table tables words)) [
        | none ↦ none
        | some found ↦ some (some found)
      ]
    ]
    else some none
