-- ===== src/Sfdp/Composed.antt =====
-- The functions of firmware/sfdp.cxx and firmware/sfdp.hxx, put together, find what JESD216 says.
use spiflash_programmer.Prelude.{
  ℕ, zero, suc, ◌+◌, ◌*◌, ◌/◌, ◌%◌, ◌^◌, ◌<◌, ◌≡◌, ◌∙◌, ap, refl, min, ◌-◌, true, List, [], ◌∷◌,
  ◌++◌, Option, none, some, arith, replicate, byte_at, ◌==◌, if◌then◌else◌, Bool-cases, inl, inr,
}
use spiflash_programmer.Spi.Stream.{slice}
use spiflash_programmer.Sfdp.{SpiParameters, find_sector}
use spiflash_programmer.Sfdp.Table.{
  table_address, table_length, parameter_headers_count, jedec_parameter_id, is_magic, capacity,
  page_size, erase_type_at, EraseParameters, erase_size, shift_one,
}
use spiflash_programmer.Sfdp.Fields.{
  parameter_header_fields, capacity_fields, are_bytes, byte_at-small, doubleword_at,
}
use spiflash_programmer.Sfdp.Standard.{
  header_words, basic_header, basic_table, density_bytes, erase_of, erase_types, basic_parameters,
  combined, described,
}

-- The parameters in a basic table; `none` if a size in it has no value of 32 bits.
abbrev pub taken_apart : List ℕ → Option SpiParameters
taken_apart table = combined (page_size table) (capacity table) (
    find_sector
      (erase_type_at table 0
        ∷ erase_type_at table 1
        ∷ erase_type_at table 2
        ∷ erase_type_at table 3
        ∷ [])
      (byte_at table 1))

-- The `idx`th parameter header, after the 8 bytes of the SFDP header.
abbrev pub header_at : (ℕ → ℕ) → ℕ → List ℕ
header_at tables idx = slice tables (8 + 8 * idx) 8

-- The first of `left` headers, from `idx` on, that is a basic table's.
unfoldable pub first_found : (ℕ → ℕ) → ℕ → ℕ → Option (List ℕ)
first_found tables zero idx = none
first_found tables (suc left) idx =
    if jedec_parameter_id (header_at tables idx) == 0xff00
    then some (header_at tables idx)
    else first_found tables left (idx + 1)

-- The 64 bytes of a table that may be shorter, and then ends in zeros.
abbrev pub table_found : (ℕ → ℕ) → List ℕ → List ℕ
table_found tables header =
    slice tables (table_address header) (min 64 (table_length header))
    ++ replicate (64 - min 64 (table_length header)) 0

-- What the firmware's own functions make of the tables.
unfoldable pub composed : (ℕ → ℕ) → Option (Option SpiParameters)
composed tables =
    if is_magic (slice tables 0 8)
    then elim (first_found tables (parameter_headers_count (slice tables 0 8)) 0) [
      | none ↦ some none
      | some header ↦ elim (taken_apart (table_found tables header)) [
        | none ↦ none
        | some found ↦ some (some found)
      ]
    ]
    else some none

pub slice-are_bytes :
    (tables : ℕ → ℕ) → ((a : ℕ) → tables a < 256) → (a n : ℕ) → are_bytes (slice tables a n) ≡ true
slice-are_bytes tables small a zero = refl
slice-are_bytes tables small a (suc n) =
    ground (arith, slice-are_bytes tables small (a + 1) n, small a)

zeros-are_bytes : (n : ℕ) → are_bytes (replicate n 0) ≡ true
zeros-are_bytes zero = refl
zeros-are_bytes (suc n) = zeros-are_bytes n

append-are_bytes :
    (xs ys : List ℕ) → are_bytes xs ≡ true → are_bytes ys ≡ true → are_bytes (xs ++ ys) ≡ true
append-are_bytes [] ys p q = q
append-are_bytes (x ∷ xs) ys p q =
    let rest = append-are_bytes xs ys (ground (arith, p)) q in ground (arith, p, rest)

-- The pairs of the erase types.
abbrev pairs : List EraseParameters → List (ℕ × ℕ)
pairs [] = []
pairs (type ∷ types) = (type.erase_size_exponent, type.opcode) ∷ pairs types

sector_found :
    (types : List EraseParameters) (opcode : ℕ)
    → find_sector types opcode ≡ erase_of opcode (pairs types)
unfolding find_sector erase_of erase_size shift_one
sector_found [] opcode = refl
sector_found (type ∷ types) opcode = ground (arith, sector_found types opcode)

parameters_found :
    (table : List ℕ) → are_bytes table ≡ true → taken_apart table ≡ basic_parameters table
unfolding erase_type_at page_size
parameters_found table h =
    let size = capacity_fields table h in
    let sector =
      sector_found
        (erase_type_at table 0
          ∷ erase_type_at table 1
          ∷ erase_type_at table 2
          ∷ erase_type_at table 3
          ∷ [])
        (byte_at table 1) in
    let low : byte_at table 40 / 16 ≡ doubleword_at table 40 % 256 / 16 =
      omega (arith, byte_at-small table h 40) in
    ap
      (λ c. combined (page_size table) c (
        find_sector
          (erase_type_at table 0
            ∷ erase_type_at table 1
            ∷ erase_type_at table 2
            ∷ erase_type_at table 3
            ∷ [])
          (byte_at table 1)))
      size
    ∙ ap (λ c. combined (page_size table) (density_bytes table) c) sector
    ∙ ap
        (λ n.
          combined (2 ^ n) (density_bytes table) (erase_of (byte_at table 1) (erase_types table)))
        low

module _ (tables : ℕ → ℕ) (small : (a : ℕ) → tables a < 256) where
  table_same :
      (idx : ℕ)
      → table_found tables (header_at tables idx) ≡ basic_table tables (header_words tables idx)
  table_same idx =
      let (id, size, place) =
        parameter_header_fields (header_at tables idx)
          (slice-are_bytes tables small (8 + 8 * idx) 8) in
      rw (size, place) refl

  table-are_bytes : (words : ℕ × ℕ) → are_bytes (basic_table tables words) ≡ true
  table-are_bytes words =
      let n : ℕ = min 64 (words.0 / 2 ^ 24 * 4) in
      append-are_bytes (slice tables (words.1 % 2 ^ 24) n) (replicate (64 - n) 0)
        (slice-are_bytes tables small (words.1 % 2 ^ 24) n) (zeros-are_bytes (64 - n))

  headers_found :
      (left idx : ℕ)
      → elim (first_found tables left idx) as (λ x. Option (Option SpiParameters)) [
        | none ↦ some none
        | some header ↦ elim (taken_apart (table_found tables header)) [
          | none ↦ none
          | some found ↦ some (some found)
        ]
      ]
        ≡ elim (basic_header tables left idx) as (λ x. Option (Option SpiParameters)) [
          | none ↦ some none
          | some words ↦ elim (basic_parameters (basic_table tables words)) [
            | none ↦ none
            | some found ↦ some (some found)
          ]
        ]
  unfolding first_found basic_header
  headers_found zero idx = refl
  headers_found (suc left) idx =
      let (id, size, place) =
        parameter_header_fields (header_at tables idx)
          (slice-are_bytes tables small (8 + 8 * idx) 8) in
      let words : ℕ × ℕ = header_words tables idx in
      elim (Bool-cases (words.0 % 256 + words.1 / 2 ^ 24 * 256 == 0xff00)) [
        | inl basic ↦
            rw (id, basic)
              (ap
                (λ x. elim x as (λ o. Option (Option SpiParameters)) [
                  | none ↦ none
                  | some found ↦ some (some found)
                ])
                (ap taken_apart (table_same idx)
                  ∙ parameters_found (basic_table tables words) (table-are_bytes words)))
        | inr other ↦ rw (id, other) (headers_found left (idx + 1))
      ]

  signature_found :
      is_magic (slice tables 0 8) ≡ (doubleword_at (slice tables 0 8) 0 == 0x5044_4653)
  unfolding is_magic
  signature_found = ground (arith, small 0, small 1, small 2, small 3)

  pub composed-described : composed tables ≡ described tables
  unfolding composed described parameter_headers_count
  composed-described = rw (signature_found, headers_found (tables 6 + 1) 0) refl
