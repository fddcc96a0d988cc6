-- ===== src/Sfdp/Table.antt =====
-- firmware/sfdp.hxx: the SFDP structures, read out of the bytes that are copied over them.
-- software/sfdpInternal.hxx declares the same structures for the host.
use spiflash_programmer.Prelude.{
  ℕ, ◌+◌, ◌*◌, ◌/◌, ◌^◌, Bool, not, ◌&&◌, List, Option, none, some, bit_and, bit_or, byte_at, ltb,
  ◌==◌, if◌then◌else◌, ◌<<<◌, ◌>>>◌,
}

-- `uint24_t` at an offset.
unfoldable pub uint24_at : List ℕ → ℕ → ℕ
uint24_at bytes i =
    bit_or (bit_or (byte_at bytes (i + 2) <<< 16) (byte_at bytes (i + 1) <<< 8)) (byte_at bytes i)

-- `sfdpHeader_t`, 8 bytes.
unfoldable pub is_magic : List ℕ → Bool
is_magic header =
    byte_at header 0 == b'S'
    && byte_at header 1 == b'F'
    && byte_at header 2 == b'D'
    && byte_at header 3 == b'P'

unfoldable pub parameter_headers_count : List ℕ → ℕ
parameter_headers_count header = byte_at header 6 + 1

-- `parameterTableHeader_t`, 8 bytes.
unfoldable pub jedec_parameter_id : List ℕ → ℕ
jedec_parameter_id header = bit_or (byte_at header 7 <<< 8) (byte_at header 0)

unfoldable pub table_length : List ℕ → ℕ
table_length header = byte_at header 3 * 4

unfoldable pub table_address : List ℕ → ℕ
unfolding uint24_at
table_address header = uint24_at header 4

-- `1U << n`, which has no value for a shift by 32 bits or more.
unfoldable pub shift_one : ℕ → Option ℕ
shift_one n = if ltb n 32 then some (2 ^ n) else none

-- `memoryDensity_t`, at offset 4 of `basicParameterTable_t`.
unfoldable pub is_exponential : List ℕ → Bool
is_exponential table = not (bit_and (byte_at table 7) 0x80 == 0)

unfoldable pub density_value : List ℕ → ℕ
density_value table =
    bit_or
      (bit_or (bit_or (bit_and (byte_at table 7) 0x7f <<< 24) (byte_at table 6 <<< 16))
        (byte_at table 5 <<< 8))
      (byte_at table 4)

unfoldable pub capacity : List ℕ → Option ℕ
unfolding is_exponential density_value shift_one
capacity table =
    if is_exponential table
    then elim (shift_one (density_value table)) [ none ↦ none | some bits ↦ some (bits / 8) ]
    else some ((density_value table + 1) / 8)

pub record EraseParameters : Type 0 where
  pub erase_size_exponent : ℕ
  pub opcode : ℕ

-- `eraseTypes[i]`, of two bytes from offset 28 on.
unfoldable pub erase_type_at : List ℕ → ℕ → EraseParameters
erase_type_at table i = record {
  erase_size_exponent = byte_at table (28 + 2 * i);
  opcode = byte_at table (29 + 2 * i);
}

unfoldable pub erase_size : EraseParameters → Option ℕ
unfolding shift_one
erase_size type = shift_one type.erase_size_exponent

-- `programmingAndChipEraseTiming_t::pageSize`, at offset 40.
unfoldable pub page_size : List ℕ → ℕ
page_size table = 2 ^ (byte_at table 40 >>> 4)
