-- ===== src/Sfdp/Fields.antt =====
-- The fields of firmware/sfdp.hxx and of `deepPowerDown_t` of software/sfdpInternal.hxx against the
-- layout of JEDEC JESD216, which numbers the bits of little-endian doublewords.
use spiflash_programmer.Prelude.{
  [], ◌∷◌, true, ◌&&◌, ltb, zero, suc, ◌+◌, ◌*◌, ◌/◌, ◌%◌, ◌^◌, ◌<◌, ◌≡◌, List, byte_at, some, none,
  arith, ℕ, Bool, bit_or, bit_or_comm, ap, bit_or_disjoint, ◌∙◌, if◌then◌else◌, ◌-◌, bit_and,
  bit_and_mask, bit_and_high, Option, not, false, refl,
}
use spiflash_programmer.Sfdp.Table.{
  uint24_at, table_address, table_length, jedec_parameter_id, capacity, density_value,
  is_exponential, shift_one,
}

abbrev pub doubleword_at : List ℕ → ℕ → ℕ
doubleword_at table i =
    byte_at table i
    + byte_at table (i + 1) * 2 ^ 8
    + byte_at table (i + 2) * 2 ^ 16
    + byte_at table (i + 3) * 2 ^ 24

abbrev pub are_bytes : List ℕ → Bool
are_bytes [] = true
are_bytes (x ∷ xs) = ltb x 256 && are_bytes xs

pub byte_at-small : (xs : List ℕ) → are_bytes xs ≡ true → (i : ℕ) → byte_at xs i < 256
byte_at-small [] h i = ground arith
byte_at-small (x ∷ xs) h zero = ground (arith, h)
byte_at-small (x ∷ xs) h (suc i) = byte_at-small xs (ground (arith, h)) i

joined : (x0 x1 x2 : ℕ) → bit_or x0 (x1 * 256 + x2 * 65536) ≡ bit_or x0 ((x1 + x2 * 256) * 256)
joined x0 x1 x2 = ap (bit_or x0) (omega arith)

uint24_lem :
    (xs : List ℕ) (i : ℕ)
    → byte_at xs i < 256
    → byte_at xs (i + 1) < 256
    → uint24_at xs i ≡ byte_at xs i + byte_at xs (i + 1) * 2 ^ 8 + byte_at xs (i + 2) * 2 ^ 16
unfolding uint24_at
uint24_lem xs i b0 b1 =
    let x0 = byte_at xs i in
    let x1 = byte_at xs (i + 1) in
    let x2 = byte_at xs (i + 2) in
    ground (
      arith,
      bit_or_comm (x2 * 65536) (x1 * 256),
      bit_or_disjoint 16 (x1 * 256) x2 (omega (arith, b1)),
      bit_or_comm (x1 * 256 + x2 * 65536) x0,
      joined x0 x1 x2,
      bit_or_disjoint 8 x0 (x1 + x2 * 256) b0,
    )

-- In a parameter header of bytes the identifier is bits 0 to 7 of the first doubleword below bits 24
-- to 31 of the second, the length counts the doublewords of bits 24 to 31 of the first in bytes, and
-- the address is bits 0 to 23 of the second.
pub parameter_header_fields :
    (header : List ℕ)
    → are_bytes header ≡ true
    → (jedec_parameter_id header
        ≡ doubleword_at header 0 % 256 + doubleword_at header 4 / 2 ^ 24 * 256)
      × (table_length header ≡ doubleword_at header 0 / 2 ^ 24 * 4)
      × (table_address header ≡ doubleword_at header 4 % 2 ^ 24)
unfolding jedec_parameter_id table_length table_address
parameter_header_fields header h =
    let small = byte_at-small header h in
    let b0 = small 0 in
    let b1 = small 1 in
    let b2 = small 2 in
    let b3 = small 3 in
    let b4 = small 4 in
    let b5 = small 5 in
    let b6 = small 6 in
    let b7 = small 7 in
    ground (
      arith,
      b0,
      b1,
      b2,
      b3,
      b4,
      b5,
      b6,
      b7,
      bit_or_comm (byte_at header 7 * 256) (byte_at header 0),
      bit_or_disjoint 8 (byte_at header 0) (byte_at header 7) b0,
      uint24_lem header 4 b4 b5,
    )

density_lem :
    (m x2 x1 x0 : ℕ)
    → x2 < 256
    → x1 < 256
    → x0 < 256
    → bit_or (bit_or (bit_or (m * 2 ^ 24) (x2 * 65536)) (x1 * 256)) x0
      ≡ x0 + x1 * 2 ^ 8 + x2 * 2 ^ 16 + m * 2 ^ 24
density_lem m x2 x1 x0 b2 b1 b0 =
    let high : bit_or (m * 2 ^ 24) (x2 * 65536) ≡ (x2 + m * 256) * 2 ^ 16 = omega (
      arith,
      bit_or_comm (m * 2 ^ 24) (x2 * 65536),
      bit_or_disjoint 24 (x2 * 65536) m (omega (arith, b2)),
    ) in
    let mid : bit_or ((x2 + m * 256) * 2 ^ 16) (x1 * 256) ≡ (x1 + (x2 + m * 256) * 256) * 2 ^ 8 =
      omega (
        arith,
        bit_or_comm ((x2 + m * 256) * 2 ^ 16) (x1 * 256),
        bit_or_disjoint 16 (x1 * 256) (x2 + m * 256) (omega (arith, b1)),
      ) in
    let low : bit_or ((x1 + (x2 + m * 256) * 256) * 2 ^ 8) x0
        ≡ x0 + (x1 + (x2 + m * 256) * 256) * 2 ^ 8 =
      omega (
        arith,
        bit_or_comm ((x1 + (x2 + m * 256) * 256) * 2 ^ 8) x0,
        bit_or_disjoint 8 x0 (x1 + (x2 + m * 256) * 256) b0,
      ) in
    ap (λ n. bit_or (bit_or n (x1 * 256)) x0) high ∙ ap (λ n. bit_or n x0) mid ∙ low ∙ omega arith

in_bytes :
    (b : Bool) (bits : ℕ)
    → elim (if b then some bits else none) as (λ o. Option ℕ) [
      | none ↦ none
      | some n ↦ some (n / 8)
    ]
      ≡ (if b then some (bits / 8) else none)
in_bytes true bits = refl
in_bytes false bits = refl

capacity_cases :
    (e : Bool) (v d : ℕ)
    → e ≡ not (ltb d (2 ^ 31))
    → v ≡ d % 2 ^ 31
    → d < 2 ^ 32
    → (if e
        then elim (if ltb v 32 then some (2 ^ v) else none) as (λ o. Option ℕ) [
          | none ↦ none
          | some n ↦ some (n / 8)
        ]
        else some ((v + 1) / 8))
      ≡ (if ltb d (2 ^ 31)
          then some ((d + 1) / 8)
          else if ltb (d - 2 ^ 31) 32
          then some (2 ^ (d - 2 ^ 31) / 8)
          else none)
capacity_cases true v d h f small =
    let high : ltb d (2 ^ 31) ≡ false = ground (arith, h) in
    let rest : v ≡ d - 2 ^ 31 = ground (arith, h, f, small) in
    rw high
      (in_bytes (ltb v 32) (2 ^ v) ∙ ap (λ n. if ltb n 32 then some (2 ^ n / 8) else none) rest)
capacity_cases false v d h f small =
    let low : ltb d (2 ^ 31) ≡ true = ground (arith, h) in
    let all : v ≡ d = ground (arith, h, f) in rw low (ap (λ n. some ((n + 1) / 8)) all)

-- The second doubleword of a table of bytes is the capacity in bits less one, or, with bit 31 set, its
-- logarithm. The firmware gives the capacity in bytes, and no value where that logarithm is 32 or
-- more.
pub capacity_fields :
    (table : List ℕ)
    → are_bytes table ≡ true
    → capacity table ≡ (
        if ltb (doubleword_at table 4) (2 ^ 31)
        then some ((doubleword_at table 4 + 1) / 8)
        else if ltb (doubleword_at table 4 - 2 ^ 31) 32
        then some (2 ^ (doubleword_at table 4 - 2 ^ 31) / 8)
        else none)
unfolding capacity is_exponential density_value shift_one
capacity_fields table h =
    let small = byte_at-small table h in
    let b4 = small 4 in
    let b5 = small 5 in
    let b6 = small 6 in
    let b7 = small 7 in
    let m : ℕ = byte_at table 7 % 128 in
    let mask : bit_and (byte_at table 7) 0x7f ≡ m = bit_and_mask 7 (byte_at table 7) in
    let top = bit_and_high (byte_at table 7) b7 in
    let value : density_value table ≡ doubleword_at table 4 % 2 ^ 31 =
      ap
        (λ n.
          bit_or (bit_or (bit_or (n * 2 ^ 24) (byte_at table 6 * 65536)) (byte_at table 5 * 256))
            (byte_at table 4))
        mask
      ∙ density_lem m (byte_at table 6) (byte_at table 5) (byte_at table 4) b6 b5 b4
      ∙ omega (arith, b4, b5, b6, b7) in
    let exponential : is_exponential table ≡ not (ltb (doubleword_at table 4) (2 ^ 31)) =
      ground (arith, top, b4, b5, b6, b7) in
    capacity_cases (is_exponential table) (density_value table) (doubleword_at table 4) exponential
      value (omega (arith, b4, b5, b6, b7))
