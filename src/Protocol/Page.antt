-- ===== src/Protocol/Page.antt =====
-- `page_t` of common/include/usbProtocol.hxx: a page number in three bytes, low byte first.
use spiflash_programmer.Prelude.{
  ℕ, ◌+◌, ◌*◌, ◌%◌, ◌^◌, ◌<◌, bit_or, ◌≡◌, arith, u8, u32, ◌<<<◌, ◌>>>◌, bit_or_disjoint,
}

pub record Page : Type 0 where
  pub byte0 : ℕ
  pub byte1 : ℕ
  pub byte2 : ℕ

unfoldable pub page_of : ℕ → Page
page_of n = record { byte0 = u8 n; byte1 = u8 (n >>> 8); byte2 = u8 (n >>> 16) }

unfoldable pub page_value : Page → ℕ
page_value p = bit_or (bit_or p.byte0 (p.byte1 <<< 8)) (u32 (p.byte2 <<< 16))

unfoldable pub page_next : Page → Page
page_next p = page_of (u32 (page_value p + 1))

-- Each member of the array is a `uint8_t`.
abbrev pub IsPage : Page → Type 0
IsPage p = (p.byte0 < 256) × (p.byte1 < 256) × (p.byte2 < 256)

pub page_value_sum :
    (p : Page) → IsPage p → page_value p ≡ p.byte0 + p.byte1 * 256 + p.byte2 * 65536
unfolding page_value
page_value_sum p h = ground (
  arith,
  bit_or_disjoint 8 p.byte0 p.byte1 h.0,
  bit_or_disjoint 16 (p.byte0 + p.byte1 * 256) p.byte2 (omega arith),
)

pub page_of-IsPage : (n : ℕ) → IsPage (page_of n)
unfolding page_of
page_of-IsPage n = omega arith

-- A number that goes through `page_t` comes back as its low 24 bits.
pub page_value-page_of : (n : ℕ) → page_value (page_of n) ≡ n % 2 ^ 24
page_value-page_of n = omega (arith, page_value_sum (page_of n) (page_of-IsPage n), bytes)
  where
    bytes : (page_of n).byte0 + (page_of n).byte1 * 256 + (page_of n).byte2 * 65536 ≡ n % 2 ^ 24
    bytes = unfold page_of in omega arith

pub page_value-lt : (p : Page) → IsPage p → page_value p < 2 ^ 24
page_value-lt p h = omega (arith, page_value_sum p h)

-- Three bytes come back from the number that they stand for.
pub page_of-page_value : (p : Page) → IsPage p → page_of (page_value p) ≡ p
unfolding page_of
page_of-page_value p h = ground (arith, page_value_sum p h)

-- `++` counts modulo 2 ^ 24.
pub page_value-page_next :
    (p : Page) → IsPage p → page_value (page_next p) ≡ (page_value p + 1) % 2 ^ 24
unfolding page_next
page_value-page_next p h =
    omega (arith, page_value-page_of (u32 (page_value p + 1)), page_value-lt p h)
