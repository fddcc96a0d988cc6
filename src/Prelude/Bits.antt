-- ===== src/Prelude/Bits.antt =====
-- `|` of fields that do not overlap and `&` with a low mask, as arithmetic.
use Prim.Native.Nat.{
  ℕ, zero, suc, ◌+◌, ◌-◌, ◌*◌, ◌/◌, ◌%◌, ◌^◌, ◌≤◌, ◌<◌, min, max, digits, bit_and, bit_or,
  bit_and-bitwise, bit_or-bitwise,
}
use mathlib.Core.Path.{◌≡◌, refl, ap}
use native.Mathlib.Nat.{pow-suc, one-le-pow}
use native.Mathlib.Omega.{arith}

-- Fuel beyond the number's own size changes no digit.
module _ (z : ℕ → ℕ) (f : ℕ → ℕ → ℕ) where
  digits_enough : (n m a b : ℕ) → a ≤ n → a ≤ m → digits z f n a b ≡ digits z f m a b
  digits_enough zero zero a b p q = refl
  digits_enough zero (suc m) zero b p q = refl
  digits_enough (suc n) zero zero b p q = refl
  digits_enough (suc n) (suc m) zero b p q = refl
  digits_enough zero (suc m) (suc a) b p q = absurd (omega arith)
  digits_enough (suc n) zero (suc a) b p q = absurd (omega arith)
  digits_enough (suc n) (suc m) (suc a) b p q =
      omega (arith, digits_enough n m (suc a / 2) (b / 2) (omega arith) (omega arith))

or_digit : (a b : ℕ) → bit_or a b ≡ bit_or (a / 2) (b / 2) * 2 + max (a % 2) (b % 2)
or_digit zero b = omega (arith, bit_or-bitwise 0 b, bit_or-bitwise 0 (b / 2))
or_digit (suc a) b = omega (
  arith,
  bit_or-bitwise (suc a) b,
  bit_or-bitwise (suc a / 2) (b / 2),
  digits_enough (λ y. y) max a (suc a / 2) (suc a / 2) (b / 2) (omega arith) (omega arith),
)

and_digit : (a b : ℕ) → bit_and a b ≡ bit_and (a / 2) (b / 2) * 2 + min (a % 2) (b % 2)
and_digit zero b = omega (arith, bit_and-bitwise 0 b, bit_and-bitwise 0 (b / 2))
and_digit (suc a) b = omega (
  arith,
  bit_and-bitwise (suc a) b,
  bit_and-bitwise (suc a / 2) (b / 2),
  digits_enough (λ y. 0) min a (suc a / 2) (suc a / 2) (b / 2) (omega arith) (omega arith),
)

or_comm_below : (n a b : ℕ) → a ≤ n → b ≤ n → bit_or a b ≡ bit_or b a
or_comm_below zero zero zero p q = refl
or_comm_below zero zero (suc b) p q = absurd (omega arith)
or_comm_below zero (suc a) b p q = absurd (omega arith)
or_comm_below (suc n) a b p q =
    omega (
      arith,
      or_digit a b,
      or_digit b a,
      or_comm_below n (a / 2) (b / 2) (omega arith) (omega arith),
    )

pub bit_or_comm : (a b : ℕ) → bit_or a b ≡ bit_or b a
bit_or_comm a b = or_comm_below (a + b) a b (omega arith) (omega arith)

-- By the size of the number, as each digit halves it.
or-zero_below : (n a : ℕ) → a ≤ n → bit_or a 0 ≡ a
or-zero_below n zero h = refl
or-zero_below zero (suc a) h = absurd (omega arith)
or-zero_below (suc n) (suc a) h =
    omega (arith, or_digit (suc a) 0, or-zero_below n (suc a / 2) (omega arith))

and-zero_below : (n a : ℕ) → a ≤ n → bit_and a 0 ≡ 0
and-zero_below n zero h = refl
and-zero_below zero (suc a) h = absurd (omega arith)
and-zero_below (suc n) (suc a) h =
    omega (arith, and_digit (suc a) 0, and-zero_below n (suc a / 2) (omega arith))

shift_once : (q k : ℕ) → q * 2 ^ suc k ≡ 2 * (q * 2 ^ k)
shift_once q k = omega (arith, ap (λ (t : ℕ). q * t) (pow-suc 2 k))

pub bit_or_disjoint : (k r q : ℕ) → r < 2 ^ k → bit_or r (q * 2 ^ k) ≡ r + q * 2 ^ k
bit_or_disjoint zero r q fits = ground (arith, bit_or-bitwise 0 (q * 1))
bit_or_disjoint (suc k) r q fits = ground (
  arith,
  or_digit r (q * 2 ^ suc k),
  shift_once q k,
  pow-suc 2 k,
  bit_or_disjoint k (r / 2) q (omega (arith, pow-suc 2 k)),
)

and_mask_split : (k q r : ℕ) → r < 2 ^ k → bit_and (r + q * 2 ^ k) (2 ^ k - 1) ≡ r
and_mask_split zero q r fits = omega (arith, and-zero_below (r + q * 1) (r + q * 1) (omega arith))
and_mask_split (suc k) q r fits = ground (
  arith,
  and_digit (r + q * 2 ^ suc k) (2 ^ suc k - 1),
  shift_once q k,
  pow-suc 2 k,
  one-le-pow k 2,
  and_mask_split k q (r / 2) (omega (arith, pow-suc 2 k)),
)

pub bit_and_mask : (k a : ℕ) → bit_and a (2 ^ k - 1) ≡ a % 2 ^ k
bit_and_mask k a = ground (arith, one-le-pow k 2, and_mask_split k (a / 2 ^ k) (a % 2 ^ k))

-- Clearing the lowest bit of a 32-bit number.
pub bit_and_even : (a : ℕ) → a < 2 ^ 32 → bit_and a 0xffff_fffe ≡ a - a % 2
bit_and_even a h = omega (arith, and_digit a 0xffff_fffe, bit_and_mask 31 (a / 2))

and_even : (a m : ℕ) → bit_and a (2 * m) ≡ bit_and (a / 2) m * 2
and_even a m =
    let half : 2 * m / 2 ≡ m = omega arith in
    let even : 2 * m % 2 ≡ 0 = omega arith in
    omega (arith, and_digit a (2 * m), ap (λ n. bit_and (a / 2) n * 2) half, even)

-- Bit 7 of a byte.
pub bit_and_high : (a : ℕ) → a < 256 → bit_and a 128 ≡ a / 128 * 128
bit_and_high a fits = omega (
  arith,
  and_even a 64,
  and_even (a / 2) 32,
  and_even (a / 2 / 2) 16,
  and_even (a / 2 / 2 / 2) 8,
  and_even (a / 2 / 2 / 2 / 2) 4,
  and_even (a / 2 / 2 / 2 / 2 / 2) 2,
  and_even (a / 2 / 2 / 2 / 2 / 2 / 2) 1,
  bit_and_mask 1 (a / 2 / 2 / 2 / 2 / 2 / 2 / 2),
  fits,
)
