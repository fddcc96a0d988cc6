-- ===== src/Spi/Clock.antt =====
-- What `spiSetClock` of firmware/spi.cxx makes of a speed in MHz.
use spiflash_programmer.Prelude.{
  all_below, all_below_lem, zero, suc, ltb→lt, Bool, leb, Bool-cases, ℕ, ◌≡◌, ◌<◌, ◌≤◌, ◌*◌, refl,
  true, arith, ltb, ◌==◌, ◌%◌, ◌+◌, Bool, Bool-cases, suc, ◌&&◌, leb, inl, ltb→lt, inr,
}
use spiflash_programmer.Spi.{clock_divider}

-- What the two theorems say of a speed up to 40 MHz, as a test.
abbrev is_even_divider : ℕ → Bool
is_even_divider d = leb 2 d && leb d 160 && d % 2 == 0

abbrev is_nearest : ℕ → ℕ → Bool
is_nearest mhz d = leb (d * mhz) 80 && ltb 80 ((d + 2) * mhz)

slow_dividers : all_below (λ mhz. is_even_divider (clock_divider mhz)) 41 ≡ true
unfolding clock_divider
slow_dividers = refl

slow_nearest : all_below (λ n. is_nearest (n + 1) (clock_divider (n + 1))) 40 ≡ true
unfolding clock_divider
slow_nearest = refl

-- The divider is one that the controller takes, an even number from 2 to 160, for every speed.
pub clock_divider_bounds :
    (mhz : ℕ) → (2 ≤ clock_divider mhz) × (clock_divider mhz ≤ 160) × (clock_divider mhz % 2 ≡ 0)
unfolding clock_divider
clock_divider_bounds mhz = elim (Bool-cases (ltb mhz 41)) [
  | inl slow ↦
      let ok =
        all_below_lem (λ m. is_even_divider (clock_divider m)) 41 mhz slow_dividers
          (ltb→lt mhz 41 slow) in
      ground (arith, ok)
  | inr fast ↦
      let quick : clock_divider mhz ≡ 2 = ground arith in rw quick (omega arith, omega arith, refl)
]

-- For a speed from 1 to 40 MHz the divider is the largest even one whose clock, of 80 MHz over the
-- divider, is not slower than the speed asked for. It may be faster.
pub clock_divider_nearest :
    (mhz : ℕ)
    → 0 < mhz
    → mhz ≤ 40
    → (clock_divider mhz % 2 ≡ 0)
      × (clock_divider mhz * mhz ≤ 80)
      × (80 < (clock_divider mhz + 2) * mhz)
clock_divider_nearest zero positive slow = absurd (omega arith)
clock_divider_nearest (suc m) positive slow =
    let e : m + 1 ≡ suc m = omega arith in
    let ok : is_nearest (m + 1) (clock_divider (m + 1)) ≡ true =
      all_below_lem (λ n. is_nearest (n + 1) (clock_divider (n + 1))) 40 m slow_nearest
        (omega arith) in
    let (least, most, even) = clock_divider_bounds (suc m) in
    (even, ground (arith, ok, e), ground (arith, ok, e))
