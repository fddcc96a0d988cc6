-- ===== src/Flash/Agree.antt =====
-- The two versions of `log2` of firmware/flash.cxx agree.
use spiflash_programmer.Prelude.{
  Bool-cases, leb, inl, inr, ℕ, zero, suc, ◌-◌, ◌*◌, ◌^◌, ◌<◌, ◌≤◌, ◌≡◌, refl, arith,
}
use spiflash_programmer.Flash.Log2.{log2, log2_portable}
use spiflash_programmer.Flash.Capacity.{log2_portable_bounds}
use native.Mathlib.Nat.{pow-suc, pow-le-pow_right}

-- The compiler's documentation of `__builtin_clz`: the number of leading zeros of a number of 32
-- bits that is not 0.
abbrev pub CountsZeros : (ℕ → ℕ) → Type 0
CountsZeros clz =
    (v : ℕ) → 0 < v → v < 2 ^ 32 → (clz v < 32) × (2 ^ (31 - clz v) ≤ v) × (v < 2 ^ (32 - clz v))

not_below : (v a b : ℕ) → v < 2 ^ a → 2 ^ b ≤ 2 * v → b ≤ a
not_below v a b q r = elim (Bool-cases (leb b a)) [
  | inl below ↦ ground arith
  | inr above ↦
      let bigger : 2 ^ suc a ≤ 2 ^ b = pow-le-pow_right (omega arith) (ground arith) in
      absurd (omega (arith, pow-suc 2 a, bigger))
]

-- Only one power of two is above a number and at most twice it.
one_power : (v a b : ℕ) → 2 ^ a ≤ 2 * v → v < 2 ^ a → 2 ^ b ≤ 2 * v → v < 2 ^ b → a ≡ b
one_power v a b p q r s = omega (arith, not_below v a b q r, not_below v b a s p)

-- Both versions of `log2` give the same number for every 32-bit value, 0 included.
pub log2_agree : (clz : ℕ → ℕ) (v : ℕ) → CountsZeros clz → v < 2 ^ 32 → log2 clz v ≡ log2_portable v
unfolding log2
log2_agree clz zero counts fits = unfold log2_portable in refl
log2_agree clz (suc v) counts fits =
    let (a, b, c) = counts (suc v) (omega arith) fits in
    let twice : 2 ^ (32 - clz (suc v)) ≤ 2 * suc v =
      let e : 32 - clz (suc v) ≡ suc (31 - clz (suc v)) = omega arith in
      rw e (omega (arith, pow-suc 2 (31 - clz (suc v)))) in
    let (d, e) = log2_portable_bounds (suc v) (omega arith) fits in
    let same = one_power (suc v) (32 - clz (suc v)) (log2_portable (suc v)) twice c d e in
    ground (arith, same)
