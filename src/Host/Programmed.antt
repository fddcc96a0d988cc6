-- ===== src/Host/Programmed.antt =====
-- Writing a whole file: `writeNormalDevice` and `writeTinyDevice` of software/flashprog.cxx, and the
-- choice that `writeDevice` makes between them.
use spiflash_programmer.Host.Returns.{Returns}
use spiflash_programmer.Host.Written.{IsStoring}
use spiflash_programmer.Host.Memory.{stored, listed_at}
use spiflash_programmer.Protocol.Layout.{ListDevice}
use spiflash_programmer.Host.Erasing.{round_up}
use native.Mathlib.Nat.{div-add-mod', mod-lt}
use spiflash_programmer.Prelude.{
  zero, suc, ◌+◌, ◌*◌, Bool-cases, inl, inr, ℕ, ◌<◌, ◌≤◌, ◌^◌, ◌≡◌, arith, ◌/◌, ◌%◌, ◌==◌,
}
use spiflash_programmer.Host.Session.{HostEnv, History}

le-mul : (q s : ℕ) → 0 < s → q ≤ q * s
le-mul q (suc s) h = let one : q * suc s ≡ q + q * s = grind arith in omega (arith, one)
le-mul q zero h = let no : ⊥ = omega (arith, h) in elim no [ ]

pub round_up_lem :
    (len size : ℕ)
    → 0 < size
    → len < 2 ^ 32
    → (round_up len size * size < len + size)
      × (len ≤ round_up len size * size)
      × (round_up len size ≤ len)
round_up_lem len size some_size small =
    let q = len / size in
    let whole = div-add-mod' len size in
    let rest = mod-lt len some_size in
    let few = le-mul q size some_size in
    elim (Bool-cases (len % size == 0)) [
      | inl e ↦
          let none_left : len % size ≡ 0 = ground (arith, e) in
          let same : round_up len size ≡ q = ground (arith, e, few, whole) in
          rw same (
            omega (arith, whole, some_size),
            omega (arith, whole, none_left),
            omega (arith, whole, few),
          )
      | inr e ↦
          let left : 0 < len % size = ground (arith, e) in
          let below : q + 1 ≤ len = omega (arith, whole, few, left) in
          let same : round_up len size ≡ q + 1 = ground (arith, e, below) in
          let more : (q + 1) * size ≡ q * size + size = grind (arith) in
          rw (same, more) (omega (arith, whole, left), omega (arith, whole, rest), below)
    ]

module _ (env : HostEnv) (content mem : ℕ → ℕ) (info : ListDevice) (address : ℕ)
    (h : IsStoring env content) where
  abbrev IsEmpty : ℕ → History → Type 0
  IsEmpty len log = (a : ℕ) → a < len → stored (listed_at address info) mem log a ≡ 0xff
