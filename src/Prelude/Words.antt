-- ===== src/Prelude/Words.antt =====
-- Casts to the fixed widths and subtraction on them, with the wrap written out.
use Prim.Native.Nat.{ℕ, ◌+◌, ◌-◌, ◌/◌, ◌*◌, ◌%◌, ◌^◌}

abbrev pub u8 : ℕ → ℕ
u8 n = n % 2 ^ 8

abbrev pub u16 : ℕ → ℕ
u16 n = n % 2 ^ 16

abbrev pub u32 : ℕ → ℕ
u32 n = n % 2 ^ 32

abbrev pub sub16 : ℕ → ℕ → ℕ
sub16 a b = (a + 2 ^ 16 - b) % 2 ^ 16

abbrev pub sub32 : ℕ → ℕ → ℕ
sub32 a b = (a + 2 ^ 32 - b) % 2 ^ 32

infixl 75 ◌<<<◌ ◌>>>◌
abbrev pub ◌<<<◌ : ℕ → ℕ → ℕ
x <<< k = x * 2 ^ k

abbrev pub ◌>>>◌ : ℕ → ℕ → ℕ
x >>> k = x / 2 ^ k
