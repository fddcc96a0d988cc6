-- ===== src/Flash/Log2.antt =====
-- `log2` of firmware/flash.cxx, in both of its versions.
use spiflash_programmer.Prelude.{ℕ, ◌+◌, ◌-◌, ◌*◌, ◌^◌, u8, u32, leb, ◌==◌, if◌then◌else◌}

-- With the compiler's count of leading zeros.
unfoldable pub log2 : (ℕ → ℕ) → ℕ → ℕ
log2 clz value = if value == 0 then 255 else u8 (32 + 2 ^ 32 - u8 (clz value))

-- The version for other compilers: five halvings of the range, each of which shifts the leading
-- one up. `value` and `result` are the function's variables.
unfoldable pub portable_step : ℕ → ℕ → ℕ × ℕ → ℕ × ℕ
portable_step limit width (result, value) =
    if leb value limit then (u8 (result + width), u32 (value * 2 ^ width)) else (result, value)

unfoldable pub log2_portable : ℕ → ℕ
unfolding portable_step
log2_portable value =
    if value == 0
    then 255
    else let s4 = portable_step 0x0000_ffff 16 (0, value) in
      let s3 = portable_step 0x00ff_ffff 8 s4 in
      let s2 = portable_step 0x0fff_ffff 4 s3 in
      let s1 = portable_step 0x3fff_ffff 2 s2 in
      let result = if leb s1.1 0x7fff_ffff then u8 (s1.0 + 1) else s1.0 in u8 (32 + 2 ^ 32 - result)
