-- ===== src/Firmware/Startup/Image.antt =====
-- The memory after the start-up code of firmware/startup.cxx.
use spiflash_programmer.Prelude.{
  ℕ, zero, suc, ◌+◌, ◌-◌, ◌%◌, ◌≤◌, ◌≡◌, Bool, ◌&&◌, arith, ltb, leb, ◌==◌, if◌then◌else◌,
}
use spiflash_programmer.Firmware.Startup.{Memory, store, Layout, copy_words, zero_words, initialise}

-- The words of a section.
abbrev pub in_section : ℕ → ℕ → ℕ → Bool
in_section begin end a = leb begin a && ltb a end && (a - begin) % 4 == 0

copy_words_lem :
    (rounds end dst src : ℕ) (memory : Memory) (a : ℕ)
    → end ≤ dst + rounds
    → src + (end - dst) ≤ dst
    → copy_words rounds end dst src memory a
      ≡ (if in_section dst end a then memory (src + (a - dst)) else memory a)
unfolding copy_words store
copy_words_lem zero end dst src memory a enough apart = ground arith
copy_words_lem (suc rounds) end dst src memory a enough apart =
    ground (arith, copy_words_lem rounds end (dst + 4) (src + 4) (store dst (memory src) memory) a)

zero_words_lem :
    (rounds end dst : ℕ) (memory : Memory) (a : ℕ)
    → end ≤ dst + rounds
    → zero_words rounds end dst memory a ≡ (if in_section dst end a then 0 else memory a)
unfolding zero_words store
zero_words_lem zero end dst memory a enough = ground arith
zero_words_lem (suc rounds) end dst memory a enough =
    ground (arith, zero_words_lem rounds end (dst + 4) (store dst 0 memory) a)

-- The linker script puts the copy of the data below the RAM, and the sections one after the other.
pub record IsLinked (l : Layout) : Type 0 where
  pub copy_below : l.end_text + (l.end_data - l.begin_data) ≤ l.begin_data
  pub bss_above : l.end_data ≤ l.begin_bss

-- When the constructors start, every word of the data section is the one of its copy after the
-- program text, every word of the zeroed section is 0, and all other memory is as it was.
pub initialise_lem :
    (l : Layout) (memory : Memory) (a : ℕ)
    → IsLinked l
    → initialise l memory a ≡ (
        if in_section l.begin_bss l.end_bss a
        then 0
        else if in_section l.begin_data l.end_data a
        then memory (l.end_text + (a - l.begin_data))
        else memory a)
unfolding initialise
initialise_lem l memory a h = ground (
  arith,
  zero_words_lem (l.end_bss - l.begin_bss) l.end_bss l.begin_bss
      (copy_words (l.end_data - l.begin_data) l.end_data l.begin_data l.end_text memory) a,
  copy_words_lem (l.end_data - l.begin_data) l.end_data l.begin_data l.end_text memory a,
)
