-- ===== src/Firmware/Startup.antt =====
-- firmware/startup.cxx: the vector table, and what `irqReset` does to the memory.
pub mod Image
pub mod Vectors
use spiflash_programmer.Prelude.{
  ℕ, zero, suc, ◌+◌, ◌-◌, List, [], ◌∷◌, Option, none, some, ltb, ◌==◌, if◌then◌else◌,
}

pub data Handler : Type 0 where
  irq_reset irq_nmi irq_hard_fault irq_empty_def irq_usb : Handler

abbrev reserved : Option Handler
reserved = none

abbrev waits : Option Handler
waits = some irq_empty_def

-- `nvicTable.vectorTable`, with `none` for a null pointer: the array has 155 entries, and
-- 154 are written out.
unfoldable pub vector_table : List (Option Handler)
vector_table =
    some irq_reset
    ∷ some irq_nmi
    ∷ some irq_hard_fault
    ∷ waits
    ∷ waits
    ∷ waits
    ∷ reserved
    ∷ reserved
    ∷ reserved
    ∷ reserved
    ∷ waits
    ∷ waits
    ∷ reserved
    ∷ waits
    ∷ waits
    ∷ waits
    ∷ waits
    ∷ waits
    ∷ waits
    ∷ waits
    ∷ waits
    ∷ waits
    ∷ waits
    ∷ waits
    ∷ waits
    ∷ waits
    ∷ waits
    ∷ waits
    ∷ waits
    ∷ waits
    ∷ waits
    ∷ waits
    ∷ waits
    ∷ waits
    ∷ waits
    ∷ waits
    ∷ waits
    ∷ waits
    ∷ waits
    ∷ waits
    ∷ waits
    ∷ waits
    ∷ waits
    ∷ waits
    ∷ waits
    ∷ waits
    ∷ waits
    ∷ waits
    ∷ waits
    ∷ waits
    ∷ waits
    ∷ waits
    ∷ waits
    ∷ waits
    ∷ waits
    ∷ waits
    ∷ waits
    ∷ reserved
    ∷ waits
    ∷ some irq_usb
    ∷ waits
    ∷ waits
    ∷ waits
    ∷ waits
    ∷ waits
    ∷ waits
    ∷ waits
    ∷ reserved
    ∷ reserved
    ∷ waits
    ∷ waits
    ∷ waits
    ∷ waits
    ∷ waits
    ∷ waits
    ∷ waits
    ∷ waits
    ∷ waits
    ∷ waits
    ∷ reserved
    ∷ reserved
    ∷ reserved
    ∷ reserved
    ∷ waits
    ∷ waits
    ∷ waits
    ∷ waits
    ∷ reserved
    ∷ reserved
    ∷ reserved
    ∷ reserved
    ∷ reserved
    ∷ reserved
    ∷ reserved
    ∷ reserved
    ∷ reserved
    ∷ reserved
    ∷ reserved
    ∷ reserved
    ∷ reserved
    ∷ reserved
    ∷ reserved
    ∷ reserved
    ∷ reserved
    ∷ reserved
    ∷ reserved
    ∷ reserved
    ∷ waits
    ∷ waits
    ∷ waits
    ∷ waits
    ∷ waits
    ∷ waits
    ∷ waits
    ∷ waits
    ∷ waits
    ∷ waits
    ∷ waits
    ∷ waits
    ∷ waits
    ∷ waits
    ∷ waits
    ∷ reserved
    ∷ reserved
    ∷ waits
    ∷ waits
    ∷ waits
    ∷ waits
    ∷ waits
    ∷ reserved
    ∷ reserved
    ∷ waits
    ∷ waits
    ∷ waits
    ∷ waits
    ∷ waits
    ∷ waits
    ∷ waits
    ∷ waits
    ∷ waits
    ∷ waits
    ∷ waits
    ∷ waits
    ∷ waits
    ∷ waits
    ∷ waits
    ∷ waits
    ∷ waits
    ∷ waits
    ∷ waits
    ∷ waits
    ∷ waits
    ∷ waits
    ∷ waits
    ∷ reserved
    ∷ []

-- The words of the memory, by their addresses in bytes.
abbrev pub Memory : Type 0
Memory = ℕ → ℕ

unfoldable pub store : ℕ → ℕ → Memory → Memory
store address value memory a = if a == address then value else memory a

-- The addresses that the linker script provides.
pub record Layout : Type 0 where
  pub end_text : ℕ
  pub begin_data : ℕ
  pub end_data : ℕ
  pub begin_bss : ℕ
  pub end_bss : ℕ

-- `for (; dst < end; ++dst, ++src) *dst = *src;`, of at most so many rounds.
unfoldable pub copy_words : ℕ → ℕ → ℕ → ℕ → Memory → Memory
copy_words zero end dst src memory = memory
copy_words (suc rounds) end dst src memory =
    let rest = copy_words rounds end (dst + 4) (src + 4) (store dst (memory src) memory) in
    if ltb dst end then rest else memory

-- `for (; dst < end; ++dst) *dst = 0;`
unfoldable pub zero_words : ℕ → ℕ → ℕ → Memory → Memory
zero_words zero end dst memory = memory
zero_words (suc rounds) end dst memory =
    let rest = zero_words rounds end (dst + 4) (store dst 0 memory) in
    if ltb dst end then rest else memory

-- `for (; ctor != &endCtors; ++ctor) (*ctor)();`
unfoldable pub run_constructors : List (Memory → Memory) → Memory → Memory
run_constructors [] memory = memory
run_constructors (ctor ∷ ctors) memory = run_constructors ctors (ctor memory)

-- The memory that the constructors start with. A section's size bounds the rounds.
unfoldable pub initialise : Layout → Memory → Memory
initialise l memory =
    zero_words (l.end_bss - l.begin_bss) l.end_bss l.begin_bss
      (copy_words (l.end_data - l.begin_data) l.end_data l.begin_data l.end_text memory)

-- `irqReset`: the memory at the start of `run`, which does not return. What the constructors leave of
-- the memory is a parameter.
unfoldable pub memory_at_run : Layout → List (Memory → Memory) → Memory → Memory
memory_at_run l ctors memory = run_constructors ctors (initialise l memory)
