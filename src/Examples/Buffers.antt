-- ===== src/Examples/Buffers.antt =====
-- A read of a chip with a page buffer.
use spiflash_programmer.Prelude.{
  ℕ, ◌+◌, ◌-◌, ◌*◌, ◌%◌, List, [], ◌∷◌, Option, none, some, ◌==◌, ltb, if◌then◌else◌, length,
  byte_at,
}
use spiflash_programmer.Machine.{World, target}
use spiflash_programmer.Machine.Action.{Env}
use spiflash_programmer.Spi.Transaction.{transaction}
use spiflash_programmer.Spi.Buffer.{loaded}
use spiflash_programmer.Examples.Data.{memory_env, targeted, example_chip}

-- The column after a command, and how many bytes since.
abbrev column : List ℕ → ℕ
column [] = 0
column (b ∷ bytes) =
    if length bytes == 3 then byte_at bytes 1 * 256 + byte_at bytes 0 else column bytes + 1

-- The bytes of a page count up from its number.
abbrev counting : ℕ → ℕ → ℕ
counting page a = (page + a) % 256

abbrev page_byte : Option ℕ → ℕ → ℕ
page_byte none a = 0xff
page_byte (some page) a = counting page a

-- Short transactions ask for the status: the chip is ready.
abbrev paged_answer : Option (List ℕ) → Option ℕ → ℕ
paged_answer none page = 0xff
paged_answer (some bytes) page =
    if ltb (length bytes) 5 then 0 else page_byte page (column bytes - 1)

abbrev paged_env : Env
paged_env = record memory_env {
  reply = λ log. paged_answer (transaction target log) (loaded target log);
}

-- A Winbond NAND chip with pages of 2048 bytes.
abbrev nand_world : World
nand_world = record targeted {
  target_id = record { manufacturer = 0xef; type = 0xaa; capacity = 0x21 };
  target_params = record example_chip {
    actual_capacity = 0x1b;
    flash_page_size = record { byte0 = 0; byte1 = 8; byte2 = 0 };
  };
}
