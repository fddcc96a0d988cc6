-- ===== src/Spi/Opcode.antt =====
-- `spiOpcodes` of firmware/spi.hxx.
use spiflash_programmer.Prelude.{ℕ}

abbrev pub jedec_id : ℕ
jedec_id = 0x9f

abbrev pub chip_erase : ℕ
chip_erase = 0xc7

abbrev pub page_read : ℕ
page_read = 0x03

abbrev pub page_address_read : ℕ
page_address_read = 0x13

abbrev pub page_write : ℕ
page_write = 0x02

abbrev pub page_address_write : ℕ
page_address_write = 0x10

abbrev pub status_read : ℕ
status_read = 0x05

abbrev pub status_write : ℕ
status_write = 0x01

abbrev pub write_enable : ℕ
write_enable = 0x06

abbrev pub read_sfdp : ℕ
read_sfdp = 0x5a

abbrev pub wake_up : ℕ
wake_up = 0xab

abbrev pub reset : ℕ
reset = 0xff
