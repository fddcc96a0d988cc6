-- ===== src/Examples/Fields.antt =====
-- The bytes of one chip's SFDP, of 16 MiB, as its data sheet lists them.
use spiflash_programmer.Prelude.{ℕ, ◌≡◌, ◌++◌, refl, List, [], ◌∷◌, some, replicate}
use spiflash_programmer.Sfdp.Table.{jedec_parameter_id, table_length, table_address, capacity}
use spiflash_programmer.Sfdp.Fields.{parameter_header_fields, capacity_fields}
use spiflash_programmer.Host.Sfdp.{enter_instruction, exit_instruction}
use spiflash_programmer.Host.Opcodes.{power_down_instructions}

abbrev sample_header : List ℕ
sample_header = 0x00 ∷ 0x06 ∷ 0x01 ∷ 0x10 ∷ 0x80 ∷ 0x00 ∷ 0x00 ∷ 0xff ∷ []

-- 2 ^ 27 bits, and the instructions B9 and AB.
abbrev sample_table : List ℕ
sample_table =
    (0xe5 ∷ 0x20 ∷ 0xf9 ∷ 0xff ∷ 0xff ∷ 0xff ∷ 0xff ∷ 0x07 ∷ [])
    ++ replicate 44 0xff
    ++ (0x00 ∷ 0x80 ∷ 0xd5 ∷ 0x5c ∷ [])

parameter_header_fields_example :
    (jedec_parameter_id sample_header ≡ 0xff00)
    × (table_length sample_header ≡ 64)
    × (table_address sample_header ≡ 0x80)
parameter_header_fields_example = parameter_header_fields sample_header refl

capacity_fields_example : capacity sample_table ≡ some 16777216
capacity_fields_example = capacity_fields sample_table refl

power_down_instructions_example :
    (enter_instruction sample_table ≡ 0xb9) × (exit_instruction sample_table ≡ 0xab)
power_down_instructions_example = power_down_instructions sample_table refl
