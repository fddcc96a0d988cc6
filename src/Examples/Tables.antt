-- ===== src/Examples/Tables.antt =====
-- A chip that describes itself, and the reads of its tables.
use spiflash_programmer.Prelude.{
  ℕ, zero, suc, ◌+◌, ◌-◌, ◌*◌, ◌≡◌, refl, List, [], ◌∷◌, ◌++◌, Option, none, some, arith, replicate,
  byte_at, length-append, length-replicate, ap, ◌∙◌,
}
use spiflash_programmer.Protocol.Transport.{controller_out, interface, type_class}
use spiflash_programmer.Machine.{World, SpiChip, target, ssi0}
use spiflash_programmer.Machine.Action.{Env}
use spiflash_programmer.Spi.{spi_device}
use spiflash_programmer.Spi.Transaction.{transaction}
use spiflash_programmer.Spi.Stream.{IsSelfDescribing, command}
use spiflash_programmer.Sfdp.{parameters}
use spiflash_programmer.Sfdp.Fields.{byte_at-small}
use spiflash_programmer.Sfdp.Standard.{described, basic_header, erase_of}
use spiflash_programmer.Sfdp.Described.{outcome, parameters-described}
use spiflash_programmer.Proto.Control.{Packet}
use spiflash_programmer.Examples.Data.{memory_env, position, power_on}

-- A header, a parameter header and the front of a basic table of 8 MiB and three erase types.
abbrev example_bytes : List ℕ
example_bytes =
    b'S' ∷ b'F' ∷ b'D' ∷ b'P' ∷ 6 ∷ 1 ∷ 0 ∷ 0xff ∷ 0 ∷ 6 ∷ 1 ∷ 16 ∷ 16 ∷ 0 ∷ 0 ∷ 0xff ∷ 0xe5 ∷ 0x20
    ∷ 0xf1 ∷ 0xff ∷ 0xff ∷ 0xff ∷ 0xff ∷ 3 ∷ 0 ∷ 0 ∷ 0 ∷ 0 ∷ 0 ∷ 0 ∷ 0 ∷ 0 ∷ 0 ∷ 0 ∷ 0 ∷ 0 ∷ 0 ∷ 0
    ∷ 0 ∷ 0 ∷ 0 ∷ 0 ∷ 0 ∷ 0 ∷ 12 ∷ 0x20 ∷ 15 ∷ 0x52 ∷ 16 ∷ 0xd8 ∷ []

abbrev example_tables : ℕ → ℕ
example_tables = byte_at example_bytes

abbrev answer : Option (List ℕ) → ℕ
answer none = 0xff
answer (some bytes) = example_tables (position bytes - 2)

abbrev tables_env : Env
tables_env = record memory_env { reply = λ log. answer (transaction target log) }

position-dummy :
    (k a2 a1 a0 : ℕ)
    → position (replicate k 0 ++ 0 ∷ command 0x5a a2 a1 a0) ≡ a2 * 65536 + a1 * 256 + a0 + k + 1
position-dummy zero a2 a1 a0 = omega arith
position-dummy (suc k) a2 a1 a0 = ground (
  arith,
  position-dummy k a2 a1 a0,
  length-append (replicate k 0) (0 ∷ command 0x5a a2 a1 a0),
  length-replicate {A = ℕ} k 0,
)

answer_lem :
    (k a2 a1 a0 : ℕ)
    → answer (some (replicate (suc k) 0 ++ 0 ∷ command 0x5a a2 a1 a0))
      ≡ example_tables (a2 * 65536 + a1 * 256 + a0 + k)
answer_lem k a2 a1 a0 =
    let e : position (replicate (suc k) 0 ++ 0 ∷ command 0x5a a2 a1 a0) - 2
        ≡ a2 * 65536 + a1 * 256 + a0 + k =
      omega (arith, position-dummy (suc k) a2 a1 a0) in
    ap example_tables e

tables_env-IsSelfDescribing : IsSelfDescribing tables_env target example_tables
tables_env-IsSelfDescribing = record {
  answers = λ log k a2 a1 a0 h. ap answer h ∙ answer_lem k a2 a1 a0;
  is_byte = byte_at-small example_bytes refl;
}

example_described :
    described example_tables
    ≡ some (
        some (record {
          page_size = 1;
          sector_size = 4096;
          capacity = 0x800000;
          sector_erase_opcode = 0x20;
        }))
unfolding described basic_header erase_of
example_described = refl

parameters-described_example :
    (t : World) × (parameters tables_env target power_on ≡ outcome (described example_tables) t)
    × (t.selected ≡ SpiChip.none)
unfolding spi_device
parameters-described_example =
    parameters-described tables_env target ssi0 example_tables refl tables_env-IsSelfDescribing
      power_on

-- Six bytes from 16 on.
abbrev sfdp_packet : Packet
sfdp_packet = record {
  recipient = interface;
  type = type_class;
  dir = controller_out;
  request = 10;
  value = 6;
  address = record { addr_low = 6; addr_high = 0 };
  configuration = 6;
  index = 0;
}
