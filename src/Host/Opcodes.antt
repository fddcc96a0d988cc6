-- ===== src/Host/Opcodes.antt =====
-- The instructions that `deepPowerDown_t` of software/sfdpInternal.hxx takes out of the basic
-- parameter table, against the layout of JEDEC JESD216: the table's 14th doubleword.
use spiflash_programmer.Prelude.{
  ◌*◌, ◌/◌, ◌%◌, ◌^◌, ◌≡◌, true, List, byte_at, bit_or_comm, bit_or_disjoint, arith, ℕ,
}
use spiflash_programmer.Sfdp.Fields.{doubleword_at, are_bytes, byte_at-small}
use spiflash_programmer.Host.Sfdp.{enter_instruction, exit_instruction}

-- In a table of bytes the instruction that enters deep power-down is bits 23 to 30 of the doubleword
-- at byte 52, and the one that leaves it is bits 15 to 22.
pub power_down_instructions :
    (table : List ℕ)
    → are_bytes table ≡ true
    → (enter_instruction table ≡ doubleword_at table 52 / 2 ^ 23 % 256)
      × (exit_instruction table ≡ doubleword_at table 52 / 2 ^ 15 % 256)
unfolding enter_instruction exit_instruction
power_down_instructions table h =
    let small = byte_at-small table h in
    let b0 = small 52 in
    let b1 = small 53 in
    let b2 = small 54 in
    let b3 = small 55 in
    ground (
      arith,
      b0,
      b1,
      b2,
      b3,
      bit_or_comm (byte_at table 55 * 256) (byte_at table 54),
      bit_or_comm (byte_at table 54 * 256) (byte_at table 53),
      bit_or_disjoint 8 (byte_at table 54) (byte_at table 55) b2,
      bit_or_disjoint 8 (byte_at table 53) (byte_at table 54) b1,
    )
