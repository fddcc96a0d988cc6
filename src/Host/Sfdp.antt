-- ===== src/Host/Sfdp.antt =====
-- `readAndDisplay` of software/sfdp.cxx over the structures of software/sfdpInternal.hxx, which are
-- those of firmware/sfdp.hxx and `deepPowerDown_t`, and `dumpSFDP` of software/flashprog.cxx.
use spiflash_programmer.Prelude.{
  ℕ, zero, suc, ◌+◌, ◌*◌, Bool, true, false, not, List, [], ◌∷◌, ◌++◌, Option, none, some, bit_or,
  byte_at, min, u8, u16, ◌<<<◌, ◌>>>◌, ◌==◌, if◌then◌else◌,
}
use spiflash_programmer.Sfdp.Table.{
  is_magic, parameter_headers_count, jedec_parameter_id, table_length, table_address, capacity,
  page_size, erase_type_at, erase_size,
}
use spiflash_programmer.Host.Requests.{read_sfdp_at}
use spiflash_programmer.Host.Options.{Chip}
use spiflash_programmer.Host.Units.{human_readable_size, SizeUnit}
use spiflash_programmer.Host.Session.{
  HostAction, HostEnv, return, crash, ◌>>=◌, or_else, ask, give_up, with_device, padded, read_bulk,
}
use spiflash_programmer.Host.Chips.{select_chip, finish}

-- What is displayed, by the values in it.
pub data Report : Type 0 where
  bad_magic : List ℕ → Report
  header : (major minor headers protocol : ℕ) → Report
  table_header : (index id major minor size address : ℕ) → Report
  basic_table : (size : ℕ × SizeUnit) (program_page opcode : ℕ) → Report
  erase_type : (index opcode : ℕ) (size : ℕ × SizeUnit) → Report
  invalid_erase_type : (index : ℕ) → Report
  power_opcodes : (enter exit : ℕ) → Report

-- `deepPowerDown_t`, at offset 53 of `basicParameterTable_t`.
unfoldable pub enter_instruction : List ℕ → ℕ
enter_instruction table = u8 (bit_or (byte_at table 55 <<< 8) (byte_at table 54) >>> 7)

unfoldable pub exit_instruction : List ℕ → ℕ
exit_instruction table = u8 (bit_or (byte_at table 54 <<< 8) (byte_at table 53) >>> 7)

-- `1U << n` has no value from 32 on, as `none`.
unfoldable pub show_erase_type : List ℕ → ℕ → Option Report
show_erase_type table index =
    if (erase_type_at table index).erase_size_exponent == 0
    then some (invalid_erase_type (index + 1))
    else elim (erase_size (erase_type_at table index)) [
      | none ↦ none
      | some size ↦
          some
            (erase_type (index + 1) (erase_type_at table index).opcode (human_readable_size size))
    ]

-- The loop over the erase types from `index` on.
unfoldable pub show_erase_types : List ℕ → ℕ → ℕ → Option (List Report)
show_erase_types table zero index = some []
show_erase_types table (suc count) index = elim (show_erase_type table index) [
  | none ↦ none
  | some report ↦ elim (show_erase_types table count (index + 1)) [
    | none ↦ none
    | some reports ↦ some (report ∷ reports)
  ]
]

-- What `displayBasicParameterTable` shows of a table of 64 bytes.
unfoldable pub show_table : List ℕ → Option (List Report)
show_table table = elim (capacity table) [
  | none ↦ none
  | some size ↦ elim (show_erase_types table 4 0) [
    | none ↦ none
    | some types ↦ some (
        (basic_table (human_readable_size size) (page_size table) (byte_at table 1) ∷ types)
        ++ power_opcodes (enter_instruction table) (exit_instruction table) ∷ [])
  ]
]

module _ (env : HostEnv) where
  unfoldable pub sfdp_request : ℕ → ℕ → HostAction (Option (List ℕ))
  sfdp_request address size = do
    asked ← ask env (read_sfdp_at address (u16 size))
    or_else asked (return none) λ reply. read_bulk env 1 size

  -- The display of a table: whether it was read, and what was shown.
  unfoldable pub display_table : ℕ → ℕ → HostAction (Bool × List Report)
  display_table address length = do
    came ← sfdp_request address (min 64 length)
    or_else came (return (false, []))
        λ bytes. or_else (show_table (padded 64 bytes)) crash λ reports. return (true, reports)

  -- The loop over the parameter headers from `index` on, with what was shown before.
  unfoldable pub display_headers : ℕ → ℕ → List Report → HostAction (Bool × List Report)
  display_headers zero index shown = return (true, shown)
  display_headers (suc left) index shown = do
    came ← sfdp_request (8 + 8 * index) 8
    or_else came (return (false, shown)) λ bytes.
        let t = padded 8 bytes in
        let seen =
          shown
          ++ table_header (index + 1) (jedec_parameter_id t) (byte_at t 1) (byte_at t 2)
              (table_length t) (table_address t)
            ∷ [] in
        if jedec_parameter_id t == 0xff00
        then (do
          table ← display_table (table_address t) (table_length t)
          if table.0
              then display_headers left (index + 1) (seen ++ table.1)
              else return (false, seen))
        else display_headers left (index + 1) seen

  unfoldable pub read_and_display : HostAction (Bool × List Report)
  read_and_display = do
    came ← sfdp_request 0 8
    or_else came (return (false, [])) λ bytes.
        let h = padded 8 bytes in
        if is_magic h
        then display_headers (parameter_headers_count h) 0
            (header (byte_at h 4) (byte_at h 5) (parameter_headers_count h) (byte_at h 7) ∷ [])
        else return
            (true, bad_magic (byte_at h 0 ∷ byte_at h 1 ∷ byte_at h 2 ∷ byte_at h 3 ∷ []) ∷ [])

  unfoldable pub sfdp_claimed : Chip → HostAction ℕ
  sfdp_claimed chip = do
    selected ← select_chip env chip
    if not selected
        then give_up env
        else (do displayed ← read_and_display; if displayed.0 then finish env 0 else give_up env)

  unfoldable pub dump_sfdp : Chip → HostAction ℕ
  dump_sfdp chip = with_device env (sfdp_claimed chip)
