-- ===== src/Sfdp/Described.antt =====
-- What firmware/sfdp.cxx finds out about a chip, as a function of the chip's own tables.
use spiflash_programmer.Prelude.{
  ℕ, zero, suc, ◌+◌, ◌*◌, ◌^◌, ◌<◌, ◌≡◌, refl, min, ◌-◌, List, ◌++◌, Option, none, some, arith,
  replicate, u8, ◌>>>◌, ◌==◌, Bool-cases, inl, inr, ◌∙◌, ap,
}
use spiflash_programmer.Machine.{
  World, SpiChip, local1, local2, target, Ssi, ssi0, ssi1, transfer, divider,
}
use spiflash_programmer.Machine.Action.{Env, Outcome, done, fault, emit, with_board}
use spiflash_programmer.Spi.{
  spi_device, spi_select, spi_write, select_pins, spi_set_clock, clock_divider,
}
use spiflash_programmer.Spi.Transaction.{transaction-transfer}
use spiflash_programmer.Spi.Stream.{IsSelfDescribing, slice, after_reading, read_bytes-tables}
use spiflash_programmer.Proto.Read.Begin.{addressed, transaction-addressed, address_bytes}
use spiflash_programmer.Sfdp.Standard.{described}
use spiflash_programmer.Sfdp.Composed.{
  composed, taken_apart, first_found, table_found, header_at, slice-are_bytes, composed-described,
}
use spiflash_programmer.Sfdp.{sfdp_read, read_basic_parameter_table, find_table, parameters}
use spiflash_programmer.Sfdp.Table.{
  table_address, table_length, parameter_headers_count, jedec_parameter_id, is_magic,
}
use spiflash_programmer.Sfdp.Fields.{parameter_header_fields}

-- The end of an action that finds `r`, or else reads what C++ leaves undefined.
abbrev pub outcome {ℓ} : {A : Type ℓ} → Option A → World → Outcome (A × World)
outcome none t = fault
outcome (some r) t = done (r, t)

-- The world after a read of the tables.
abbrev after_read : SpiChip → Ssi → ℕ → ℕ → World → World
after_read chip port address count s =
    let t : World =
      after_reading port count (emit (transfer port 0) (addressed chip port 0x5a address s)) in
    with_board t (record t.board { log = select_pins SpiChip.none t.log; selected = SpiChip.none })

-- A clock changes no chip select.
set_clock_runs :
    (chip : SpiChip) (mhz : ℕ) (s : World)
    → (t : World) × (spi_set_clock chip mhz s ≡ done (tt, t)) × (t.selected ≡ s.selected)
unfolding spi_set_clock
set_clock_runs local1 mhz s = (emit (divider ssi1 (clock_divider mhz)) s, refl, refl)
set_clock_runs local2 mhz s = (emit (divider ssi1 (clock_divider mhz)) s, refl, refl)
set_clock_runs target mhz s = (emit (divider ssi0 (clock_divider mhz)) s, refl, refl)
set_clock_runs SpiChip.none mhz s = (s, refl, refl)

module _ (env : Env) (chip : SpiChip) (port : Ssi) (tables : ℕ → ℕ)
    (wired : spi_device chip ≡ some port) (describing : IsSelfDescribing env chip tables) where
  sfdp_read-slice :
      (address count : ℕ) (s : World)
      → address < 2 ^ 24
      → sfdp_read env chip address count s
        ≡ done (slice tables address count, after_read chip port address count s)
  unfolding sfdp_read spi_select spi_write
  sfdp_read-slice address count s in_reach =
      let s2 : World = emit (transfer port 0) (addressed chip port 0x5a address s) in
      let position =
        transaction-transfer chip port 0 (addressed chip port 0x5a address s).log _ wired
          (transaction-addressed chip port wired 0x5a address s) in
      let reads =
        read_bytes-tables env chip port tables wired describing count 0 _ _ _ s2 position in
      let place : u8 (address >>> 16) * 65536 + u8 (address >>> 8) * 256 + u8 address + 0
          ≡ address =
        omega (arith, address_bytes address) in
      ground (arith, reads, place, wired)

  -- A header's table address has three bytes.
  table_address_bounds : (idx : ℕ) → table_address (header_at tables idx) < 2 ^ 24
  table_address_bounds idx =
      let (id, size, place) =
        parameter_header_fields (header_at tables idx)
          (slice-are_bytes tables describing.is_byte (8 + 8 * idx) 8) in
      omega (arith, place)

  headers_bounds : parameter_headers_count (slice tables 0 8) < 257
  unfolding parameter_headers_count
  headers_bounds = omega (arith, describing.is_byte 6)

  -- The world after the table has been read and taken apart.
  read_basic_parameter_table_lem :
      (address length : ℕ) (s : World)
      → address < 2 ^ 24
      → read_basic_parameter_table env chip address length s
        ≡ outcome
            (taken_apart (slice tables address (min 64 length) ++ replicate (64 - min 64 length) 0))
            (after_read chip port address (min 64 length) s)
  unfolding read_basic_parameter_table
  read_basic_parameter_table_lem address length s in_reach =
      ground (arith, sfdp_read-slice address (min 64 length) s in_reach)

  -- The loop over the headers fetches the first basic table, if there is one.
  find_table_lem :
      (left idx : ℕ) (s : World)
      → idx + left < 2 ^ 20
      → (t : World) × (find_table env chip left idx s
          ≡ outcome
              (elim (first_found tables left idx) [
                | none ↦ some none
                | some header ↦ elim (taken_apart (table_found tables header)) [
                  | none ↦ none
                  | some found ↦ some (some found)
                ]
              ])
              t)
        × (s.selected ≡ SpiChip.none → t.selected ≡ SpiChip.none)
  unfolding find_table first_found
  find_table_lem zero idx s few = (s, refl, λ off. off)
  find_table_lem (suc left) idx s few =
      let header : List ℕ = header_at tables idx in
      let u : World = after_read chip port (8 + 8 * idx) 8 s in
      let reads = sfdp_read-slice (8 + 8 * idx) 8 s (omega arith) in
      elim (Bool-cases (jedec_parameter_id header == 0xff00)) [
        | inl basic ↦
            let address : ℕ = table_address header in
            let length : ℕ = min 64 (table_length header) in
            (
              after_read chip port address length u,
              ground (
                arith,
                reads,
                basic,
                read_basic_parameter_table_lem address (table_length header) u
                    (table_address_bounds idx),
              ),
              λ _. refl,
            )
        | inr other ↦
            let (t, runs, off) = find_table_lem left (idx + 1) u (omega arith) in
            (t, ground (arith, reads, other, runs), λ _. off refl)
      ]

  parameters-composed :
      (s : World)
      → (t : World) × (parameters env chip s ≡ outcome (composed tables) t)
        × (t.selected ≡ SpiChip.none)
  unfolding parameters composed
  parameters-composed s =
      let header : List ℕ = slice tables 0 8 in
      let reads = sfdp_read-slice 0 8 s (omega arith) in
      let u : World = after_read chip port 0 8 s in
      elim (Bool-cases (is_magic header)) [
        | inl ours ↦
            let (clocked, sets, kept) = set_clock_runs chip 50 u in
            let (t, runs, off) =
              find_table_lem (parameter_headers_count header) 0 clocked
                (omega (arith, headers_bounds)) in
            (t, ground (arith, reads, ours, sets, runs), off kept)
        | inr foreign ↦ (u, ground (arith, reads, foreign), refl)
      ]

  -- Asking a chip for its parameters gives exactly what its tables describe by JESD216: those in the
  -- first basic table that it has a header for, none if it has no such header or no SFDP signature, and
  -- undefined behaviour only where a size that is used in that table has no value of 32 bits. No chip
  -- stays selected.
  pub parameters-described :
      (s : World)
      → (t : World) × (parameters env chip s ≡ outcome (described tables) t)
        × (t.selected ≡ SpiChip.none)
  parameters-described s =
      let (t, runs, off) = parameters-composed s in
      (t, runs ∙ ap (λ d. outcome d t) (composed-described tables describing.is_byte), off)
