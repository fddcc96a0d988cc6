-- ===== src/Safety/Parts.antt =====
-- The wiring is kept by firmware/sfdp.cxx, firmware/flash.cxx and the shared parts of
-- firmware/usb/flashProto.cxx.
use spiflash_programmer.Sfdp.Table.{table_address, table_length, jedec_parameter_id}
use spiflash_programmer.Spi.{spi_set_clock}
use spiflash_programmer.Prelude.{
  ℕ, zero, suc, List, [], ◌∷◌, Bool, true, false, Option, none, some, ◌≡◌, ◌+◌, ◌*◌, ◌==◌,
}
use spiflash_programmer.Protocol.Page.{Page}
use spiflash_programmer.Machine.{
  World, SpiChip, FlashId, Ssi, Pointer, Callback, write_ep, FlashChip,
}
use spiflash_programmer.Machine.Action.{Env, pure, modify, Action, ◌>>=◌}
use spiflash_programmer.Machine.Keeps.{Keeps, Keeps-if, Keeps-pure, Keeps-bind}
use spiflash_programmer.Spi.Select.{
  Wired, keeps, Keeps-emit, led_set_colour-Keeps, spi_set_clock-Keeps, spi_read-Keeps,
  set_device_reset-Keeps, wait_for-Keeps, spi_reset_clocks-Keeps, spi_write_selected-Keeps,
  ident_device-Keeps,
}
use spiflash_programmer.Sfdp.{
  read_bytes, sfdp_read, read_basic_parameter_table, find_table, parameters, SpiParameters,
}
use spiflash_programmer.Flash.{
  read_sfdp, find_chip, find_known, manufacturers, fallback_chip, from_parameters,
}
use spiflash_programmer.Proto.Common.{
  send, write_address24, write_response, expect_data, is_busy, wait_ready, begin_page_read,
}

-- An update of the globals leaves the pins alone.
pub Keeps-globals :
    (f : World → World) → ((s : World) → (f s).board ≡ s.board) → Keeps Wired (modify f)
Keeps-globals f h = record { run = λ s w. rw (h s) w }

module _ (env : Env) where
  pub read_bytes-Keeps : (device : Ssi) (n : ℕ) → Keeps Wired (read_bytes env device n)
  unfolding read_bytes
  read_bytes-Keeps device zero = Keeps-pure []
  read_bytes-Keeps device (suc n) =
      Keeps-bind (spi_read-Keeps env device)
        λ byte. Keeps-bind (read_bytes-Keeps device n) λ rest. Keeps-pure (byte ∷ rest)

  pub sfdp_read-Keeps :
      (chip : SpiChip) (address count : ℕ) → Keeps Wired (sfdp_read env chip address count)
  unfolding sfdp_read
  sfdp_read-Keeps chip address count = search (keeps, read_bytes-Keeps) depth 20

  pub read_basic_parameter_table-Keeps :
      (chip : SpiChip) (address count : ℕ)
      → Keeps Wired (read_basic_parameter_table env chip address count)
  unfolding read_basic_parameter_table
  read_basic_parameter_table-Keeps chip address count = search (keeps, sfdp_read-Keeps) depth 20

  pub find_table-Keeps :
      (chip : SpiChip) (left idx : ℕ) → Keeps Wired (find_table env chip left idx)
  unfolding find_table
  find_table-Keeps chip zero idx = Keeps-pure none
  find_table-Keeps chip (suc left) idx = Keeps-bind (sfdp_read-Keeps chip (8 + 8 * idx) 8) λ header.
      Keeps-if (jedec_parameter_id header == 0xff00)
        (Keeps-bind
          (read_basic_parameter_table-Keeps chip (table_address header) (table_length header))
          λ found. Keeps-pure (some found))
        (find_table-Keeps chip left (idx + 1))

  pub parameters-Keeps : (chip : SpiChip) → Keeps Wired (parameters env chip)
  unfolding parameters
  parameters-Keeps chip =
      search (keeps, sfdp_read-Keeps, find_table-Keeps, spi_set_clock-Keeps) depth 20

  found_chip-Keeps :
      (id : FlashId) (found : Option FlashChip)
      → Keeps Wired (elim found as (λ o. Action FlashChip) [
        | none ↦ pure (fallback_chip id)
        | some c ↦ pure c
      ])
  found_chip-Keeps id none = Keeps-pure _
  found_chip-Keeps id (some c) = Keeps-pure c

  found_params-Keeps :
      (id : FlashId) (found : Option SpiParameters)
      → Keeps Wired (elim found as (λ o. Action (Option FlashChip)) [
        | none ↦ pure none
        | some p ↦ pure (some (from_parameters env id p))
      ])
  found_params-Keeps id none = Keeps-pure _
  found_params-Keeps id (some c) = Keeps-pure _

  pub read_sfdp-Keeps : (id : FlashId) (chip : SpiChip) → Keeps Wired (read_sfdp env id chip)
  unfolding read_sfdp
  read_sfdp-Keeps id chip = Keeps-bind (parameters-Keeps chip) (found_params-Keeps id)

  known-Keeps :
      (id : FlashId) (chip : SpiChip) (known : Option FlashChip)
      → Keeps Wired (elim known as (λ o. Action FlashChip) [
        | some c ↦ (spi_set_clock chip c.chip_speed_mhz >>= λ u. pure c)
        | none ↦ (do
          found ← read_sfdp env id chip
          elim found [ none ↦ pure (fallback_chip id) | some c ↦ pure c ])
      ])
  known-Keeps id chip none = Keeps-bind (read_sfdp-Keeps id chip) (found_chip-Keeps id)
  known-Keeps id chip (some c) = Keeps-bind (spi_set_clock-Keeps chip _) (λ u. Keeps-pure c)

  pub find_chip-Keeps : (id : FlashId) (chip : SpiChip) → Keeps Wired (find_chip env id chip)
  unfolding find_chip
  find_chip-Keeps id chip = known-Keeps id chip (find_known manufacturers id)

pub send-Keeps : (endpoint : ℕ) (bytes : List ℕ) → Keeps Wired (send endpoint bytes)
unfolding send
send-Keeps endpoint bytes = Keeps-emit (write_ep endpoint bytes) tt

pub write_address24-Keeps : (device : Ssi) (n : ℕ) → Keeps Wired (write_address24 device n)
unfolding write_address24
write_address24-Keeps device n = search keeps depth 8

pub write_response-Keeps : (bytes : List ℕ) → Keeps Wired (write_response bytes)
unfolding write_response
write_response-Keeps bytes = record { run = λ s w. w }

pub expect_data-Keeps :
    (env : Env) (pointer : Pointer) (count : ℕ) (then_do : Callback)
    → Keeps Wired (expect_data env pointer count then_do)
unfolding expect_data
expect_data-Keeps env pointer count then_do = record { run = λ s w. w }

module _ (env : Env) where
  pub is_busy-Keeps : Keeps Wired (is_busy env)
  unfolding is_busy
  is_busy-Keeps = search keeps depth 20

  pub wait_ready-Keeps : (polls : ℕ) → Keeps Wired (wait_ready env polls)
  unfolding wait_ready
  wait_ready-Keeps zero = record { run = λ s w. tt }
  wait_ready-Keeps (suc polls) = Keeps-bind is_busy-Keeps (again (wait_ready-Keeps polls))
    where
      again :
          Keeps Wired (wait_ready env polls)
          → (busy : Bool)
          → Keeps Wired (elim busy as (λ b. Action (Unit {0})) [
            | true ↦ wait_ready env polls
            | false ↦ pure tt
          ])
      again rest true = rest
      again rest false = Keeps-pure tt

  pub begin_page_read-Keeps : (page : Page) → Keeps Wired (begin_page_read env page)
  unfolding begin_page_read
  begin_page_read-Keeps page = search (keeps, wait_ready-Keeps, write_address24-Keeps) depth 20

pub ruleset parts = (
  keeps, led_set_colour-Keeps, set_device_reset-Keeps, wait_for-Keeps, spi_reset_clocks-Keeps,
  spi_write_selected-Keeps, ident_device-Keeps, find_chip-Keeps, send-Keeps, write_address24-Keeps,
  write_response-Keeps, expect_data-Keeps, is_busy-Keeps, wait_ready-Keeps, begin_page_read-Keeps,
  read_bytes-Keeps,
)
