-- ===== src/Safety/Handlers.antt =====
-- The wiring is kept by every handler of firmware/usb/flashProto.cxx.
use spiflash_programmer.Prelude.{ℕ, List}
use spiflash_programmer.Machine.{normal, sfdp, ReadMode, normal}
use spiflash_programmer.Machine.Action.{Env, Action}
use spiflash_programmer.Machine.Keeps.{Keeps, Keeps-bind, Keeps-get}
use spiflash_programmer.Spi.Select.{Wired}
use spiflash_programmer.Safety.Parts.{parts}
use spiflash_programmer.Proto.Read.{
  transmit, finish_read, next_read_page, perform_read, handle_read, setup_read, perform_sfdp_read,
  handle_sfdp_read, setup_sfdp_read, perform_data_or_sfdp_read,
}

pub transmit-Keeps :
    (endpoint : ℕ) (response : List ℕ) (count : ℕ) → Keeps Wired (transmit endpoint response count)
unfolding transmit
transmit-Keeps endpoint response count = search parts depth 8

finish_read-Keeps : Keeps Wired finish_read
unfolding finish_read
finish_read-Keeps = search parts depth 8

module _ (env : Env) where
  next_read_page-Keeps : Keeps Wired (next_read_page env)
  unfolding next_read_page
  next_read_page-Keeps = search parts depth 12

  pub perform_read-Keeps : (endpoint : ℕ) → Keeps Wired (perform_read env endpoint)
  unfolding perform_read
  perform_read-Keeps endpoint =
      search (parts, transmit-Keeps, finish_read-Keeps, next_read_page-Keeps) depth 20

  pub handle_read-Keeps : Keeps Wired (handle_read env)
  unfolding handle_read
  handle_read-Keeps = search (parts, perform_read-Keeps) depth 20

  pub setup_read-Keeps : (count : ℕ) → Keeps Wired (setup_read env count)
  unfolding setup_read
  setup_read-Keeps count = search parts depth 20

  pub perform_sfdp_read-Keeps : (endpoint : ℕ) → Keeps Wired (perform_sfdp_read env endpoint)
  unfolding perform_sfdp_read
  perform_sfdp_read-Keeps endpoint = search (parts, transmit-Keeps, finish_read-Keeps) depth 20

  pub handle_sfdp_read-Keeps : Keeps Wired (handle_sfdp_read env)
  unfolding handle_sfdp_read
  handle_sfdp_read-Keeps = search (parts, perform_sfdp_read-Keeps) depth 20

  pub setup_sfdp_read-Keeps : (count : ℕ) → Keeps Wired (setup_sfdp_read env count)
  unfolding setup_sfdp_read
  setup_sfdp_read-Keeps count = search parts depth 20

  in_mode-Keeps :
      (endpoint : ℕ) (mode : ReadMode)
      → Keeps Wired (elim mode as (λ m. Action (Unit {0})) [
        | normal ↦ perform_read env endpoint
        | sfdp ↦ perform_sfdp_read env endpoint
      ])
  in_mode-Keeps endpoint normal = perform_read-Keeps endpoint
  in_mode-Keeps endpoint sfdp = perform_sfdp_read-Keeps endpoint

  pub perform_data_or_sfdp_read-Keeps :
      (endpoint : ℕ) → Keeps Wired (perform_data_or_sfdp_read env endpoint)
  unfolding perform_data_or_sfdp_read
  perform_data_or_sfdp_read-Keeps endpoint =
      Keeps-bind Keeps-get λ s. in_mode-Keeps endpoint s.read_mode
