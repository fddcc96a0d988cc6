-- ===== src/Host/Answers.antt =====
-- A computer and a programmer whose calls do not fail, and what the calls that every operation of
-- software/flashprog.cxx makes then do.
use spiflash_programmer.Host.Returns.{Returns, Returns-bind, Returns-return}
use spiflash_programmer.Host.Requests.{
  HostRequest, transfer_of, target_chip, list_chip, abort_all, read_page, write_page, read_sfdp_at,
}
use spiflash_programmer.Host.Options.{Chip}
use spiflash_programmer.Prelude.{ap, true, ◌∷◌, some, ℕ, ◌≡◌, arith, ◌≤◌}
use spiflash_programmer.Protocol.{FlashBus, unknown}
use spiflash_programmer.Host.Session.{
  control, claim, release, gets, open_and_claim, claim_interface, release_with, release_interface,
  HostEnv, History, ask, control_transfer, returned,
}
use spiflash_programmer.Host.Chips.{
  target_device, select_chip, finish, list_device_in, read_chip_info,
}

-- What the firmware takes of the size of a request: at most what its buffer holds.
abbrev pub IsModest : HostRequest → Type 0
IsModest (read_page page count) = count ≤ 4096
IsModest (write_page page verify count) = count ≤ 4096
IsModest (read_sfdp_at address count) = count ≤ 4096
IsModest _ = Unit

-- Every request of a size that the firmware takes is complete, and the device can be opened, claimed
-- and released.
pub record IsAnswering (env : HostEnv) : Type 0 where
  pub takes :
      (log : History) (r : HostRequest)
      → IsModest r
      → (env.on_control log (transfer_of r 0)).0 ≡ some (transfer_of r 0).length
  pub opens : (log : History) → env.opens log ≡ true
  pub claims : (log : History) → env.on_claim log 0 ≡ 0
  pub releases : (log : History) → env.on_release log 0 ≡ 0

module _ (env : HostEnv) (h : IsAnswering env) where
  pub ask_taken :
      (r : HostRequest) (log : History)
      → IsModest r
      → Returns
          (ask env r)
          log
          (some (env.on_control log (transfer_of r 0)).1)
          (control (transfer_of r 0) ∷ log)
  unfolding ask control_transfer
  ask_taken r log modest = record { run = ground (arith, h.takes log r modest) }

  pub release_done :
      (code : ℕ) (log : History) → Returns (release_with env code) log code (release 0 ∷ log)
  unfolding release_with release_interface
  release_done code log = record { run = ground (arith, h.releases log) }

  pub target_done :
      (bus : FlashBus) (n : ℕ) (log : History)
      → Returns
          (target_device env bus n)
          log
          true
          (control (transfer_of (target_chip n bus) 0) ∷ log)
  unfolding target_device
  target_done bus n log =
      let asked = ask_taken (target_chip n bus) log tt in
      search (Returns-bind, Returns-return, asked) depth 12

  pub finish_done :
      (code : ℕ) (log : History)
      → Returns
          (finish env code)
          log
          code
          (release 0 ∷ control (transfer_of (target_chip 0 unknown) 0) ∷ log)
  unfolding finish
  finish_done code log =
      search (Returns-bind, target_done unknown 0 log, release_done code) depth 12

  pub select_done :
      (chip : Chip) (log : History)
      → Returns (select_chip env chip) log true (
          control (transfer_of (target_chip chip.index chip.bus) 0)
          ∷ control (transfer_of abort_all 0)
          ∷ log)
  unfolding select_chip
  select_done chip log =
      let aborted = ask_taken abort_all log tt in
      search (Returns-bind, aborted, target_done) depth 12

  pub open_done : (log : History) → Returns (open_and_claim env) log true (claim 0 ∷ log)
  unfolding open_and_claim claim_interface
  open_done log =
      let opened : Returns (gets env.opens) log true log = record {
        run = ap (λ o. (returned o, log)) (h.opens log);
      } in
      let claimed : Returns (claim_interface env 0) log true (claim 0 ∷ log) = record {
        run = ground (arith, h.claims log);
      } in
      search (Returns-bind, opened, claimed) depth 12

  pub read_chip_info_done :
      (chip : Chip) (log : History)
      → Returns
          (read_chip_info env chip)
          log
          (list_device_in (env.on_control log (transfer_of (list_chip chip.index chip.bus) 0)).1)
          (control (transfer_of (list_chip chip.index chip.bus) 0) ∷ log)
  unfolding read_chip_info
  read_chip_info_done chip log =
      let asked = ask_taken (list_chip chip.index chip.bus) log tt in
      search (Returns-bind, Returns-return, asked) depth 12
