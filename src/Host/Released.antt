-- ===== src/Host/Released.antt =====
-- Every operation of software/flashprog.cxx that works on one chip, with the interface it claims.
use spiflash_programmer.Host.Sfdp.{
  sfdp_request, display_table, display_headers, read_and_display, sfdp_claimed, dump_sfdp, Report,
}
use spiflash_programmer.Protocol.Page.{Page}
use spiflash_programmer.Protocol.Layout.{Status, ListDevice}
use spiflash_programmer.Protocol.{FlashBus}
use spiflash_programmer.Prelude.{ℕ, zero, suc, Bool, List, arith}
use spiflash_programmer.Host.Options.{Chip}
use spiflash_programmer.Host.Session.{HostEnv, ask, release_interface, control_transfer}
use spiflash_programmer.Host.Balance.{Releases, never, once, by_code, releasing}
use spiflash_programmer.Host.Chips.{read_chip_info, target_device, select_chip, finish}
use spiflash_programmer.Host.Erasing.{
  wait_erased, wait_pages, erase_file_pages, erase_device, erase_claimed, erase_selected,
}
use spiflash_programmer.Host.Reading.{
  read_blocks, read_pages, read_normal_device, read_tiny_device, read_contents, read_device,
  read_claimed,
}
use spiflash_programmer.Host.Writing.{
  verify_pages, write_blocks, write_normal_device, write_tiny_device, write_contents, write_device,
  write_file_to, write_claimed,
}
use spiflash_programmer.Host.Granted.{IsBalanced, with_device-IsBalanced}

module _ (env : HostEnv) where
  target_device-Releases : (bus : FlashBus) (n : ℕ) → Releases never (target_device env bus n)
  unfolding target_device
  target_device-Releases bus n = search releasing depth 20

  select_chip-Releases : (chip : Chip) → Releases never (select_chip env chip)
  unfolding select_chip
  select_chip-Releases chip = search (releasing, target_device-Releases) depth 20

  finish-once : (code : ℕ) → Releases once (finish env code)
  unfolding finish
  finish-once code = search (releasing, target_device-Releases) depth 20

  read_chip_info-Releases : (chip : Chip) → Releases never (read_chip_info env chip)
  unfolding read_chip_info ask release_interface control_transfer
  read_chip_info-Releases chip = record { run = λ log. ground arith }

  wait_erased-Releases : (n : ℕ) (s : Status) → Releases never (wait_erased env n s)
  unfolding wait_erased
  wait_erased-Releases zero s = search releasing depth 20
  wait_erased-Releases (suc n) s = search (releasing, wait_erased-Releases n) depth 20

  wait_pages-Releases : (n : ℕ) (s : Status) (p : Page) → Releases never (wait_pages env n s p)
  unfolding wait_pages
  wait_pages-Releases zero s p = search releasing depth 20
  wait_pages-Releases (suc n) s p = search (releasing, wait_pages-Releases n) depth 20

  erase_file_pages-by_code :
      (info : ListDevice) (n : ℕ) → Releases by_code (erase_file_pages env info n)
  unfolding erase_file_pages
  erase_file_pages-by_code info n = search (releasing, wait_pages-Releases) depth 20

  erase_claimed-once : (chip : Chip) → Releases once (erase_claimed env chip)
  unfolding erase_claimed erase_selected
  erase_claimed-once chip =
      search (releasing, select_chip-Releases, wait_erased-Releases, finish-once) depth 20

  read_pages-by_code :
      (size n number : ℕ) (buffer : List ℕ) → Releases by_code (read_pages env size n number buffer)
  unfolding read_pages
  read_pages-by_code size zero number buffer = search releasing depth 20
  read_pages-by_code size (suc n) number buffer =
      search (releasing, read_pages-by_code size n) depth 20

  read_blocks-by_code : (pages n block : ℕ) → Releases by_code (read_blocks env pages n block)
  unfolding read_blocks
  read_blocks-by_code pages zero block = search releasing depth 20
  read_blocks-by_code pages (suc n) block = search (releasing, read_blocks-by_code pages n) depth 20

  read_contents-by_code : (info : ListDevice) → Releases by_code (read_contents env info)
  unfolding read_contents read_normal_device read_tiny_device
  read_contents-by_code info = search (releasing, read_blocks-by_code, read_pages-by_code) depth 20

  read_claimed-once : (chip : Chip) → Releases once (read_claimed env chip)
  unfolding read_claimed
  read_claimed-once chip =
      search
        (
          releasing, read_contents-by_code, read_chip_info-Releases, select_chip-Releases,
          finish-once,
        )
        depth 20

  verify_pages-by_code : Releases by_code (verify_pages env)
  unfolding verify_pages
  verify_pages-by_code = search releasing depth 20

  write_blocks-by_code :
      (size pages total : ℕ) (verify : Bool) (n block : ℕ)
      → Releases by_code (write_blocks env size pages total verify n block)
  unfolding write_blocks
  write_blocks-by_code size pages total verify zero block = search releasing depth 20
  write_blocks-by_code size pages total verify (suc n) block =
      search (releasing, verify_pages-by_code, write_blocks-by_code size pages total verify n) depth
        25

  write_contents-by_code :
      (info : ListDevice) (n : ℕ) (verify : Bool)
      → Releases by_code (write_contents env info n verify)
  unfolding write_contents write_normal_device write_tiny_device
  write_contents-by_code info n verify = search (releasing, write_blocks-by_code) depth 20

  write_file_to-by_code :
      (info : ListDevice) (n : ℕ) (verify : Bool)
      → Releases by_code (write_file_to env info n verify)
  unfolding write_file_to
  write_file_to-by_code info n verify =
      search (releasing, erase_file_pages-by_code, write_contents-by_code) depth 20

  write_claimed-once : (chip : Chip) (verify : Bool) → Releases once (write_claimed env chip verify)
  unfolding write_claimed
  write_claimed-once chip verify =
      search
        (
          releasing, write_file_to-by_code, read_chip_info-Releases, select_chip-Releases,
          finish-once,
        )
        depth 25

  sfdp_request-Releases : (address size : ℕ) → Releases never (sfdp_request env address size)
  unfolding sfdp_request
  sfdp_request-Releases address size = search releasing depth 20

  display_table-Releases : (address size : ℕ) → Releases never (display_table env address size)
  unfolding display_table
  display_table-Releases address size = search (releasing, sfdp_request-Releases) depth 20

  display_headers-Releases :
      (left index : ℕ) (shown : List Report) → Releases never (display_headers env left index shown)
  unfolding display_headers
  display_headers-Releases zero index shown = search releasing depth 20
  display_headers-Releases (suc left) index shown =
      search
        (releasing, sfdp_request-Releases, display_table-Releases, display_headers-Releases left)
        depth 20

  read_and_display-Releases : Releases never (read_and_display env)
  unfolding read_and_display
  read_and_display-Releases =
      search (releasing, sfdp_request-Releases, display_headers-Releases) depth 20

  sfdp_claimed-once : (chip : Chip) → Releases once (sfdp_claimed env chip)
  unfolding sfdp_claimed
  sfdp_claimed-once chip =
      search (releasing, read_and_display-Releases, select_chip-Releases, finish-once) depth 20

-- Erasing, reading, writing and dumping, whatever the device and the files answer and on whichever
-- path: an exit code that is returned comes after exactly one release of the interface if it
-- was claimed, and after none if not. An exception comes after one release.
pub operations_release :
    (env : HostEnv) (chip : Chip) (verify : Bool)
    → IsBalanced env (erase_device env chip)
      × IsBalanced env (read_device env chip)
      × IsBalanced env (write_device env chip verify)
      × IsBalanced env (dump_sfdp env chip)
unfolding erase_device read_device write_device dump_sfdp
operations_release env chip verify = (
  with_device-IsBalanced env _ (erase_claimed-once env chip),
  with_device-IsBalanced env _ (read_claimed-once env chip),
  with_device-IsBalanced env _ (write_claimed-once env chip verify),
  with_device-IsBalanced env _ (sfdp_claimed-once env chip),
)
