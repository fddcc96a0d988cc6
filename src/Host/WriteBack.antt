-- ===== src/Host/WriteBack.antt =====
-- `writeDevice` of software/flashprog.cxx from end to end, with a programmer that keeps what it is
-- sent.
use spiflash_programmer.Host.Returns.{Returns}
use spiflash_programmer.Prelude.{true, ◌∷◌, some, ℕ, ◌≡◌}
use spiflash_programmer.Host.Requests.{transfer_of, abort_all, target_chip, list_chip}
use spiflash_programmer.Host.Options.{Chip}
use spiflash_programmer.Host.Session.{HostEnv, History, control, claim, ◌>>=◌}
use spiflash_programmer.Host.Erased.{IsErasing}
use spiflash_programmer.Host.Written.{IsStoring}

-- The contract of a programmer whose calls do not fail, and that ends an erase as done after `rounds`
-- answers, and of a file of `len` bytes.
pub record IsKeeping (env : HostEnv) (content : ℕ → ℕ) (len rounds : ℕ) : Type 0 where
  pub storing : IsStoring env content
  pub erasing : IsErasing env rounds 1
  pub opens_file : (log : History) → env.opens_file log ≡ true
  pub sizes_file : (log : History) → env.file_length log ≡ some len

-- The history once the chip is selected.
abbrev write_selected : Chip → History → History
write_selected chip log =
    control (transfer_of (target_chip chip.index chip.bus) 0)
    ∷ control (transfer_of abort_all 0)
    ∷ control (transfer_of (list_chip chip.index chip.bus) 0)
    ∷ claim 0
    ∷ log
