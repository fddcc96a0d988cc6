-- ===== src/Host/Erasing.antt =====
-- Erasing: `eraseDevice` and `erasePages` of software/flashprog.cxx.
use spiflash_programmer.Prelude.{
  ℕ, zero, suc, ◌+◌, ◌/◌, ◌%◌, not, Option, none, some, ◌==◌, if◌then◌else◌, sub32, u32,
}
use spiflash_programmer.Protocol.{all, page_range}
use spiflash_programmer.Protocol.Layout.{ListDevice, Status, no_page, no_status}
use spiflash_programmer.Protocol.Page.{Page, page_of, page_value}
use spiflash_programmer.Host.Requests.{erase_pages, read_status}
use spiflash_programmer.Host.Options.{Chip}
use spiflash_programmer.Host.Session.{
  HostAction, HostEnv, return, crash, hang, ◌>>=◌, or_else, ◌>>◌, note, ask, give_up, with_device,
  sleep_ms, begin_progress, add_progress, close_progress,
}
use spiflash_programmer.Host.Chips.{status_in, select_chip, finish}

-- `total / size`, and one more for what is left.
abbrev pub round_up : ℕ → ℕ → ℕ
round_up total size = u32 (total / size + (if total % size == 0 then 0 else 1))

module _ (env : HostEnv) where
  -- The loop that waits for the whole chip, with `polls` rounds at most.
  unfoldable pub wait_erased : ℕ → Status → HostAction (Option Status)
  wait_erased zero status = hang
  wait_erased (suc polls) status =
      if not (status.erase_complete == 0) then return (some status) else (do
        note (sleep_ms 125)
        reply ← ask env read_status
        or_else reply (return none)
            λ bytes. do note (add_progress 1); wait_erased polls (status_in bytes))

  -- The erase of the chip that is selected.
  unfoldable pub erase_selected : HostAction ℕ
  erase_selected = do
    note (begin_progress none)
    started ← ask env (erase_pages no_page no_page all)
    or_else started (give_up env) λ reply. do
      note (add_progress 1)
      erased ← wait_erased env.status_polls no_status
      or_else erased (give_up env)
          λ status. do note close_progress; finish env (if status.erase_complete == 1 then 0 else 1)

  unfoldable pub erase_claimed : Chip → HostAction ℕ
  erase_claimed chip = do
    selected ← select_chip env chip
    if not selected then give_up env else erase_selected

  unfoldable pub erase_device : Chip → HostAction ℕ
  erase_device chip = with_device env (erase_claimed chip)

  -- The loop that waits for a range of pages, and shows how far it is. An unchanged page only
  -- redraws the bar.
  unfoldable pub wait_pages : ℕ → Status → Page → HostAction (Option Status)
  wait_pages zero status current = hang
  wait_pages (suc polls) status current =
      if not (status.erase_complete == 0) then return (some status) else (do
        note (sleep_ms 10)
        reply ← ask env read_status
        or_else reply (return none) λ bytes.
            let page = (status_in bytes).erase_page in
            if page_value current == page_value page
            then wait_pages polls (status_in bytes) current
            else (do
              note (add_progress (sub32 (page_value page) (page_value current)))
              wait_pages polls (status_in bytes) page))

  unfoldable pub erase_file_pages : ListDevice → ℕ → HostAction ℕ
  erase_file_pages info file_length = if page_value info.erase_size == 0 then crash else (do
    let pages = round_up file_length (page_value info.erase_size)
    note (begin_progress (some pages))
    started ← ask env (erase_pages no_page (page_of pages) page_range)
    or_else started (give_up env) λ reply. do
      erased ← wait_pages env.status_polls no_status no_page
      or_else erased (give_up env) λ status. do note close_progress; return 0)
