-- ===== src/Host/Reading.antt =====
-- Reading a chip into a file: `readNormalDevice`, `readTinyDevice` and `readDevice` of
-- software/flashprog.cxx.
use spiflash_programmer.Prelude.{
  ℕ, zero, suc, ◌+◌, ◌*◌, ◌/◌, ◌%◌, not, List, some, replicate, ltb, ◌==◌, if◌then◌else◌, u32,
}
use spiflash_programmer.Protocol.Layout.{ListDevice}
use spiflash_programmer.Protocol.Page.{page_of, page_value}
use spiflash_programmer.Host.Requests.{read_page}
use spiflash_programmer.Host.Options.{Chip}
use spiflash_programmer.Host.Session.{
  HostAction, HostEnv, return, crash, ◌>>=◌, or_else, ◌>>◌, note, ask, gets, give_up, with_device,
  padded, overlay, read_bulk, save, release_interface, begin_progress, add_progress, close_progress,
}
use spiflash_programmer.Host.Chips.{transfer_block_size, read_chip_info, select_chip, finish}

module _ (env : HostEnv) where
  -- The loop over the blocks from number `block` on, with `count` to come.
  unfoldable pub read_blocks : ℕ → ℕ → ℕ → HostAction ℕ
  read_blocks pages_per_block zero block = do note close_progress; return 0
  read_blocks pages_per_block (suc count) block = do
    asked ← ask env (read_page (page_of (u32 (block * pages_per_block))) transfer_block_size)
    or_else asked (give_up env) λ reply. do
      came ← read_bulk env 1 transfer_block_size
      or_else came (give_up env) λ bytes. do
        saved ← save env (padded transfer_block_size bytes)
        if saved
            then (do note (add_progress 1); read_blocks pages_per_block count (block + 1))
            else give_up env

  unfoldable pub read_normal_device : ListDevice → HostAction ℕ
  read_normal_device info =
      if not (info.device_size % transfer_block_size == 0)
      then (do ok ← release_interface env 0; return 1)
      else if page_value info.page_size == 0
      then crash
      else (do
        note (begin_progress (some (info.device_size / transfer_block_size)))
        read_blocks (transfer_block_size / page_value info.page_size)
            (info.device_size / transfer_block_size) 0)

  -- The loop over the pages from number `page` on. The request has no count, which asks for 256
  -- bytes whatever the page's size. The buffer is used again for each page.
  unfoldable pub read_pages : ℕ → ℕ → ℕ → List ℕ → HostAction ℕ
  read_pages page_size zero page buffer = do note close_progress; return 0
  read_pages page_size (suc count) page buffer = do
    asked ← ask env (read_page (page_of page) 0)
    or_else asked (give_up env) λ reply. do
      came ← read_bulk env 1 page_size
      or_else came (give_up env) λ bytes. do
        saved ← save env (overlay bytes buffer)
        if saved
            then (do
              note (add_progress 1)
              read_pages page_size count (page + 1) (overlay bytes buffer))
            else give_up env

  unfoldable pub read_tiny_device : ListDevice → HostAction ℕ
  read_tiny_device info = if page_value info.page_size == 0 then crash else (do
    note (begin_progress (some (info.device_size / page_value info.page_size)))
    read_pages (page_value info.page_size) (info.device_size / page_value info.page_size) 0
        (replicate (page_value info.page_size) 0))

  unfoldable pub read_contents : ListDevice → HostAction ℕ
  read_contents info =
      if ltb info.device_size transfer_block_size
      then read_tiny_device info
      else read_normal_device info

  unfoldable pub read_claimed : Chip → HostAction ℕ
  read_claimed chip = do
    file ← gets env.opens_file
    if not file then give_up env else (do
      info ← read_chip_info env chip
      selected ← select_chip env chip
      if not selected then give_up env else (do
        result ← read_contents info
        if result == 0 then finish env 0 else return result))

  unfoldable pub read_device : Chip → HostAction ℕ
  read_device chip = with_device env (read_claimed chip)
