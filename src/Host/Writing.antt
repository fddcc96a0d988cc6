-- ===== src/Host/Writing.antt =====
-- Writing a file to a chip: `writeNormalDevice` to `writeDevice` of software/flashprog.cxx.
use spiflash_programmer.Prelude.{
  ℕ, zero, suc, ◌+◌, ◌*◌, ◌/◌, ◌%◌, Bool, false, not, Option, none, some, min, sub32, u16, ltb,
  ◌==◌, if◌then◌else◌, u32, take,
}
use spiflash_programmer.Protocol.Layout.{ListDevice}
use spiflash_programmer.Protocol.Page.{page_of, page_value}
use spiflash_programmer.Host.Requests.{write_page, read_status}
use spiflash_programmer.Host.Options.{Chip}
use spiflash_programmer.Host.Session.{
  HostAction, HostEnv, return, crash, ◌>>=◌, or_else, ◌>>◌, note, gets, ask, give_up, with_device,
  write_bulk, load, begin_progress, add_progress, close_progress,
}
use spiflash_programmer.Host.Chips.{
  transfer_block_size, status_in, read_chip_info, select_chip, finish,
}
use spiflash_programmer.Host.Erasing.{round_up, erase_file_pages}

module _ (env : HostEnv) where
  unfoldable pub verify_pages : HostAction ℕ
  verify_pages = do
    reply ← ask env read_status
    or_else reply (give_up env)
        λ bytes. if (status_in bytes).write_ok then return 0 else give_up env

  -- The loop over the blocks of `size` bytes from number `block` on, of `pages` pages each. It is
  -- that of `writeNormalDevice` for blocks of 4 KiB, and that of `writeTinyDevice` for single pages
  -- that are never verified.
  unfoldable pub write_blocks : ℕ → ℕ → ℕ → Bool → ℕ → ℕ → HostAction ℕ
  write_blocks size pages file_length verify zero block = do note close_progress; return 0
  write_blocks size pages file_length verify (suc count) block = do
    let amount = min (sub32 (u32 file_length) (u32 (block * size))) size
    asked ← ask env (write_page (page_of (u32 (block * pages))) verify (u16 amount))
    or_else asked (give_up env) λ reply. do
      read ← load env amount
      or_else read (give_up env) λ bytes. do
        written ← write_bulk env 1 (take amount bytes)
        or_else written (give_up env) λ sent. do
          result ← if verify then verify_pages else return 0
          if result == 0
              then (do
                note (add_progress 1)
                write_blocks size pages file_length verify count (block + 1))
              else return result

  unfoldable pub write_normal_device : ListDevice → ℕ → Bool → HostAction ℕ
  write_normal_device info file_length verify =
      if not (info.device_size % transfer_block_size == 0)
      then give_up env
      else if page_value info.page_size == 0
      then crash
      else (do
        note (begin_progress (some (round_up file_length transfer_block_size)))
        write_blocks transfer_block_size (transfer_block_size / page_value info.page_size)
            file_length verify (round_up file_length transfer_block_size) 0)

  unfoldable pub write_tiny_device : ListDevice → ℕ → HostAction ℕ
  write_tiny_device info file_length = if page_value info.page_size == 0 then crash else (do
    note (begin_progress (some (round_up file_length (page_value info.page_size))))
    write_blocks (page_value info.page_size) 1 file_length false
        (round_up file_length (page_value info.page_size)) 0)

  unfoldable pub write_contents : ListDevice → ℕ → Bool → HostAction ℕ
  write_contents info file_length verify =
      if ltb info.device_size transfer_block_size
      then write_tiny_device info file_length
      else write_normal_device info file_length verify

  -- A length that fits the chip. `fileLength > chipInfo.deviceSize` compares 64-bit numbers.
  unfoldable pub fitting_length : Option ℕ → ℕ → Option ℕ
  fitting_length none size = none
  fitting_length (some n) size = if ltb size n then none else some n

  unfoldable pub write_file_to : ListDevice → ℕ → Bool → HostAction ℕ
  write_file_to info file_length verify = do
    erased ← erase_file_pages env info file_length
    if erased == 0 then write_contents info file_length verify else return erased

  unfoldable pub write_claimed : Chip → Bool → HostAction ℕ
  write_claimed chip verify = do
    file ← gets env.opens_file
    if not file then give_up env else (do
      info ← read_chip_info env chip
      length ← gets env.file_length
      or_else (fitting_length length info.device_size) (give_up env) λ file_length. do
        selected ← select_chip env chip
        if not selected then give_up env else (do
          result ← write_file_to info file_length verify
          if result == 0 then finish env 0 else return result))

  unfoldable pub write_device : Chip → Bool → HostAction ℕ
  write_device chip verify = with_device env (write_claimed chip verify)
