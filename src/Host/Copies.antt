-- ===== src/Host/Copies.antt =====
-- What a programmer promises the host about a chip's contents, and that reading copies them.
use spiflash_programmer.Host.Answers.{IsAnswering, ask_taken}
use spiflash_programmer.Host.Returns.{Returns-bind, Returns-note, Returns}
use spiflash_programmer.Prelude.{
  ℕ, zero, suc, ◌+◌, ◌-◌, ◌*◌, ◌^◌, ◌<◌, ◌≤◌, ◌≡◌, refl, true, List, [], ◌∷◌, ◌++◌, some, arith,
  u32, length, ◌∙◌, ap, sym,
}
use mathlib.Core.List.{append_assoc, append-nil}
use spiflash_programmer.Protocol.Page.{Page, page_of, page_value, page_value-page_of}
use spiflash_programmer.Protocol.Transport.{endpoint_address, direction_code}
use spiflash_programmer.Spi.Stream.{slice}
use spiflash_programmer.Proto.Read.Session.{slice-append}
use spiflash_programmer.Host.Requests.{transfer_of, read_page}
use spiflash_programmer.Host.Options.{Chip}
use spiflash_programmer.Host.Targeted.{targeted, chip_address, targeted-read}
use spiflash_programmer.Host.Session.{
  control, bulk, write_file, History, HostEnv, padded, read_bulk, bulk_transfer, save, add_progress,
}
use spiflash_programmer.Host.Chips.{transfer_block_size}
use spiflash_programmer.Host.Reading.{read_blocks}

-- Everything that a history has written to the file, oldest first.
abbrev pub saved : History → List ℕ
saved [] = []
saved (write_file bytes ∷ log) = saved log ++ bytes
saved (_ ∷ log) = saved log

-- The contract of a programmer that serves a chip with the contents `image`, in pages of `page_bytes`
-- bytes, and of a computer whose calls do not fail. While that chip is targeted, a read of up to 4096
-- bytes from a page, asked for just before, gives the contents from the page's first byte on.
pub record IsServing (env : HostEnv) (chip : Chip) (image : ℕ → ℕ) (page_bytes : ℕ) : Type 0 where
  pub answering : IsAnswering env
  pub serves :
      (log : History) (place : Page) (count : ℕ)
      → 0 < count
      → count ≤ 4096
      → targeted log ≡ some (chip_address chip)
      → env.on_bulk (control (transfer_of (read_page place count) 0) ∷ log) 0x81 count []
        ≡ (0, slice image (page_value place * page_bytes) count)
  pub opens_file : (log : History) → env.opens_file log ≡ true
  pub saves : (log : History) (bytes : List ℕ) → env.on_write_file log bytes ≡ true

pub block_bounded : transfer_block_size ≤ 4096
unfolding transfer_block_size
block_bounded = omega arith

pub length-slice : (image : ℕ → ℕ) (a n : ℕ) → length (slice image a n) ≡ n
length-slice image a zero = refl
length-slice image a (suc n) = ap suc (length-slice image (a + 1) n)

padded-slice : (image : ℕ → ℕ) (a n : ℕ) → padded n (slice image a n) ≡ slice image a n
unfolding padded
padded-slice image a n =
    let e : n - length (slice image a n) ≡ 0 = omega (arith, length-slice image a n) in
    rw e (append-nil (slice image a n))

block_joined :
    (image : ℕ → ℕ) (before : List ℕ) (a t n : ℕ)
    → (before ++ slice image (a * t) t) ++ slice image ((a + 1) * t) (n * t)
      ≡ before ++ slice image (a * t) (suc n * t)
block_joined image before a t n =
    let next : (a + 1) * t ≡ a * t + t = grind arith in
    let size : suc n * t ≡ t + n * t = grind arith in
    rw (next, size, slice-append image (a * t) t (n * t))
      (append_assoc before (slice image (a * t) t) (slice image (a * t + t) (n * t)))

-- Block `block` of `size` bytes starts at the page that the loops ask for.
pub block_place :
    (page_bytes size pages block : ℕ)
    → pages * page_bytes ≡ size
    → block * pages < 2 ^ 24
    → page_value (page_of (u32 (block * pages))) * page_bytes ≡ block * size
block_place page_bytes size pages block e small =
    let value = page_value-page_of (u32 (block * pages)) in
    let same : page_value (page_of (u32 (block * pages))) ≡ block * pages = omega (arith, value) in
    rw same (grind (arith, e))

module _ (env : HostEnv) (chip : Chip) (image : ℕ → ℕ) (page_bytes : ℕ)
    (h : IsServing env chip image page_bytes) where
  read_served :
      (place : Page) (count : ℕ) (log : History)
      → 0 < count
      → count ≤ 4096
      → targeted log ≡ some (chip_address chip)
      → Returns
          (read_bulk env 1 count)
          (control (transfer_of (read_page place count) 0) ∷ log)
          (some (slice image (page_value place * page_bytes) count))
          (bulk 0x81 count [] ∷ control (transfer_of (read_page place count) 0) ∷ log)
  unfolding read_bulk bulk_transfer endpoint_address direction_code
  read_served place count log p q on_chip = record {
    run = ground (arith, h.serves log place count p q on_chip);
  }

  save_done :
      (bytes : List ℕ) (log : History) → Returns (save env bytes) log true (write_file bytes ∷ log)
  unfolding save
  save_done bytes log = record { run = ground (arith, h.saves log bytes) }

  pub read_blocks_copies :
      (pages n block : ℕ) (log : History)
      → pages * page_bytes ≡ transfer_block_size
      → 0 < transfer_block_size
      → (block + n) * pages ≤ 2 ^ 24
      → 0 < pages
      → targeted log ≡ some (chip_address chip)
      → (end : History) × Returns (read_blocks env pages n block) log 0 end
        × (saved end
            ≡ saved log ++ slice image (block * transfer_block_size) (n * transfer_block_size))
  unfolding read_blocks
  read_blocks_copies pages zero block log e positive small some_pages on_chip =
      let none_left : 0 * transfer_block_size ≡ 0 = omega arith in
      (_, record { run = refl }, rw none_left (sym (append-nil (saved log))))
  read_blocks_copies pages (suc n) block log e positive small some_pages on_chip =
      let place = page_of (u32 (block * pages)) in
      let fits : block * pages < 2 ^ 24 = grind (arith, small, some_pages) in
      let next_fits : (block + 1 + n) * pages ≤ 2 ^ 24 = grind (arith, small) in
      let asked =
        ask_taken env h.answering (read_page place transfer_block_size) log block_bounded in
      let came = read_served place transfer_block_size log positive block_bounded on_chip in
      let bytes = slice image (page_value place * page_bytes) transfer_block_size in
      let came_log : History =
        bulk 0x81 transfer_block_size []
        ∷ control (transfer_of (read_page place transfer_block_size) 0)
        ∷ log in
      let kept = save_done (padded transfer_block_size bytes) came_log in
      let kept_log : History =
        add_progress 1 ∷ write_file (padded transfer_block_size bytes) ∷ came_log in
      let (end, run, contents) =
        read_blocks_copies pages n (block + 1) kept_log e positive next_fits some_pages
          (targeted-read place transfer_block_size log ∙ on_chip) in
      let same : padded transfer_block_size bytes
          ≡ slice image (block * transfer_block_size) transfer_block_size =
        padded-slice image (page_value place * page_bytes) transfer_block_size
        ∙ ap (λ a. slice image a transfer_block_size)
            (block_place page_bytes transfer_block_size pages block e fits) in
      (
        end,
        search (Returns-bind, asked, came, kept, Returns-note, run) depth 12,
        contents
            ∙ ap
                (λ b.
                  (saved log ++ b)
                  ++ slice image ((block + 1) * transfer_block_size) (n * transfer_block_size))
                same
            ∙ block_joined image (saved log) block transfer_block_size n,
      )
