-- ===== src/Host/Written.antt =====
-- What a write leaves on a chip: the loop of `writeNormalDevice` and `writeTinyDevice` of
-- software/flashprog.cxx, against a chip that holds what it was sent.
use spiflash_programmer.Machine.{write_page}
use spiflash_programmer.Protocol.Transport.{endpoint_address, direction_code}
use spiflash_programmer.Host.Returns.{Returns, Returns-bind, Returns-note}
use spiflash_programmer.Host.Copies.{block_place}
use spiflash_programmer.Host.Writing.{write_blocks}
use spiflash_programmer.Host.Answers.{IsAnswering, ask_taken}
use spiflash_programmer.Prelude.{
  leb, ◌==◌, ==_self, ◌∷◌, ◌+◌, ◌-◌, ◌*◌, length, min, ℕ, List, ◌<◌, take, ◌≡◌, some, arith, suc,
  true, ap, ◌∙◌, ◌≤◌, ◌^◌, sub32, u32, u16, subst, refl, false, zero,
}
use spiflash_programmer.Spi.Stream.{slice}
use spiflash_programmer.Protocol.Page.{page_value, Page, page_of}
use spiflash_programmer.Host.Requests.{transfer_of, write_control, write_page}
use spiflash_programmer.Host.Session.{
  HostEnv, History, control, bulk, read_file, add_progress, load, write_bulk, bulk_transfer,
  close_progress,
}
use spiflash_programmer.Protocol.{message_code}
use spiflash_programmer.Host.Targeted.{targeted, targeted-write}
use spiflash_programmer.Host.Copies.{length-slice}
use spiflash_programmer.Host.Memory.{
  Placed, program, stored, consumed, program-extends, program-beyond, take-slice, block_bound,
  next_place, within_block,
}

-- The contract of a computer and a programmer whose calls do not fail, and of a file with the
-- contents `content`, bytes that are read on from where the last read ended.
pub record IsStoring (env : HostEnv) (content : ℕ → ℕ) : Type 0 where
  pub answering : IsAnswering env
  pub loads :
      (log : History) (n : ℕ) → env.on_read_file log n ≡ some (slice content (consumed log) n)
  pub is_byte : (a : ℕ) → content a < 256
  pub sends :
      (log : History) (endpoint size : ℕ) (bytes : List ℕ)
      → (env.on_bulk log endpoint size bytes).0 ≡ 0

-- What a write of `len` bytes finds before the byte number `at`: the chip is targeted, holds the
-- file's bytes up to there, and is empty from there on.
pub record IsUpTo (chip : Placed) (content mem : ℕ → ℕ) (len at : ℕ) (log : History) : Type 0 where
  pub on_chip : targeted log ≡ some chip.address
  pub right : (a : ℕ) → a < at → a < len → stored chip mem log a ≡ content a
  pub emptied : (a : ℕ) → at ≤ a → a < len → stored chip mem log a ≡ 0xff

module _ (env : HostEnv) (content mem : ℕ → ℕ) (chip : Placed) (h : IsStoring env content) where
  load_done :
      (n : ℕ) (log : History)
      → Returns (load env n) log (some (slice content (consumed log) n)) (read_file n ∷ log)
  unfolding load
  load_done n log = record { run = ground (arith, h.loads log n) }

  sent_done :
      (bytes : List ℕ) (log : History)
      → (reply : List ℕ) × Returns
          (write_bulk env 1 bytes)
          log
          (some reply)
          (bulk 0x01 (length bytes) bytes ∷ log)
  unfolding write_bulk bulk_transfer endpoint_address direction_code
  sent_done bytes log = (
    (env.on_bulk log 0x01 (length bytes) bytes).1,
    record { run = ground (arith, h.sends log 0x01 (length bytes) bytes) },
  )

  -- The chip takes the bytes that were announced.
  stored_page :
      (place : Page) (amount : ℕ) (chunk : List ℕ) (log : History)
      → length chunk ≡ amount
      → 0 < amount
      → amount ≤ 4096
      → targeted log ≡ some chip.address
      → stored chip mem (
          bulk 0x01 (length chunk) chunk
          ∷ read_file amount
          ∷ control (transfer_of (write_page place false (u16 amount)) 0)
          ∷ log)
        ≡ program (page_value place * chip.page_bytes) chunk (stored chip mem log)
  unfolding transfer_of write_control message_code
  stored_page place amount chunk log whole some_bytes few on_chip =
      let count : u16 amount ≡ amount = omega (arith, few) in
      let some_count : (u16 amount == 0) ≡ false = ground (arith, count, some_bytes) in
      let exact : (u16 amount == length chunk) ≡ true = ground (arith, count, whole) in
      let bounded : leb (length chunk) 4096 ≡ true = ground (arith, whole, few) in
      rw (on_chip, some_count, exact, bounded, ==_self chip.address) refl

  amount_lem :
      (len size block : ℕ)
      → len < 2 ^ 32
      → block * size < len
      → min (sub32 (u32 len) (u32 (block * size))) size ≡ min (len - block * size) size
  amount_lem len size block small more = ground arith

  -- The blocks from number `block` on, of a file of `len` bytes.
  pub write_blocks-stored :
      (size pages len n block : ℕ) (log : History)
      → pages * chip.page_bytes ≡ size
      → 0 < pages
      → 0 < size
      → size ≤ 4096
      → len < 2 ^ 32
      → (block + n) * pages ≤ 2 ^ 24
      → (block + n) * size < len + size
      → len ≤ (block + n) * size
      → (0 < n → consumed log ≡ block * size)
      → IsUpTo chip content mem len (block * size) log
      → (end : History) × Returns (write_blocks env size pages len false n block) log 0 end
        × ((a : ℕ) → a < len → stored chip mem end a ≡ content a)
  unfolding write_blocks
  write_blocks-stored size pages len zero block log e some_pages some_size few small fits tight
        cover at before =
      (
        close_progress ∷ log,
        record { run = refl },
        λ a p. before.right a (omega (arith, cover, p)) p,
      )
  write_blocks-stored size pages len (suc n) block log e some_pages some_size few small fits tight
        cover at before =
      let place = page_of (u32 (block * pages)) in
      let amount = min (sub32 (u32 len) (u32 (block * size))) size in
      let more : block * size < len = omega (arith, block_bound block n size len tight) in
      let same_amount : amount ≡ min (len - block * size) size =
        amount_lem len size block small more in
      let place_fits : block * pages < 2 ^ 24 = grind (arith, fits, some_pages) in
      let request : History = control (transfer_of (write_page place false (u16 amount)) 0) ∷ log in
      let loaded : History = read_file amount ∷ request in
      let bytes = slice content (consumed log) amount in
      let chunk = take amount bytes in
      let asked =
        ask_taken env h.answering (write_page place false (u16 amount)) log
          (omega (arith, same_amount, few)) in
      let load_run = load_done amount request in
      let (reply, sent_run) = sent_done chunk loaded in
      let sent : History = bulk 0x01 (length chunk) chunk ∷ loaded in
      let next : History = add_progress 1 ∷ sent in
      let same_chunk : chunk ≡ slice content (block * size) amount =
        take-slice content (consumed log) amount
        ∙ ap (λ c. slice content c amount) (at (omega arith)) in
      let whole : length chunk ≡ amount =
        ap (λ c. length c) same_chunk ∙ length-slice content (block * size) amount in
      let next_at : 0 < n → consumed next ≡ (block + 1) * size = λ some_left.
        next_place block n size len amount (consumed log) (at (omega arith)) same_amount some_left
          (block_bound block n size len tight) in
      let one_more : block + suc n ≡ block + 1 + n = omega arith in
      let now : stored chip mem sent
          ≡ program (block * size) (slice content (block * size) amount) (stored chip mem log) =
        stored_page place amount chunk log whole (omega (arith, same_amount, more, some_size))
          (omega (arith, same_amount, few)) before.on_chip
        ∙ ap (λ b. program b chunk (stored chip mem log))
            (block_place chip.page_bytes size pages block e place_fits)
        ∙ ap (λ c. program (block * size) c (stored chip mem log)) same_chunk in
      let written : IsUpTo chip content mem len ((block + 1) * size) next = record {
        on_chip = targeted-write place (u16 amount) log ∙ before.on_chip;
        right = λ a p q.
            ap (λ f. f a) now
            ∙ program-extends content (stored chip mem log) (block * size) amount h.is_byte
                (λ b r. before.right b r (omega (arith, r, more))) a
                (within_block block size len amount a same_amount p q more)
                (λ above. before.emptied a above q);
        emptied = λ a p q.
            let next_block : (block + 1) * size ≡ block * size + size = grind arith in
            let beyond : block * size + amount ≤ a = omega (arith, same_amount, next_block, p) in
            ap (λ f. f a) now
            ∙ program-beyond (block * size) (slice content (block * size) amount)
                (stored chip mem log) a
                (omega (arith, beyond, length-slice content (block * size) amount))
            ∙ before.emptied a (omega (arith, next_block, p)) q;
      } in
      let (end, run, all_written) =
        write_blocks-stored size pages len n (block + 1) next e some_pages some_size few small
          (subst (λ k. k * pages ≤ 2 ^ 24) one_more fits)
          (subst (λ k. k * size < len + size) one_more tight)
          (subst (λ k. len ≤ k * size) one_more cover) next_at written in
      (
        end,
        search (Returns-bind, asked, load_run, sent_run, Returns-note, run) depth 16,
        all_written,
      )
