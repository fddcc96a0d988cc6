-- ===== src/Host/Flashed.antt =====
-- The whole of `writeDevice` of software/flashprog.cxx: the wait for the pages that are erased, and
-- the write of the file after it.
use spiflash_programmer.Host.Answers.{ask_taken}
use spiflash_programmer.Host.Returns.{
  Returns, Returns-then, Returns-else, Returns-note, Returns-bind, Returns-return,
}
use spiflash_programmer.Host.Erasing.{wait_pages, erase_file_pages, round_up}
use spiflash_programmer.Prelude.{
  refl, true, false, zero, suc, ◌+◌, Bool-cases, inl, inr, ◌∷◌, sub32, ℕ, ◌≡◌, ◌<◌, some,
  if◌then◌else◌, arith, ◌==◌, ◌∙◌, not, none, ap, ltb, ◌^◌, ◌*◌, ==_self,
}
use spiflash_programmer.Protocol.{page_range, message_code}
use spiflash_programmer.Protocol.Page.{Page, page_value, page_of}
use spiflash_programmer.Protocol.Layout.{Status, ListDevice, no_page, no_status}
use spiflash_programmer.Host.Requests.{transfer_of, read_status, erase_pages, write_control}
use spiflash_programmer.Host.Session.{
  HostEnv, History, begin_progress, add_progress, close_progress, sleep_ms, control, ◌>>=◌, ◌>>◌,
  note, ask, or_else, return, give_up, HostEvent,
}
use spiflash_programmer.Host.Chips.{status_in}
use spiflash_programmer.Host.Erased.{IsErasing, polled, polls_more}
use spiflash_programmer.Host.Memory.{Placed, stored, consumed}
use spiflash_programmer.Host.Targeted.{targeted}
use spiflash_programmer.Protocol.{erase_code}
use spiflash_programmer.Protocol.Page.{page_value-page_of}
use spiflash_programmer.Host.Requests.{read_control}

not_before : (a size : ℕ) → ltb a (page_value no_page * size) ≡ false
unfolding page_value
not_before a size = ground arith

-- Nothing was written to the chip, and nothing read from the file.
abbrev pub IsQuiet : Placed → (ℕ → ℕ) → History → History → Type 0
IsQuiet chip mem log end =
    (stored chip mem end ≡ stored chip mem log)
    × (consumed end ≡ consumed log)
    × (targeted end ≡ targeted log)

module _ (env : HostEnv) (rounds code : ℕ) (chip : Placed) (mem : ℕ → ℕ)
    (h : IsErasing env rounds code) (some_code : 0 < code) where
  IsQuiet-poll :
      (log : History)
      → IsQuiet chip mem log (control (transfer_of read_status 0) ∷ sleep_ms 10 ∷ log)
  unfolding transfer_of read_control message_code
  IsQuiet-poll log = (refl, refl, refl)

  abbrev answered : History → Status
  answered log = status_in (env.on_control log (transfer_of read_status 0)).1

  -- The wait that goes on at `next` ends, and quietly since `log`.
  abbrev Waits : ℕ → Status → Page → History → History → Type 0
  Waits polls s current log next =
      (t : Status) × (end : History) × Returns (wait_pages env polls s current) next (some t) end
      × IsQuiet chip mem log end

  poll_run :
      (polls : ℕ) (s t : Status) (current : Page) (log end : History)
      → s.erase_complete ≡ 0
      → Returns
          (if page_value current == page_value (answered (sleep_ms 10 ∷ log)).erase_page
            then wait_pages env polls (answered (sleep_ms 10 ∷ log)) current
            else (do
              note (
                  add_progress (
                    sub32
                      (page_value (answered (sleep_ms 10 ∷ log)).erase_page)
                      (page_value current)))
              wait_pages env polls
                  (answered (sleep_ms 10 ∷ log))
                  (answered (sleep_ms 10 ∷ log)).erase_page))
          (control (transfer_of read_status 0) ∷ sleep_ms 10 ∷ log)
          (some t)
          end
      → Returns (wait_pages env (suc polls) s current) log (some t) end
  unfolding wait_pages
  poll_run polls s t current log end complete chosen =
      let asked = ask_taken env h.answering read_status (sleep_ms 10 ∷ log) tt in
      let waits : not (s.erase_complete == 0) ≡ false = ground (arith, complete) in
      let polled_then : Returns
          (do
            reply ← ask env read_status
            or_else reply (return none) λ bytes.
                let page = (status_in bytes).erase_page in
                if page_value current == page_value page
                then wait_pages env polls (status_in bytes) current
                else (do
                  note (add_progress (sub32 (page_value page) (page_value current)))
                  wait_pages env polls (status_in bytes) page))
          (sleep_ms 10 ∷ log) (some t) end =
        search (Returns-bind, asked, chosen) depth 12 in
      Returns-else _ waits (Returns-note _ polled_then)

  -- One more round of the wait, whichever page the programmer is at.
  poll_pages :
      (polls : ℕ) (s : Status) (current : Page) (log : History)
      → s.erase_complete ≡ 0
      → ((page : Page) (next : History)
          → IsQuiet chip mem log next
          → polled next ≡ polled log + 1
          → Waits polls (answered (sleep_ms 10 ∷ log)) page log next)
      → Waits (suc polls) s current log log
  poll_pages polls s current log complete rest =
      let slept : History = sleep_ms 10 ∷ log in
      let asked : History = control (transfer_of read_status 0) ∷ slept in
      let counted = polls_more env rounds code h some_code slept in
      let page : Page = (answered slept).erase_page in
      let moved : HostEvent = add_progress (sub32 (page_value page) (page_value current)) in
      elim (Bool-cases (page_value current == page_value page)) [
        | inl e ↦
            let (t, end, run, quiet) = rest current asked (IsQuiet-poll log) counted in
            (t, end, poll_run polls s t current log end complete (Returns-then _ e run), quiet)
        | inr e ↦
            let (t, end, run, quiet) = rest page (moved ∷ asked) (IsQuiet-poll log) counted in
            (
              t,
              end,
              poll_run polls s t current log end complete (Returns-else _ e (Returns-note _ run)),
              quiet,
            )
      ]

  pages_end :
      (polls : ℕ) (s : Status) (current : Page) (log : History)
      → 0 < s.erase_complete
      → Returns (wait_pages env (suc polls) s current) log (some s) log
  unfolding wait_pages
  pages_end polls s current log p =
      let ends : not (s.erase_complete == 0) ≡ true = ground (arith, p) in
      Returns-then _ ends (Returns-return _ _)

  pages_done :
      (left polls : ℕ) (s : Status) (current : Page) (log : History)
      → s.erase_complete ≡ 0
      → polled log + left ≡ rounds
      → left + 1 < polls
      → Waits polls s current log log
  pages_done left zero s current log complete e p = let no : ⊥ = omega (arith, p) in elim no [ ]
  pages_done zero (suc zero) s current log complete e p =
      let no : ⊥ = omega (arith, p) in elim no [ ]
  pages_done zero (suc (suc polls)) s current log complete e p =
      poll_pages (suc polls) s current log complete (λ page next quiet counted. (
        answered (sleep_ms 10 ∷ log),
        next,
        pages_end polls (answered (sleep_ms 10 ∷ log)) page next
            (ground (arith, h.reports (sleep_ms 10 ∷ log), e, some_code)),
        quiet,
      ))
  pages_done (suc left) (suc polls) s current log complete e p =
      poll_pages polls s current log complete (λ page next quiet counted.
        let busy : (answered (sleep_ms 10 ∷ log)).erase_complete ≡ 0 =
          ground (arith, h.reports (sleep_ms 10 ∷ log), e) in
        let (t, end, run, after) =
          pages_done left polls (answered (sleep_ms 10 ∷ log)) page next busy
            (omega (arith, counted, e)) (omega (arith, p)) in
        (t, end, run, (after.0 ∙ quiet.0, after.1 ∙ quiet.1, after.2 ∙ quiet.2)))

  started_lem :
      (log : History) (pages : ℕ)
      → polled (
          control (transfer_of (erase_pages no_page (page_of pages) page_range) 0)
          ∷ begin_progress (some pages)
          ∷ log)
        ≡ polled log
  unfolding transfer_of write_control message_code
  started_lem log pages = refl

  -- The request for the erase empties the chip up to the end of the last page.
  started_empty :
      (pages a : ℕ) (log : History)
      → pages < 2 ^ 24
      → targeted log ≡ some chip.address
      → a < pages * chip.erase_bytes
      → stored chip mem
          (control (transfer_of (erase_pages no_page (page_of pages) page_range) 0)
            ∷ begin_progress (some pages)
            ∷ log)
          a
        ≡ 0xff
  unfolding transfer_of write_control message_code erase_code
  started_empty pages a log few on_chip inside =
      let last : page_value (page_of pages) ≡ pages =
        omega (arith, page_value-page_of pages, few) in
      let before : ltb a (page_value (page_of pages) * chip.erase_bytes) ≡ true =
        rw last (ground (arith, inside)) in
      let none_before : ltb a (page_value no_page * chip.erase_bytes) ≡ false =
        not_before a chip.erase_bytes in
      rw (on_chip, ==_self chip.address, none_before, before) refl

  started_consumed :
      (pages : ℕ) (log : History)
      → (consumed (
            control (transfer_of (erase_pages no_page (page_of pages) page_range) 0)
            ∷ begin_progress (some pages)
            ∷ log)
          ≡ consumed log)
        × (targeted (
              control (transfer_of (erase_pages no_page (page_of pages) page_range) 0)
              ∷ begin_progress (some pages)
              ∷ log)
            ≡ targeted log)
  unfolding transfer_of write_control message_code
  started_consumed pages log = (refl, refl)

  pub erase_file_pages_done :
      (info : ListDevice) (len left : ℕ) (log : History)
      → 0 < page_value info.erase_size
      → polled log + left ≡ rounds
      → left + 1 < env.status_polls
      → round_up len (page_value info.erase_size) < 2 ^ 24
      → targeted log ≡ some chip.address
      → chip.erase_bytes ≡ page_value info.erase_size
      → (end : History) × Returns (erase_file_pages env info len) log 0 end
        × ((a : ℕ)
            → a < round_up len (page_value info.erase_size) * page_value info.erase_size
            → stored chip mem end a ≡ 0xff)
        × (consumed end ≡ consumed log)
        × (targeted end ≡ targeted log)
  unfolding erase_file_pages
  erase_file_pages_done info len left log sized counted enough few on_chip same_size =
      let pages = round_up len (page_value info.erase_size) in
      let begun : History = begin_progress (some pages) ∷ log in
      let asked =
        ask_taken env h.answering (erase_pages no_page (page_of pages) page_range) begun tt in
      let started : History =
        control (transfer_of (erase_pages no_page (page_of pages) page_range) 0) ∷ begun in
      let (t, end, run, quiet) =
        pages_done left env.status_polls no_status no_page started refl
          (ap (λ n. n + left) (started_lem log pages) ∙ counted) enough in
      let paged : (page_value info.erase_size == 0) ≡ false = ground (arith, sized) in
      let waited : Returns
          (do
            erased ← wait_pages env env.status_polls no_status no_page
            or_else erased (give_up env) λ status. do note close_progress; return 0)
          started 0 (close_progress ∷ end) =
        search (Returns-bind, run) depth 12 in
      let rest : Returns
          (do
            started ← ask env (erase_pages no_page (page_of pages) page_range)
            or_else started (give_up env) λ reply. do
              erased ← wait_pages env env.status_polls no_status no_page
              or_else erased (give_up env) λ status. do note close_progress; return 0)
          begun 0 (close_progress ∷ end) =
        search (Returns-bind, asked, waited) depth 12 in
      let (same_consumed, same_target) = started_consumed pages log in
      (
        close_progress ∷ end,
        Returns-else _ paged (Returns-note _ rest),
        λ a inside.
            ap (λ m. m a) quiet.0 ∙ started_empty pages a log few on_chip (rw same_size inside),
        quiet.1 ∙ same_consumed,
        quiet.2 ∙ same_target,
      )
