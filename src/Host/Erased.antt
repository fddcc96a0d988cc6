-- ===== src/Host/Erased.antt =====
-- The wait for a chip's erase in `eraseDevice` of software/flashprog.cxx.
use spiflash_programmer.Host.Returns.{
  Returns, Returns-else, Returns-note, Returns-bind, Returns-then, Returns-return,
}
use spiflash_programmer.Host.Erasing.{wait_erased, erase_device, erase_claimed, erase_selected}
use spiflash_programmer.Host.Answers.{IsAnswering, ask_taken, open_done, select_done, finish_done}
use spiflash_programmer.Prelude.{
  zero, suc, ◌==◌, ◌<◌, ℕ, if◌then◌else◌, ◌∷◌, ◌+◌, ◌≡◌, ltb, arith, some, not, false, true, none,
  ◌∙◌, ap, [], refl,
}
use spiflash_programmer.Protocol.{unknown, all, status, message_code}
use spiflash_programmer.Protocol.Layout.{Status, no_status, no_page}
use spiflash_programmer.Host.Requests.{
  transfer_of, read_status, abort_all, target_chip, erase_pages, read_control, write_control,
}
use spiflash_programmer.Host.Session.{
  HostEnv, History, control, claim, release, note, sleep_ms, add_progress, begin_progress,
  close_progress, returned, return, with_device, ask, or_else, ◌>>=◌, ◌>>◌, give_up,
}
use spiflash_programmer.Host.Chips.{status_in, finish}
use spiflash_programmer.Host.Options.{Chip}

-- How often a history has asked for the programmer's status.
abbrev pub polled : History → ℕ
polled [] = 0
polled (control t ∷ log) = if t.request == message_code status then polled log + 1 else polled log
polled (_ ∷ log) = polled log

-- The contract of a programmer whose erase is done after `rounds` answers, from when on its status
-- has the completion `code`.
pub record IsErasing (env : HostEnv) (rounds code : ℕ) : Type 0 where
  pub answering : IsAnswering env
  pub reports :
      (log : History)
      → (status_in (env.on_control log (transfer_of read_status 0)).1).erase_complete
        ≡ (if ltb (polled log) rounds then 0 else code)

module _ (env : HostEnv) (rounds code : ℕ) (h : IsErasing env rounds code)
    (some_code : 0 < code) where
  pub polls_more :
      (log : History) → polled (control (transfer_of read_status 0) ∷ log) ≡ polled log + 1
  unfolding transfer_of read_control message_code
  polls_more log = ground arith

  poll_done :
      (polls : ℕ) (s t : Status) (log end : History)
      → s.erase_complete ≡ 0
      → Returns
          (wait_erased env polls
            (status_in (env.on_control (sleep_ms 125 ∷ log) (transfer_of read_status 0)).1))
          (add_progress 1 ∷ control (transfer_of read_status 0) ∷ sleep_ms 125 ∷ log)
          (some t)
          end
      → Returns (wait_erased env (suc polls) s) log (some t) end
  unfolding wait_erased
  poll_done polls s t log end complete run =
      let asked = ask_taken env h.answering read_status (sleep_ms 125 ∷ log) tt in
      let waits : not (s.erase_complete == 0) ≡ false = ground (arith, complete) in
      let polled_then : Returns
          (do
            reply ← ask env read_status
            or_else reply (return none)
                λ bytes. do note (add_progress 1); wait_erased env polls (status_in bytes))
          (sleep_ms 125 ∷ log) (some t) end =
        search (Returns-bind, asked, Returns-note, run) depth 12 in
      Returns-else _ waits (Returns-note _ polled_then)

  wait_ends :
      (polls : ℕ) (s : Status) (log : History)
      → 0 < s.erase_complete
      → Returns (wait_erased env (suc polls) s) log (some s) log
  unfolding wait_erased
  wait_ends polls s log p =
      let ends : not (s.erase_complete == 0) ≡ true = ground (arith, p) in
      Returns-then _ ends (Returns-return _ _)

  wait_done :
      (left polls : ℕ) (s : Status) (log : History)
      → s.erase_complete ≡ 0
      → polled log + left ≡ rounds
      → left + 1 < polls
      → (t : Status) × (end : History) × Returns (wait_erased env polls s) log (some t) end
        × (t.erase_complete ≡ code)
        × (polled end ≡ rounds + 1)
  wait_done left zero s log complete e p = let no : ⊥ = omega (arith, p) in elim no [ ]
  wait_done zero (suc zero) s log complete e p = let no : ⊥ = omega (arith, p) in elim no [ ]
  wait_done zero (suc (suc polls)) s log complete e p =
      let slept : History = sleep_ms 125 ∷ log in
      let s' : Status = status_in (env.on_control slept (transfer_of read_status 0)).1 in
      let done : s'.erase_complete ≡ code = ground (arith, h.reports slept, e) in
      let end : History = add_progress 1 ∷ control (transfer_of read_status 0) ∷ slept in
      (
        s',
        end,
        poll_done (suc polls) s s' log end complete
            (wait_ends polls s' end (omega (arith, done, some_code))),
        done,
        ground (arith, polls_more slept, e),
      )
  wait_done (suc left) (suc polls) s log complete e p =
      let slept : History = sleep_ms 125 ∷ log in
      let s' : Status = status_in (env.on_control slept (transfer_of read_status 0)).1 in
      let busy : s'.erase_complete ≡ 0 = ground (arith, h.reports slept, e) in
      let next : History = add_progress 1 ∷ control (transfer_of read_status 0) ∷ slept in
      let counted : polled next + left ≡ rounds = omega (arith, polls_more slept, e) in
      let (t, end, run, done, counts) =
        wait_done left polls s' next busy counted (omega (arith, p)) in
      (t, end, poll_done polls s t log end complete run, done, counts)

-- The history once the chip is selected.
abbrev erase_selecting : Chip → History → History
erase_selecting chip log =
    control (transfer_of (target_chip chip.index chip.bus) 0)
    ∷ control (transfer_of abort_all 0)
    ∷ claim 0
    ∷ log

-- The history once the erase of the whole chip has begun.
abbrev erase_started : Chip → History → History
erase_started chip log =
    add_progress 1
    ∷ control (transfer_of (erase_pages no_page no_page all) 0)
    ∷ begin_progress none
    ∷ erase_selecting chip log

-- The history of an erase after the wait.
abbrev finished : History → History
finished end = release 0 ∷ control (transfer_of (target_chip 0 unknown) 0) ∷ close_progress ∷ end

erase_selected_run :
    (env : HostEnv) (chip : Chip) (log end : History) (t : Status)
    → IsAnswering env
    → Returns (wait_erased env env.status_polls no_status) (erase_started chip log) (some t) end
    → Returns
        (erase_selected env)
        (erase_selecting chip log)
        (if t.erase_complete == 1 then 0 else 1)
        (finished end)
unfolding erase_selected
erase_selected_run env chip log end t h run =
    let asked =
      ask_taken env h (erase_pages no_page no_page all)
        (begin_progress none ∷ erase_selecting chip log) tt in
    let done = finish_done env h (if t.erase_complete == 1 then 0 else 1) (close_progress ∷ end) in
    let waited : Returns
        (do
          erased ← wait_erased env env.status_polls no_status
          or_else erased (give_up env) λ status. do
            note close_progress
            finish env (if status.erase_complete == 1 then 0 else 1))
        (erase_started chip log) (if t.erase_complete == 1 then 0 else 1) (finished end) =
      search (Returns-bind, run, Returns-note, done) depth 12 in
    let begun : Returns
        (do
          started ← ask env (erase_pages no_page no_page all)
          or_else started (give_up env) λ reply. do
            note (add_progress 1)
            erased ← wait_erased env env.status_polls no_status
            or_else erased (give_up env) λ status. do
              note close_progress
              finish env (if status.erase_complete == 1 then 0 else 1))
        (begin_progress none ∷ erase_selecting chip log) (if t.erase_complete == 1 then 0 else 1)
        (finished end) =
      search (Returns-bind, asked, Returns-note, waited) depth 12 in
    Returns-note (begin_progress none) begun

erase_device_run :
    (env : HostEnv) (chip : Chip) (log end : History) (t : Status)
    → IsAnswering env
    → Returns (wait_erased env env.status_polls no_status) (erase_started chip log) (some t) end
    → Returns (erase_device env chip) log (if t.erase_complete == 1 then 0 else 1) (finished end)
unfolding erase_device with_device erase_claimed
erase_device_run env chip log end t h run =
    let opened = open_done env h log in
    let select = select_done env h chip (claim 0 ∷ log) in
    search (Returns-bind, opened, select, erase_selected_run env chip log end t h run) depth 16

polled_started : (chip : Chip) (log : History) → polled (erase_started chip log) ≡ polled log
unfolding transfer_of write_control message_code
polled_started chip log = refl

polled_finished :
    (end : History)
    → polled (release 0 ∷ control (transfer_of (target_chip 0 unknown) 0) ∷ close_progress ∷ end)
      ≡ polled end
unfolding transfer_of write_control message_code
polled_finished end = refl

-- Erasing a chip with a programmer whose calls do not fail, and that is done after it has been asked
-- `rounds` times from the operation's start, where the loop may ask that often: the program ends, after asking
-- once more, and returns 0 exactly for the completion 1.
pub erase_device_ends :
    (env : HostEnv) (rounds code : ℕ) (chip : Chip) (log : History)
    → IsErasing env (polled log + rounds) code
    → 0 < code
    → rounds + 1 < env.status_polls
    → (end : History) × (erase_device env chip log ≡ (returned (if code == 1 then 0 else 1), end))
      × (polled end ≡ polled log + rounds + 1)
erase_device_ends env rounds code chip log h some_code enough =
    let counted : polled (erase_started chip log) + rounds ≡ polled log + rounds =
      ap (λ n. n + rounds) (polled_started chip log) in
    let (t, end, run, complete, counts) =
      wait_done env (polled log + rounds) code h some_code rounds env.status_polls no_status
        (erase_started chip log) refl counted enough in
    let ran = erase_device_run env chip log end t h.answering run in
    (
      _,
      ran.run ∙ ap (λ c. (returned (if c == 1 then 0 else 1), finished end)) complete,
      polled_finished end ∙ counts,
    )
