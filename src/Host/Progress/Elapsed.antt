-- ===== src/Host/Progress/Elapsed.antt =====
-- The time that `display` of software/progress.cxx puts into a bar with no total.
use mathlib.Core.List.{append_assoc}
use spiflash_programmer.Prelude.{
  ℕ, zero, suc, ◌+◌, ◌-◌, ◌/◌, ◌^◌, ◌≤◌, ◌<◌, ◌≡◌, refl, ◌∙◌, sym, ap, true, List, [], ◌∷◌, ◌++◌,
  map, none, some, length, take, drop, replicate, ltb, leb, if◌then◌else◌, arith, length-append,
  length-replicate, Bool-cases, inl, inr, lt→ltb,
}
use spiflash_programmer.Host.Progress.{
  ProgressBar, sub64, bar_glyphs, bar_length, bar_width, spin_step, elapsed,
}
use spiflash_programmer.Host.Progress.Line.{
  Cell, block, letter, put_at, put_elapsed, total_digits, show_elapsed, display,
}

take-append : (xs ys : List Cell) → take (length xs) (xs ++ ys) ≡ xs
take-append [] ys = refl
take-append (x ∷ xs) ys = ap (◌∷◌ x) (take-append xs ys)

drop-append : (xs ys : List Cell) → drop (length xs) (xs ++ ys) ≡ ys
drop-append [] ys = refl
drop-append (x ∷ xs) ys = drop-append xs ys

-- Characters over as many others in the middle of a string.
put_at-middle :
    (n : ℕ) (xs ys zs cells : List Cell)
    → n ≡ length xs
    → length ys ≡ length cells
    → put_at n cells (xs ++ (ys ++ zs)) ≡ some (xs ++ (cells ++ zs))
unfolding put_at
put_at-middle n xs ys zs cells here same =
    let past : length (xs ++ ys) ≡ n + length cells =
      omega (arith, here, same, length-append {A = Cell} xs ys) in
    let rest : drop (n + length cells) (xs ++ (ys ++ zs)) ≡ zs =
      rw (← past, ← append_assoc xs ys zs) (drop-append (xs ++ ys) zs) in
    let front : take n (xs ++ (ys ++ zs)) ≡ xs = rw here (take-append xs (ys ++ zs)) in
    let fits : leb (n + length cells) (length (xs ++ (ys ++ zs))) ≡ true =
      ground (
        arith,
        here,
        same,
        length-append {A = Cell} xs (ys ++ zs),
        length-append {A = Cell} ys zs,
      ) in
    rw (fits, front, rest) refl

replicate-add : (a b : ℕ) (c : Cell) → replicate (a + b) c ≡ replicate a c ++ replicate b c
replicate-add zero b c = let e : zero + b ≡ b = omega arith in rw e refl
replicate-add (suc a) b c =
    let e : suc a + b ≡ suc (a + b) = omega arith in rw e (ap (◌∷◌ c) (replicate-add a b c))

map-block : (n : ℕ) → map block (replicate n 0) ≡ replicate n (block 0)
map-block zero = refl
map-block (suc n) = ap (◌∷◌ (block 0)) (map-block n)

abbrev pub spaces : ℕ → List Cell
spaces n = replicate n (block 0)

-- With nothing done, a bar of at least one place is all spaces.
bar_glyphs-empty : (width : ℕ) → 0 < width → map block (bar_glyphs 0 width) ≡ spaces width
unfolding bar_glyphs
bar_glyphs-empty zero positive = absurd (omega arith)
bar_glyphs-empty (suc w) positive =
    let e : suc w - 0 - 1 ≡ w = omega arith in
    let head : ltb 0 (suc w) ≡ true = ground arith in
    rw (head, e) (ap (◌∷◌ (block 0)) (map-block w))

-- A bar of `before` spaces, the time, and `after` spaces.
abbrev pub timed : ℕ → List Cell → List Cell → ℕ → List Cell
timed before mins secs after =
    spaces before ++ (mins ++ (letter b'm' ∷ block 0 ∷ (secs ++ (letter b's' ∷ spaces after))))

-- A bar of spaces, cut where the time's parts will stand.
spaces-parts :
    (before m s after : ℕ)
    → spaces (before + (m + (2 + (s + suc after))))
      ≡ spaces before ++ (spaces m ++ (block 0 ∷ block 0 ∷ (spaces s ++ (block 0 ∷ spaces after))))
spaces-parts before m s after =
    let c : Cell = block 0 in
    replicate-add before _ c
    ∙ ap (◌++◌ (spaces before)) (
        replicate-add m _ c
        ∙ ap (◌++◌ (spaces m)) (
            replicate-add 2 _ c
            ∙ ap (λ (l : List Cell). c ∷ c ∷ l) (replicate-add s (suc after) c)))

put_elapsed_lem :
    (before after : ℕ) (mins secs : List Cell)
    → put_elapsed before mins secs
        (spaces (before + (length mins + (2 + (length secs + suc after)))))
      ≡ some (timed before mins secs after)
unfolding put_elapsed
put_elapsed_lem before after mins secs =
    let c : Cell = block 0 in
    let rest0 : List Cell = c ∷ c ∷ (spaces (length secs) ++ (c ∷ spaces after)) in
    let rest1 : List Cell = c ∷ (secs ++ (c ∷ spaces after)) in
    let blanks = spaces-parts before (length mins) (length secs) after in
    let sized : length (spaces before) ≡ before = length-replicate {A = Cell} before c in
    let step1 =
      put_at-middle before (spaces before) (spaces (length mins)) rest0 mins (sym sized)
        (length-replicate {A = Cell} (length mins) c) in
    let front : List Cell = spaces before ++ mins in
    let front_size : length front ≡ before + length mins =
      omega (arith, sized, length-append {A = Cell} (spaces before) mins) in
    let tail2 : List Cell = c ∷ (spaces (length secs) ++ (c ∷ spaces after)) in
    let step2 =
      put_at-middle (before + length mins) front (c ∷ []) tail2 (letter b'm' ∷ []) (sym front_size)
        refl in
    let front3 : List Cell = front ++ (letter b'm' ∷ c ∷ []) in
    let front3_size : length front3 ≡ before + length mins + 2 =
      omega (arith, front_size, length-append {A = Cell} front (letter b'm' ∷ c ∷ [])) in
    let step3 =
      put_at-middle (before + length mins + 2) front3 (spaces (length secs)) (c ∷ spaces after) secs
        (sym front3_size) (length-replicate {A = Cell} (length secs) c) in
    let front4 : List Cell = front3 ++ secs in
    let front4_size : length front4 ≡ before + length mins + 2 + length secs =
      omega (arith, front3_size, length-append {A = Cell} front3 secs) in
    let step4 =
      put_at-middle (before + length mins + 2 + length secs) front4 (c ∷ []) (spaces after)
        (letter b's' ∷ []) (sym front4_size) refl in
    let join1 : spaces before ++ (mins ++ rest0) ≡ front ++ ((c ∷ []) ++ tail2) =
      sym (append_assoc (spaces before) mins rest0) in
    let join2 : front ++ ((letter b'm' ∷ []) ++ tail2)
        ≡ front3 ++ (spaces (length secs) ++ (c ∷ spaces after)) =
      sym (append_assoc front (letter b'm' ∷ c ∷ []) _) in
    let join3 : front3 ++ (secs ++ (c ∷ spaces after)) ≡ front4 ++ ((c ∷ []) ++ spaces after) =
      sym (append_assoc front3 secs _) in
    let join4 : front4 ++ ((letter b's' ∷ []) ++ spaces after) ≡ timed before mins secs after =
      append_assoc front3 secs _
      ∙ append_assoc front (letter b'm' ∷ c ∷ []) _
      ∙ append_assoc (spaces before) mins _ in
    rw (blanks, step1, join1, step2, join2, step3, join3, step4, join4) refl

-- Outside of the string the first part has no place.
put_elapsed-outside :
    (offset : ℕ) (mins secs bar : List Cell)
    → length bar < offset
    → put_elapsed offset mins secs bar ≡ none
unfolding put_elapsed put_at
put_elapsed-outside offset mins secs bar past = ground arith

-- The room that the texts leave, without a wrap.
bar_width-room :
    (p : ProgressBar) (prefix : ℕ)
    → bar_length prefix ≤ p.cols
    → p.cols < 2 ^ 62
    → bar_width p prefix
      ≡ (if leb (p.cols - bar_length prefix) 1 then 1 else p.cols - bar_length prefix)
unfolding bar_width
bar_width-room p prefix wide narrow =
    let e : sub64 p.cols (bar_length prefix) ≡ p.cols - bar_length prefix = omega arith in rw e refl

module _ (p : ProgressBar) (prefix : ℕ) (mins secs : List Cell) (wide : bar_length prefix ≤ p.cols)
    (narrow : p.cols < 2 ^ 62) (short : total_digits mins secs < bar_length prefix) where
  show_elapsed-fits :
      total_digits mins secs ≤ p.cols - bar_length prefix
      → show_elapsed p prefix mins secs (map block (bar_glyphs 0 (bar_width p prefix)))
        ≡ some (
            timed
              ((p.cols - bar_length prefix - total_digits mins secs) / 2)
              mins
              secs
              ((p.cols - bar_length prefix - total_digits mins secs + 1) / 2))
  unfolding show_elapsed
  show_elapsed-fits fits =
      let room : ℕ = p.cols - bar_length prefix in
      let total : ℕ = total_digits mins secs in
      let before : ℕ = (room - total) / 2 in
      let after : ℕ = (room - total + 1) / 2 in
      let tested : ltb total (bar_length prefix) ≡ true = lt→ltb _ _ short in
      let width : bar_width p prefix ≡ before + (length mins + (2 + (length secs + suc after))) =
        ground (arith, bar_width-room p prefix wide narrow) in
      let place : sub64 (sub64 p.cols (bar_length prefix)) total / 2 ≡ before = omega arith in
      let blank : map block (bar_glyphs 0 (bar_width p prefix))
          ≡ spaces (before + (length mins + (2 + (length secs + suc after)))) =
        bar_glyphs-empty (bar_width p prefix) (omega (arith, width)) ∙ ap spaces width in
      rw (tested, place, blank) (put_elapsed_lem before after mins secs)

  show_elapsed-over :
      p.cols - bar_length prefix < total_digits mins secs
      → show_elapsed p prefix mins secs (map block (bar_glyphs 0 (bar_width p prefix))) ≡ none
  unfolding show_elapsed
  show_elapsed-over over =
      let room : ℕ = p.cols - bar_length prefix in
      let total : ℕ = total_digits mins secs in
      let offset : ℕ = sub64 (sub64 p.cols (bar_length prefix)) total / 2 in
      let tested : ltb total (bar_length prefix) ≡ true = lt→ltb _ _ short in
      let width = bar_width-room p prefix wide narrow in
      let some_room : 0 < bar_width p prefix = ground (arith, width) in
      let size : length (map block (bar_glyphs 0 (bar_width p prefix))) ≡ bar_width p prefix =
        rw (bar_glyphs-empty (bar_width p prefix) some_room)
          (length-replicate {A = Cell} (bar_width p prefix) (block 0)) in
      let far : length (map block (bar_glyphs 0 (bar_width p prefix))) < offset =
        ground (arith, size, width) in
      rw tested (put_elapsed-outside offset mins secs _ far)

-- A bar with no total, begun at `began`, in a window of at least the texts' width and less than
-- 2 ^ 62, whose time is written in fewer characters than the texts. If the time fits into the room
-- that is left, it is displayed in the middle of spaces, with minutes, `m`, a space, seconds and `s`;
-- if it does not, the program writes outside of the bar.
pub display-elapsed :
    (digits : ℕ → List Cell) (eighths : ℕ → ℕ) (prefix now began : ℕ) (p : ProgressBar)
    (mins secs : List Cell)
    → p.total ≡ none
    → digits (elapsed ((now - began) / 1000)).0 ≡ mins
    → digits (elapsed ((now - began) / 1000)).1 ≡ secs
    → bar_length prefix ≤ p.cols
    → p.cols < 2 ^ 62
    → total_digits mins secs < bar_length prefix
    → display digits eighths prefix now (some began) p ≡ (
        if leb (total_digits mins secs) (p.cols - bar_length prefix)
        then some (
          (
            timed
                ((p.cols - bar_length prefix - total_digits mins secs) / 2)
                mins
                secs
                ((p.cols - bar_length prefix - total_digits mins secs + 1) / 2),
            p.spinner_step,
          ),
          spin_step now p,
        )
        else none)
unfolding display
display-elapsed digits eighths prefix now began p mins secs no_total in_mins in_secs wide narrow
      short =
    elim (Bool-cases (leb (total_digits mins secs) (p.cols - bar_length prefix))) [
      | inl fits ↦
          let shows = show_elapsed-fits p prefix mins secs wide narrow short (ground arith) in
          ground (arith, no_total, in_mins, in_secs, fits, shows)
      | inr over ↦
          let breaks = show_elapsed-over p prefix mins secs wide narrow short (ground arith) in
          ground (arith, no_total, in_mins, in_secs, over, breaks)
    ]
