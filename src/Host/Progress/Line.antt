-- ===== src/Host/Progress/Line.antt =====
-- `display` of software/progress.cxx: the line that it prints, with the time that has gone by where
-- there is no total. The formatting of numbers is the library's, and a parameter.
use spiflash_programmer.Prelude.{
  ℕ, ◌+◌, ◌-◌, ◌/◌, List, [], ◌∷◌, ◌++◌, map, Option, none, some, length, take, drop, ltb, leb,
  if◌then◌else◌,
}
use spiflash_programmer.Host.Progress.{
  ProgressBar, sub64, bar_glyphs, bar_length, bar_width, spin_step, elapsed,
}

-- A place of the bar: a block of so many eighths, of which 0 is a space, or a character.
pub data Cell : Type 0 where
  block : ℕ → Cell
  letter : ℕ → Cell

-- Characters put over a string at an offset; outside of the string they have no place, as `none`.
unfoldable pub put_at : ℕ → List Cell → List Cell → Option (List Cell)
put_at offset cells bar =
    if leb (offset + length cells) (length bar)
    then some (take offset bar ++ (cells ++ drop (offset + length cells) bar))
    else none

abbrev and_then : Option (List Cell) → (List Cell → Option (List Cell)) → Option (List Cell)
and_then none k = none
and_then (some bar) k = k bar

-- The two numbers and their units, one after the other from an offset on. With no total every cell of
-- the bar is a space, of one byte.
unfoldable pub put_elapsed : ℕ → List Cell → List Cell → List Cell → Option (List Cell)
put_elapsed offset mins secs bar = and_then (put_at offset mins bar) λ bar.
    and_then (put_at (offset + length mins) (letter b'm' ∷ []) bar) λ bar.
      and_then (put_at (offset + length mins + 2) secs bar)
        λ bar. put_at (offset + length mins + 2 + length secs) (letter b's' ∷ []) bar

-- `totalDigits`.
abbrev pub total_digits : List Cell → List Cell → ℕ
total_digits mins secs = length mins + length secs + 3

-- The time in a bar, if `totalDigits < barLength`.
unfoldable pub show_elapsed :
    ProgressBar → ℕ → List Cell → List Cell → List Cell → Option (List Cell)
unfolding put_elapsed bar_length
show_elapsed p prefix mins secs bar =
    if ltb (total_digits mins secs) (bar_length prefix)
    then put_elapsed (sub64 (sub64 p.cols (bar_length prefix)) (total_digits mins secs) / 2) mins
        secs bar
    else some bar

-- What is printed between the texts, with the spinner's position.
abbrev pub Line : Type 0
Line = List Cell × ℕ

-- `display` at the time `now`, in milliseconds, where the bar was begun at `start`. `eighths` is the product of
-- fractions for the bar's width, which is 0 with no total.
unfoldable pub display :
    (ℕ → List Cell) → (ℕ → ℕ) → ℕ → ℕ → Option ℕ → ProgressBar → Option (Line × ProgressBar)
unfolding bar_glyphs bar_width spin_step elapsed show_elapsed
display digits eighths prefix now start p =
    let width = bar_width p prefix in
    elim p.total [
      | some total ↦
          some ((map block (bar_glyphs (eighths width) width), p.spinner_step), spin_step now p)
      | none ↦ elim start [
        | none ↦ some ((map block (bar_glyphs 0 width), p.spinner_step), spin_step now p)
        | some began ↦
            elim (show_elapsed p prefix (digits (elapsed ((now - began) / 1000)).0)
              (digits (elapsed ((now - began) / 1000)).1) (map block (bar_glyphs 0 width))) [
                | none ↦ none
                | some bar ↦ some ((bar, p.spinner_step), spin_step now p)
              ]
      ]
    ]
