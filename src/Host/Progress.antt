-- ===== src/Host/Progress.antt =====
-- The arithmetic of software/progress.cxx. The product of fractions that says how much of the bar is
-- full is the compiler's, and a parameter; so are the clock, the window and the texts' sizes.
pub mod Line
pub mod Elapsed
use spiflash_programmer.Prelude.{
  ℕ, ◌+◌, ◌-◌, ◌*◌, ◌/◌, ◌%◌, ◌^◌, ◌≤◌, ◌<◌, ◌≡◌, Bool, true, false, List, [], ◌∷◌, ◌++◌, Option,
  none, some, length, replicate, ltb, leb, if◌then◌else◌, arith, length-replicate, length-append,
  zero, suc,
}

-- `size_t` of the host.
abbrev pub add64 : ℕ → ℕ → ℕ
add64 a b = (a + b) % 2 ^ 64

abbrev pub sub64 : ℕ → ℕ → ℕ
sub64 a b = (a + 2 ^ 64 - b) % 2 ^ 64

pub record ProgressBar : Type 0 where
  pub count : ℕ
  pub total : Option ℕ
  pub rows : ℕ
  pub cols : ℕ
  pub spinner_step : ℕ
  pub last_spin : ℕ
  pub disable : Bool

-- `updateWindowSize`: what the terminal says, or else the two environment variables if both are set.
unfoldable pub update_window_size : Option (ℕ × ℕ) → Option (ℕ × ℕ) → ProgressBar → ProgressBar
update_window_size (some (rows, columns)) variables bar = record bar {
  rows = rows;
  cols = sub64 columns 7;
}
update_window_size none (some (rows, columns)) bar = record bar {
  rows = rows;
  cols = sub64 columns 7;
}
update_window_size none none bar = bar

-- Glyph `n` of `charset` is `n` eighths of a block.
unfoldable pub bar_glyphs : ℕ → ℕ → List ℕ
bar_glyphs eighths width =
    replicate (eighths / 8) 8
    ++ (if ltb (eighths / 8) width
        then (eighths % 8) ∷ replicate (width - eighths / 8 - 1) 0
        else [])

-- `barLength`: the sizes of the prefix and the percentage, with the separators' and one more.
unfoldable pub bar_length : ℕ → ℕ
bar_length prefix = prefix + 2 + 4 + 3 + 1 + 1

unfoldable pub bar_width : ProgressBar → ℕ → ℕ
unfolding bar_length
bar_width bar prefix =
    let room = sub64 bar.cols (bar_length prefix) in if leb room 1 then 1 else room

-- The spinner turns at most every 75 ms, and has six positions.
unfoldable pub spin_step : ℕ → ProgressBar → ProgressBar
spin_step now bar =
    if leb 75 (now - bar.last_spin)
    then record bar { spinner_step = (bar.spinner_step + 1) % 6; last_spin = now }
    else bar

unfoldable pub advance : ℕ → ℕ → ProgressBar → ProgressBar
unfolding spin_step
advance amount now bar = spin_step now (record bar { count = add64 bar.count amount })

-- The second part says whether a line is ended.
unfoldable pub close : ProgressBar → ProgressBar × Bool
close bar = if bar.disable then (bar, false) else (record bar { disable = true }, true)

-- The minutes and seconds that are put into a bar with no total.
unfoldable pub elapsed : ℕ → ℕ × ℕ
elapsed seconds = (seconds / 60, seconds % 60)

abbrev pub sum : List ℕ → ℕ
sum [] = 0
sum (x ∷ xs) = x + sum xs

sum-append : (xs ys : List ℕ) → sum (xs ++ ys) ≡ sum xs + sum ys
sum-append [] ys = omega arith
sum-append (x ∷ xs) ys = omega (arith, sum-append xs ys)

sum-replicate : (n x : ℕ) → sum (replicate n x) ≡ n * x
sum-replicate zero x = omega arith
sum-replicate (suc n) x = grind (arith, sum-replicate n x)

-- As long as the progress is no more than the whole, the bar is as wide as it was asked to be, and its
-- glyphs show exactly the eighths that are done.
pub bar_glyphs_exact :
    (eighths width : ℕ)
    → eighths ≤ width * 8
    → (length (bar_glyphs eighths width) ≡ width) × (sum (bar_glyphs eighths width) ≡ eighths)
unfolding bar_glyphs
bar_glyphs_exact eighths width h =
    let full : ℕ = eighths / 8 in
    let rest : List ℕ =
      if ltb full width then (eighths % 8) ∷ replicate (width - full - 1) 0 else [] in
    ground (
      arith,
      length-append (replicate full 8) rest,
      sum-append (replicate full 8) rest,
      length-replicate {A = ℕ} full 8,
      length-replicate {A = ℕ} (width - full - 1) 0,
      sum-replicate full 8,
      sum-replicate (width - full - 1) 0,
    )

-- In a window that is narrower than the texts around the bar, and has a size at all, the bar's width
-- wraps around to more than 2 ^ 63.
pub bar_width_wraps :
    (bar : ProgressBar) (prefix : ℕ)
    → bar.cols < bar_length prefix
    → prefix < 2 ^ 32
    → 2 ^ 63 < bar_width bar prefix
unfolding bar_width bar_length
bar_width_wraps bar prefix narrow short = ground arith
