-- ===== src/Spi/Select.antt =====
-- The chip selects of firmware/spi.cxx, read back from the log of pin writes.
use spiflash_programmer.Prelude.{
  ℕ, ◌+◌, ◌-◌, ◌/◌, ◌%◌, ◌≤◌, ◌≡◌, refl, arith, Bool, List, [], ◌∷◌, ◌==◌, Option, none, some,
  if◌then◌else◌,
}
use spiflash_programmer.Machine.{
  World, Board, Event, SpiChip, local1, local2, target, Ssi, cs_target, cs_local, transfer, wait_us,
  led,
}
use spiflash_programmer.Machine.Action.{done, Env, modify, emit}
use spiflash_programmer.Machine.Keeps.{
  Keeps, After, Keeps-bind, Keeps-pure, Keeps-get, Keeps-deref, Keeps-if, Keeps-modify,
}
use spiflash_programmer.Spi.{
  select_pins, spi_select, spi_read, spi_write, spi_write_selected, spi_device, set_device_reset,
  wait_for, led_set_colour, spi_reset_clocks, spi_set_clock, read_manufacturer, read_id,
  ident_device,
}

-- The value last written to each port.
abbrev pub target_pin : List Event → ℕ
target_pin [] = 0x08
target_pin (cs_target v ∷ log) = v
target_pin (_ ∷ log) = target_pin log

abbrev pub local_pins : List Event → ℕ
local_pins [] = 0x03
local_pins (cs_local v ∷ log) = v
local_pins (_ ∷ log) = local_pins log

-- How many chip selects are low, which is active.
abbrev pub low_count : ℕ → ℕ → ℕ
low_count t l = (if t == 0 then 1 else 0) + (1 - l % 2) + (1 - l / 2 % 2)

abbrev pub target_level : SpiChip → ℕ
target_level target = 0x00
target_level _ = 0x08

abbrev pub local_level : SpiChip → ℕ
local_level local1 = 0x02
local_level local2 = 0x01
local_level _ = 0x03

-- At no moment of the log are two chips selected.
abbrev pub IsExclusive : List Event → Type 0
IsExclusive [] = Unit {0}
IsExclusive (e ∷ log) =
    (low_count (target_pin (e ∷ log)) (local_pins (e ∷ log)) ≤ 1) × IsExclusive log

-- The pins are those of the chip that the code takes for selected.
pub record IsWired (b : Board) : Type 0 where
  pub exclusive : IsExclusive b.log
  pub target_agrees : target_pin b.log ≡ target_level b.selected
  pub local_agrees : local_pins b.log ≡ local_level b.selected

abbrev pub Wired : World → Type 0
Wired s = IsWired s.board

level-low : (chip : SpiChip) → low_count (target_level chip) (local_level chip) ≤ 1
level-low target = omega arith
level-low _ = omega arith

IsWired-low : {b : Board} → IsWired b → low_count (target_pin b.log) (local_pins b.log) ≤ 1
IsWired-low {b} w = rw (w.target_agrees, w.local_agrees) (level-low b.selected)

-- An event that is no write of a chip select.
abbrev pub IsQuiet : Event → Type 0
IsQuiet (cs_target v) = ⊥
IsQuiet (cs_local v) = ⊥
IsQuiet _ = Unit {0}

pub IsWired-event :
    (b : Board) (e : Event) → IsQuiet e → IsWired b → IsWired (record b { log = e ∷ b.log })
IsWired-event b (cs_target v) q w = absurd q
IsWired-event b (cs_local v) q w = absurd q
IsWired-event b _ q w = record {
  exclusive = (IsWired-low w, w.exclusive);
  target_agrees = w.target_agrees;
  local_agrees = w.local_agrees;
}

pub Keeps-emit : (e : Event) → IsQuiet e → Keeps Wired (modify (emit e))
Keeps-emit e q = record { run = λ s w. IsWired-event s.board e q w }

local-low : (chip : SpiChip) → low_count 0x08 (local_level chip) ≤ 1
local-low local1 = omega arith
local-low _ = omega arith

pub IsWired-local : {b : Board} → IsWired b → low_count 0x08 (local_pins b.log) ≤ 1
IsWired-local {b} w = rw w.local_agrees (local-low b.selected)

target-low : (t : ℕ) → low_count t 0x03 ≤ 1
target-low t = ground arith

-- From a state in which the pins are those of the selected chip, `spiSelect` brings them to those
-- of the new chip, and at no moment on the way are two chips selected.
pub select-IsWired :
    (chip : SpiChip) (b : Board)
    → IsWired b
    → IsWired (record b { log = select_pins chip b.log; selected = chip })
unfolding select_pins
select-IsWired local1 b w = record {
  exclusive = (omega arith, (IsWired-local w, w.exclusive));
  target_agrees = refl;
  local_agrees = refl;
}
select-IsWired local2 b w = record {
  exclusive = (omega arith, (IsWired-local w, w.exclusive));
  target_agrees = refl;
  local_agrees = refl;
}
select-IsWired target b w = record {
  exclusive = (omega arith, (target-low (target_pin b.log), w.exclusive));
  target_agrees = refl;
  local_agrees = refl;
}
select-IsWired SpiChip.none b w = record {
  exclusive = (omega arith, (target-low (target_pin b.log), w.exclusive));
  target_agrees = refl;
  local_agrees = refl;
}

pub spi_select-Keeps : (chip : SpiChip) → Keeps Wired (spi_select chip)
unfolding spi_select
spi_select-Keeps chip = record { run = λ s w. select-IsWired chip s.board w }

pub spi_write-Keeps : (device : Ssi) (v : ℕ) → Keeps Wired (spi_write device v)
unfolding spi_write
spi_write-Keeps device v = Keeps-emit (transfer device v) tt

pub led_set_colour-Keeps : (r g b : Bool) → Keeps Wired (led_set_colour r g b)
unfolding led_set_colour
led_set_colour-Keeps r g b = Keeps-emit (led r g b) tt

pub wait_for-Keeps : (us : ℕ) → Keeps Wired (wait_for us)
unfolding wait_for
wait_for-Keeps us = Keeps-emit (wait_us us) tt

pub spi_reset_clocks-Keeps : Keeps Wired spi_reset_clocks
unfolding spi_reset_clocks
spi_reset_clocks-Keeps = record { run = λ s w. IsWired-event _ _ tt (IsWired-event s.board _ tt w) }

pub set_device_reset-Keeps : (state : Bool) → Keeps Wired (set_device_reset state)
unfolding set_device_reset
set_device_reset-Keeps state = record {
  run = λ s w. record {
    exclusive = (IsWired-low w, w.exclusive);
    target_agrees = w.target_agrees;
    local_agrees = w.local_agrees;
  };
}

pub spi_set_clock-Keeps : (chip : SpiChip) (mhz : ℕ) → Keeps Wired (spi_set_clock chip mhz)
unfolding spi_set_clock
spi_set_clock-Keeps local1 mhz = Keeps-emit _ tt
spi_set_clock-Keeps local2 mhz = Keeps-emit _ tt
spi_set_clock-Keeps target mhz = Keeps-emit _ tt
spi_set_clock-Keeps SpiChip.none mhz = Keeps-pure tt

pub spi_write_selected-Keeps : (v : ℕ) → Keeps Wired (spi_write_selected v)
unfolding spi_write_selected
spi_write_selected-Keeps v = record { run = λ s w. written s w (spi_device s.selected) }
  where
    written :
        (s : World)
        → Wired s
        → (device : Option Ssi)
        → After Wired (elim device [ none ↦ done (tt, s) | some port ↦ spi_write port v s ])
    written s w none = w
    written s w (some port) = (spi_write-Keeps port v).run s w

module _ (env : Env) where
  pub spi_read-Keeps : (device : Ssi) → Keeps Wired (spi_read env device)
  unfolding spi_read
  spi_read-Keeps device = record { run = λ s w. IsWired-event s.board (transfer device 0) tt w }

pub ruleset keeps = (
  Keeps-bind, Keeps-pure, Keeps-get, Keeps-deref, Keeps-if, spi_select-Keeps, spi_write-Keeps,
  spi_read-Keeps,
)

module _ (env : Env) where
  pub read_manufacturer-Keeps :
      (chip : SpiChip) (device : Ssi) → Keeps Wired (read_manufacturer env chip device)
  unfolding read_manufacturer
  read_manufacturer-Keeps chip device = search keeps

  pub read_id-Keeps : (chip : SpiChip) → Keeps Wired (read_id env chip)
  unfolding read_id
  read_id-Keeps chip = search (keeps, read_manufacturer-Keeps) depth 12

  pub ident_device-Keeps :
      (chip : SpiChip) (release : Bool) → Keeps Wired (ident_device env chip release)
  unfolding ident_device
  ident_device-Keeps chip release =
      search
        (keeps, set_device_reset-Keeps, wait_for-Keeps, spi_write_selected-Keeps, read_id-Keeps)
        depth 12
