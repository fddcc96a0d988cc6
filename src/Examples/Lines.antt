-- ===== src/Examples/Lines.antt =====
-- The host's handles, actions and progress line at concrete inputs.
use Prim.Native.String.{String}
use text.Mathlib.Text.{◌==◌ as str_eq}
use spiflash_programmer.Prelude.{
  ℕ, ◌+◌, ◌-◌, ◌/◌, ◌≡◌, refl, true, false, List, [], ◌∷◌, none, some, arith, if◌then◌else◌, leb,
}
use spiflash_programmer.Protocol.{internal}
use spiflash_programmer.Host.Options.{Chip}
use spiflash_programmer.Host.Handles.{Libusb, main_calls, device_list, init}
use spiflash_programmer.Host.Handles.Owned.{is_safe, held, occurrences, opened, main_calls_safe}
use spiflash_programmer.Host.Progress.{ProgressBar, bar_length, elapsed, spin_step}
use spiflash_programmer.Host.Progress.Line.{Cell, letter, total_digits, display}
use spiflash_programmer.Host.Progress.Elapsed.{timed, display-elapsed}

-- Three devices, of which one is a programmer and one has no descriptor.
abbrev example_usb : Libusb
example_usb = record {
  starts = true;
  devices = some (10 ∷ 11 ∷ 12 ∷ []);
  descriptor_of =
      λ d. if leb d 10 then some (0x1209, 0xab0c) else if leb d 11 then none else some (1, 2);
  opens = λ d. some d;
}

main_calls_safe_example :
    (is_safe (main_calls example_usb true) ≡ true)
    × ((d : ℕ)
        → held d (main_calls example_usb true)
          ≡ occurrences d (device_list example_usb (init ∷ [])).0
            + opened d (main_calls example_usb true))
main_calls_safe_example = main_calls_safe example_usb true refl

abbrev example_chip : Chip
example_chip = record { bus = internal; index = 1 }

-- The keys of the two options that are looked up.
abbrev keys : String → String
keys name = if str_eq name "--chip" then "chip" else name

-- A number as one character.
abbrev one_character : ℕ → List Cell
one_character n = letter (n + b'0') ∷ []

abbrev example_bar : ProgressBar
example_bar = record {
  count = 0;
  total = none;
  rows = 24;
  cols = 73;
  spinner_step = 0;
  last_spin = 0;
  disable = false;
}

display-elapsed_example : display one_character (λ width. 0) 10 65000 (some 0) example_bar ≡ (
    if leb (total_digits (one_character 1) (one_character 5)) (73 - bar_length 10)
    then some (
      (
        timed
            ((73 - bar_length 10 - total_digits (one_character 1) (one_character 5)) / 2)
            (one_character 1)
            (one_character 5)
            ((73 - bar_length 10 - total_digits (one_character 1) (one_character 5) + 1) / 2),
        0,
      ),
      spin_step 65000 example_bar,
    )
    else none)
unfolding elapsed bar_length
display-elapsed_example =
    display-elapsed one_character (λ width. 0) 10 65000 0 example_bar (one_character 1)
      (one_character 5) refl refl refl (omega arith) (omega arith) (omega arith)
