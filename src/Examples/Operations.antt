-- ===== src/Examples/Operations.antt =====
-- The host's operations on a programmer with one chip of 4 KiB, in pages of 256 bytes, whose byte
-- at an address is the address's low byte.
use spiflash_programmer.Host.Listed.{IsUnlisted, is_claimed, list_devices_unlisted}
use spiflash_programmer.Prelude.{
  ℕ, ◌%◌, ◌^◌, ◌<◌, ◌≡◌, refl, true, false, List, [], ◌∷◌, none, some, length, if◌then◌else◌, ltb,
  arith, ◌==◌,
}
use spiflash_programmer.Spi.Stream.{slice}
use spiflash_programmer.Protocol.{external, message_code, device_count}
use spiflash_programmer.Protocol.Layout.{
  ListDevice, Status, no_page, encode_list_device, encode_status,
}
use spiflash_programmer.Host.Requests.{Transfer, transfer_of, read_control, target_chip}
use spiflash_programmer.Host.Options.{Chip}
use spiflash_programmer.Host.Session.{HostEnv, History, returned, control, raised, nested_exception}
use spiflash_programmer.Host.Chips.{status_in, device_count_in, list_devices}
use spiflash_programmer.Host.Erasing.{erase_device}
use spiflash_programmer.Host.Reading.{read_device}
use spiflash_programmer.Host.Writing.{write_device}
use spiflash_programmer.Host.Sfdp.{dump_sfdp}
use spiflash_programmer.Host.Returns.{Returns}
use spiflash_programmer.Host.Answers.{IsAnswering}
use spiflash_programmer.Host.Released.{operations_release}
use spiflash_programmer.Host.Granted.{IsBalanced}
use spiflash_programmer.Host.Erased.{polled, IsErasing, erase_device_ends}
use spiflash_programmer.Host.Memory.{Placed, listed_at, consumed}
use spiflash_programmer.Host.Targeted.{chip_address}
use spiflash_programmer.Host.Progress.{
  ProgressBar, bar_glyphs, bar_glyphs_exact, bar_width, bar_width_wraps, bar_length, sum,
}

abbrev sample_info : ListDevice
sample_info = record {
  manufacturer = 0xef;
  device_type = 0x40;
  device_size = 4096;
  page_size = record { byte0 = 0; byte1 = 1; byte2 = 0 };
  erase_size = record { byte0 = 0; byte1 = 16; byte2 = 0 };
}

abbrev sample_chip : Chip
sample_chip = record { bus = external; index = 0 }

abbrev low_byte : ℕ → ℕ
low_byte a = a % 256

-- An erased chip.
abbrev blank : ℕ → ℕ
blank a = 0xff

-- An erase is done after it has been asked for twice. Each verification succeeds.
abbrev sample_status : History → Status
sample_status log = record {
  erase_complete = if ltb (polled log) 2 then 0 else 1;
  erase_page = no_page;
  write_ok = true;
}

abbrev sample_reply : History → Transfer → List ℕ
sample_reply log t =
    if t.length == 16 then encode_list_device sample_info else encode_status (sample_status log)

abbrev sample_host : HostEnv
sample_host = record {
  opens = λ log. true;
  on_control = λ log t. (some t.length, sample_reply log t);
  on_bulk = λ log endpoint size bytes. (0, slice low_byte 0 size);
  on_interrupt = λ log endpoint size bytes. (0, []);
  on_claim = λ log n. 0;
  on_release = λ log n. 0;
  opens_file = λ log. true;
  file_length = λ log. some 600;
  on_read_file = λ log n. some (slice low_byte (consumed log) n);
  on_write_file = λ log bytes. true;
  status_polls = 8;
}

sample_host-IsAnswering : IsAnswering sample_host
sample_host-IsAnswering = record {
  takes = λ log r modest. refl;
  opens = λ log. refl;
  claims = λ log. refl;
  releases = λ log. refl;
}

sample_host-IsErasing : IsErasing sample_host 2 1
unfolding transfer_of read_control status_in encode_status message_code
sample_host-IsErasing = record { answering = sample_host-IsAnswering; reports = λ log. refl }

operations_release_example :
    IsBalanced sample_host (erase_device sample_host sample_chip)
    × IsBalanced sample_host (read_device sample_host sample_chip)
    × IsBalanced sample_host (write_device sample_host sample_chip true)
    × IsBalanced sample_host (dump_sfdp sample_host sample_chip)
operations_release_example = operations_release sample_host sample_chip true

erase_device_ends_example :
    (end : History) × (erase_device sample_host sample_chip [] ≡ (returned 0, end))
    × (polled end ≡ 3)
erase_device_ends_example =
    erase_device_ends sample_host 2 1 sample_chip [] sample_host-IsErasing (omega arith)
      (omega arith)

-- A history that targets the chip.
abbrev targeting : History
targeting = control (transfer_of (target_chip 0 external) 0) ∷ []

abbrev sample_place : Placed
sample_place = listed_at (chip_address sample_chip) sample_info

bar_glyphs_exact_example : (length (bar_glyphs 21 6) ≡ 6) × (sum (bar_glyphs 21 6) ≡ 21)
bar_glyphs_exact_example = bar_glyphs_exact 21 6 (omega arith)

-- A window of 20 columns, less seven, and the prefix "Erasing chip".
abbrev narrow_bar : ProgressBar
narrow_bar = record {
  count = 0;
  total = none;
  rows = 24;
  cols = 13;
  spinner_step = 0;
  last_spin = 0;
  disable = false;
}

bar_width_wraps_example : 2 ^ 63 < bar_width narrow_bar 12
unfolding bar_length
bar_width_wraps_example = bar_width_wraps narrow_bar 12 (omega arith) (omega arith)

-- A chip that holds zeros.
abbrev full : ℕ → ℕ
full a = 0

-- Two internal chips and an external one are counted, and none of them is listed.
abbrev unlisted_counts : List ℕ
unlisted_counts = 0 ∷ 2 ∷ 1 ∷ []

abbrev unlisted_host : HostEnv
unlisted_host = record sample_host {
  on_release = λ log n. if is_claimed log then 0 else 5;
  on_control = λ log t.
      if t.request == message_code device_count then (some 3, unlisted_counts) else (none, []);
}

unlisted_host-IsUnlisted : IsUnlisted unlisted_host unlisted_counts 5
unfolding transfer_of read_control message_code
unlisted_host-IsUnlisted = record {
  opens = λ log. refl;
  claims = λ log. refl;
  releases = λ log. refl;
  refuses = omega arith;
  counted = λ log. refl;
  fails = λ log number bus. refl;
}

list_devices_unlisted_example :
    (end : History) × (list_devices unlisted_host [] ≡ (raised nested_exception, end))
unfolding device_count_in
list_devices_unlisted_example =
    list_devices_unlisted unlisted_host unlisted_counts 5 unlisted_host-IsUnlisted []
