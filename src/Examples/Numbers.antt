-- ===== src/Examples/Numbers.antt =====
-- Pages, logarithms, clocks, messages and reports.
use spiflash_programmer.Prelude.{
  ℕ, true, arith, ◌≡◌, ◌≤◌, ◌<◌, ◌*◌, ◌+◌, ◌-◌, ◌^◌, suc, ap, ◌∙◌, ◌%◌,
}
use spiflash_programmer.Protocol.Page.{Page}
use spiflash_programmer.Protocol.Layout.{ListDevice, Status, encode_list_device, encode_status}
use spiflash_programmer.Host.Chips.{list_device_in, status_in}
use spiflash_programmer.Host.Replies.{list_device_in-encode_list_device, status_in-encode_status}
use spiflash_programmer.Flash.Log2.{log2, log2_portable}
use spiflash_programmer.Flash.Capacity.{log2_portable_bounds}
use spiflash_programmer.Flash.Agree.{CountsZeros, log2_agree}
use spiflash_programmer.Spi.{clock_divider}
use spiflash_programmer.Spi.Clock.{clock_divider_nearest}
use native.Mathlib.Nat.{pow-suc}

abbrev example_page : Page
example_page = record { byte0 = 255; byte1 = 255; byte2 = 0 }

abbrev example_report : Status
example_report = record { erase_complete = 2; erase_page = example_page; write_ok = true }

status_in-encode_status_example : status_in (encode_status example_report) ≡ example_report
status_in-encode_status_example = status_in-encode_status example_report

abbrev example_listing : ListDevice
example_listing = record {
  manufacturer = 0xef;
  device_type = 0x40;
  device_size = 0x80_0000;
  page_size = example_page;
  erase_size = example_page;
}

list_device_in-encode_list_device_example :
    list_device_in (encode_list_device example_listing) ≡ example_listing
list_device_in-encode_list_device_example =
    list_device_in-encode_list_device example_listing (omega arith)

-- The number of zeros in front of a number's bits, of 32.
abbrev leading_zeros : ℕ → ℕ
leading_zeros v = 32 - log2_portable v

log2_portable_range : (v : ℕ) → 0 < v → v < 2 ^ 32 → (0 < log2_portable v) × (log2_portable v ≤ 32)
unfolding log2_portable
log2_portable_range v p h = ground arith

leading_zeros-CountsZeros : CountsZeros leading_zeros
leading_zeros-CountsZeros v p h =
    let (low, high) = log2_portable_range v p h in
    let (d, e) = log2_portable_bounds v p h in
    let r : 31 - (32 - log2_portable v) ≡ log2_portable v - 1 = omega arith in
    let q : 32 - (32 - log2_portable v) ≡ log2_portable v = omega arith in
    let half : 2 ^ log2_portable v ≡ 2 ^ (log2_portable v - 1) * 2 =
      (let e : log2_portable v ≡ suc (log2_portable v - 1) = omega arith in
        ap (λ n. 2 ^ n) e ∙ pow-suc 2 (log2_portable v - 1)) in
    (omega arith, rw r (omega arith), rw q e)

log2_agree_example : log2 leading_zeros 4096 ≡ log2_portable 4096
log2_agree_example = log2_agree leading_zeros 4096 leading_zeros-CountsZeros (omega arith)

clock_divider_nearest_example :
    (clock_divider 33 % 2 ≡ 0) × (clock_divider 33 * 33 ≤ 80) × (80 < (clock_divider 33 + 2) * 33)
clock_divider_nearest_example = clock_divider_nearest 33 (omega arith) (omega arith)
