-- ===== src/Protocol.antt =====
-- common/include/usbProtocol.hxx: the values that host and firmware exchange.
pub mod Page
pub mod Layout
pub mod Transport
use spiflash_programmer.Prelude.{ℕ, Option, none, some, ◌==◌, if◌then◌else◌, ◌≡◌, ◌↔◌, arith}

pub data Message : Type 0 where
  device_count list_device target_device erase read write verified_write : Message
  reset_target status abort sfdp : Message

-- The numbers that the compiler gives to `messages_t`, in order.
unfoldable pub message_code : Message → ℕ
message_code device_count = 0
message_code list_device = 1
message_code target_device = 2
message_code erase = 3
message_code read = 4
message_code write = 5
message_code verified_write = 6
message_code reset_target = 7
message_code status = 8
message_code abort = 9
message_code sfdp = 10

-- `static_cast<messages_t>` as the `switch` sees it: a number with no enumerator meets no case.
unfoldable pub message_of : ℕ → Option Message
message_of n =
    if n == 0
    then some device_count
    else if n == 1
    then some list_device
    else if n == 2
    then some target_device
    else if n == 3
    then some erase
    else if n == 4
    then some read
    else if n == 5
    then some write
    else if n == 6
    then some verified_write
    else if n == 7
    then some reset_target
    else if n == 8
    then some status
    else if n == 9
    then some abort
    else if n == 10
    then some sfdp
    else none

pub data FlashBus : Type 0 where
  internal external unknown : FlashBus

unfoldable pub bus_code : FlashBus → ℕ
bus_code internal = 0
bus_code external = 1
bus_code unknown = 2

pub data EraseOperation : Type 0 where
  all page page_range idle : EraseOperation

unfoldable pub erase_code : EraseOperation → ℕ
erase_code all = 0
erase_code page = 1
erase_code page_range = 2
erase_code idle = 3

-- `requests::impl::address_t`: the chip's number and its bus, in the two bytes of `wValue`.
pub record Address : Type 0 where
  pub addr_low : ℕ
  pub addr_high : ℕ

-- The firmware takes the number of a message for that message and for no other, and every other
-- number for none.
pub message_of_iff : (n : ℕ) (m : Message) → (message_of n ≡ some m) ↔ (n ≡ message_code m)
unfolding message_of message_code
message_of_iff n m = ground arith
