-- ===== src/Protocol/Transport.antt =====
-- software/include/usbDevice.hxx: the fields of a control request's `bmRequestType`.
use spiflash_programmer.Prelude.{ℕ, bit_and, bit_or}

pub data Direction : Type 0 where
  controller_out controller_in : Direction

unfoldable pub direction_code : Direction → ℕ
direction_code controller_out = 0x00
direction_code controller_in = 0x80

pub data Request : Type 0 where
  type_standard type_class type_vendor : Request

unfoldable pub request_code : Request → ℕ
request_code type_standard = 0x00
request_code type_class = 0x20
request_code type_vendor = 0x40

pub data Recipient : Type 0 where
  device interface endpoint other : Recipient

unfoldable pub recipient_code : Recipient → ℕ
recipient_code device = 0
recipient_code interface = 1
recipient_code endpoint = 2
recipient_code other = 3

unfoldable pub endpoint_address : Direction → ℕ → ℕ
unfolding direction_code
endpoint_address dir number = bit_or (direction_code dir) (bit_and number 0x7f)

-- `requestType_t{recipient, type}`, an OUT request until `dir` changes it.
unfoldable pub request_type : Recipient → Request → ℕ
unfolding recipient_code request_code direction_code
request_type to kind =
    bit_or (bit_or (recipient_code to) (request_code kind)) (direction_code controller_out)

unfoldable pub set_dir : ℕ → Direction → ℕ
unfolding direction_code
set_dir value dir = bit_or (bit_and value 0x7f) (direction_code dir)
