-- ===== src/Host/Requests.antt =====
-- `requests` of common/include/usbProtocol.hxx, with `writeControl` and `readControl` of
-- software/include/usbDevice.hxx: the control transfers that the host asks libusb for.
use spiflash_programmer.Prelude.{ℕ, ◌+◌, ◌*◌, Bool, true, false, List, [], ◌∷◌, u8, ◌>>>◌, length}
use spiflash_programmer.Protocol.{
  Message, device_count, list_device, target_device, erase, read, write, verified_write, status,
  abort, sfdp, message_code, FlashBus, bus_code, EraseOperation, erase_code,
}
use spiflash_programmer.Protocol.Page.{Page}
use spiflash_programmer.Protocol.Transport.{
  controller_in, controller_out, interface, type_class, request_type, set_dir,
}

-- The arguments of `libusb_control_transfer`. `payload` is what the host sends, and `length` the size
-- of its buffer.
pub record Transfer : Type 0 where
  pub kind : ℕ
  pub request : ℕ
  pub value : ℕ
  pub index : ℕ
  pub payload : List ℕ
  pub length : ℕ

-- `requestType.dir` changes the direction that the caller gave.
unfoldable pub write_control : ℕ → ℕ → ℕ → ℕ → List ℕ → Transfer
write_control kind request value index payload = record {
  kind = set_dir kind controller_out;
  request = request;
  value = value;
  index = index;
  payload = payload;
  length = length payload;
}

unfoldable pub read_control : ℕ → ℕ → ℕ → ℕ → ℕ → Transfer
read_control kind request value index size = record {
  kind = set_dir kind controller_in;
  request = request;
  value = value;
  index = index;
  payload = [];
  length = size;
}

-- `requestType_t{recipient_t::interface, request_t::typeClass}`.
unfoldable pub interface_request : ℕ
interface_request = request_type interface type_class

-- `std::memcpy` of an address over a 16-bit number.
unfoldable pub address_value : ℕ → FlashBus → ℕ
address_value number bus = number + bus_code bus * 256

abbrev pub page_bytes : Page → List ℕ
page_bytes p = p.byte0 ∷ p.byte1 ∷ p.byte2 ∷ []

abbrev pub word_bytes : ℕ → List ℕ
word_bytes n = u8 n ∷ u8 (n >>> 8) ∷ u8 (n >>> 16) ∷ u8 (n >>> 24) ∷ []

-- The structs of `requests`, with the arguments of their `read` or `write`.
pub data HostRequest : Type 0 where
  count_devices read_status abort_all : HostRequest
  list_chip target_chip : ℕ → FlashBus → HostRequest
  erase_pages : Page → Page → EraseOperation → HostRequest
  read_page : Page → ℕ → HostRequest
  write_page : Page → Bool → ℕ → HostRequest
  read_sfdp_at : ℕ → ℕ → HostRequest

abbrev pub write_message : Bool → Message
write_message true = verified_write
write_message false = write

-- The message that each of them names.
unfoldable pub message_sent : HostRequest → Message
message_sent count_devices = device_count
message_sent read_status = status
message_sent abort_all = abort
message_sent (list_chip number bus) = list_device
message_sent (target_chip number bus) = target_device
message_sent (erase_pages begin end operation) = erase
message_sent (read_page page count) = read
message_sent (write_page page verify count) = write_message verify
message_sent (read_sfdp_at address count) = sfdp

-- The sizes are those that the `static_assert`s of the replies state.
unfoldable pub transfer_of : HostRequest → ℕ → Transfer
transfer_of count_devices index =
    read_control interface_request (message_code device_count) 0 index 3
transfer_of read_status index = read_control interface_request (message_code status) 0 index 5
transfer_of abort_all index = write_control interface_request (message_code abort) 0 index []
transfer_of (list_chip number bus) index =
    read_control interface_request (message_code list_device) (address_value number bus) index 16
transfer_of (target_chip number bus) index =
    write_control interface_request (message_code target_device) (address_value number bus) index []
transfer_of (erase_pages begin end operation) index =
    write_control interface_request (message_code erase) (erase_code operation) index
      (begin.byte0 ∷ begin.byte1 ∷ begin.byte2 ∷ end.byte0 ∷ end.byte1 ∷ end.byte2 ∷ [])
transfer_of (read_page page count) index =
    write_control interface_request (message_code read) count index (page_bytes page)
transfer_of (write_page page verify count) index =
    write_control interface_request (message_code (write_message verify)) count index
      (page_bytes page)
transfer_of (read_sfdp_at address count) index =
    write_control interface_request (message_code sfdp) count index (word_bytes address)
