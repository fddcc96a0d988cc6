-- ===== src/Protocol/Layout.antt =====
-- The replies of common/include/usbProtocol.hxx as the bytes that go over the wire. Firmware and
-- host copy whole structs, so this is the layout in memory: little endian, with `deviceSize`
-- aligned to four bytes. A value made by `{}` has zeros in the padding.
use spiflash_programmer.Prelude.{ℕ, Bool, true, false, List, [], ◌∷◌, u8, ◌>>>◌}
use spiflash_programmer.Protocol.Page.{Page}

pub record DeviceCount : Type 0 where
  pub internal_count : ℕ
  pub external_count : ℕ

pub record ListDevice : Type 0 where
  pub manufacturer : ℕ
  pub device_type : ℕ
  pub device_size : ℕ
  pub page_size : Page
  pub erase_size : Page

pub record Status : Type 0 where
  pub erase_complete : ℕ
  pub erase_page : Page
  pub write_ok : Bool

-- `status_t{}`.
abbrev pub no_page : Page
no_page = record { byte0 = 0; byte1 = 0; byte2 = 0 }

abbrev pub no_status : Status
no_status = record { erase_complete = 0; erase_page = no_page; write_ok = false }

abbrev pub bool_byte : Bool → ℕ
bool_byte true = 1
bool_byte false = 0

unfoldable pub encode_device_count : DeviceCount → List ℕ
encode_device_count d = 0 ∷ d.internal_count ∷ d.external_count ∷ []

unfoldable pub encode_list_device : ListDevice → List ℕ
encode_list_device d =
    1
    ∷ d.manufacturer
    ∷ d.device_type
    ∷ 0
    ∷ u8 d.device_size
    ∷ u8 (d.device_size >>> 8)
    ∷ u8 (d.device_size >>> 16)
    ∷ u8 (d.device_size >>> 24)
    ∷ d.page_size.byte0
    ∷ d.page_size.byte1
    ∷ d.page_size.byte2
    ∷ d.erase_size.byte0
    ∷ d.erase_size.byte1
    ∷ d.erase_size.byte2
    ∷ 0
    ∷ 0
    ∷ []

unfoldable pub encode_status : Status → List ℕ
encode_status s =
    s.erase_complete
    ∷ s.erase_page.byte0
    ∷ s.erase_page.byte1
    ∷ s.erase_page.byte2
    ∷ bool_byte s.write_ok
    ∷ []
