-- ===== src/Host/Replies.antt =====
-- The replies of the firmware as the host reads them: common/include/usbProtocol.hxx, between
-- firmware/usb/flashProto.cxx and software/flashprog.cxx.
use spiflash_programmer.Prelude.{◌^◌, ◌<◌, ◌≡◌, arith}
use spiflash_programmer.Protocol.Layout.{ListDevice, Status, encode_list_device, encode_status}
use spiflash_programmer.Host.Chips.{list_device_in, status_in}

-- What the firmware lists of a chip is what the host reads out of the reply's bytes, if the size fits
-- its 32 bits.
pub list_device_in-encode_list_device :
    (d : ListDevice) → d.device_size < 2 ^ 32 → list_device_in (encode_list_device d) ≡ d
unfolding list_device_in encode_list_device
list_device_in-encode_list_device d h = ground arith

-- The status that the firmware reports is the one that the host reads out of the reply's bytes.
pub status_in-encode_status : (s : Status) → status_in (encode_status s) ≡ s
unfolding status_in encode_status
status_in-encode_status s = ground arith
