-- ===== src/Host/EndToEnd.antt =====
-- Both halves together: a request of the host, through the set-up packet that the device sees, to
-- what the firmware does with it.
use spiflash_programmer.Protocol.Page.{Page}
