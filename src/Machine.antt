-- ===== src/Machine.antt =====
-- The firmware's world: the globals of firmware/spi.cxx and firmware/usb/flashProto.cxx, and
-- every effect on the hardware as an event of a log, newest first. The code runs in interrupt
-- handlers that do not preempt one another, so an operation is a function on this state.
pub mod Action
pub mod Keeps
use spiflash_programmer.Prelude.{ℕ, Bool, List}
use spiflash_programmer.Protocol.{EraseOperation}
use spiflash_programmer.Protocol.Page.{Page}
use spiflash_programmer.Protocol.Layout.{Status}

pub data SpiChip : Type 0 where
  local1 local2 target none : SpiChip

pub record FlashId : Type 0 where
  pub manufacturer : ℕ
  pub type : ℕ
  pub capacity : ℕ

pub record FlashChip : Type 0 where
  pub type : ℕ
  pub reported_capacity : ℕ
  pub actual_capacity : ℕ
  pub erase_instruction : ℕ
  pub erase_page_size : Page
  pub flash_page_size : Page
  pub chip_speed_mhz : ℕ

-- The two SPI controllers: `ssi0` drives the external bus and `ssi1` the internal one.
pub data Ssi : Type 0 where
  ssi0 ssi1 : Ssi

pub data Event : Type 0 where
  -- `gpioA.dataBits[0x08]`: the external chip select, active low.
  cs_target : ℕ → Event
  -- `gpioE.dataBits[0x03]`: the internal chip selects, active low.
  cs_local : ℕ → Event
  -- `gpioA.dataBits[0x80]`: the target's reset line.
  reset_line : ℕ → Event
  -- `cpsr`, the clock divider of a controller.
  divider : Ssi → ℕ → Event
  -- One byte sent, while another one comes in.
  transfer : Ssi → ℕ → Event
  wait_us : ℕ → Event
  led : Bool → Bool → Bool → Event
  -- Calls of the USB core: a packet to send, a packet fetched, a packet dropped.
  write_ep : ℕ → List ℕ → Event
  read_ep : ℕ → Event
  flush_write_ep : ℕ → Event

pub record Board : Type 0 where
  pub log : List Event
  -- `spi::targetDevice`.
  pub selected : SpiChip
  pub local_chip : List FlashId
  -- The value that `gpioA.dataBits[0x80]` was last given.
  pub reset_pin : ℕ

pub data ReadMode : Type 0 where
  normal sfdp : ReadMode

-- What an endpoint's `memBuffer` points at: into a buffer at an index, or at a global.
pub data Pointer : Type 0 where
  null response read_page write_page erase_config sfdp_address : Pointer
  flash_buffer : ℕ → Pointer

pub record EpStatus : Type 0 where
  pub mem_buffer : Pointer
  pub transfer_count : ℕ
  pub flags : ℕ

pub data Callback : Type 0 where
  no_callback handle_erase handle_read handle_write handle_sfdp_read : Callback

pub record Reading : Type 0 where
  pub read_mode : ReadMode
  pub read_endpoint : ℕ
  pub read_page : Page
  pub read_count : ℕ
  pub sfdp_address : ℕ
  pub response : List ℕ

pub record Erasing : Type 0 where
  pub begin_page : Page
  pub end_page : Page
  pub erase_operation : EraseOperation
  pub erase_active : Bool

pub record Writing : Type 0 where
  pub write_endpoint : ℕ
  pub write_page : Page
  pub write_count : ℕ
  pub write_total : ℕ
  pub verify_write : Bool
  pub verify_page : Page
  pub flash_buffer : List ℕ

pub record World : Type 0 where
  pub board : Board
  pub open board use *
  pub target_device : SpiChip
  pub target_id : FlashId
  pub target_params : FlashChip
  pub reading : Reading
  pub open reading use *
  pub erasing : Erasing
  pub open erasing use *
  pub writing : Writing
  pub open writing use *
  pub status : Status
  -- `epStatusControllerIn` and `epStatusControllerOut` of the USB core.
  pub ep_in : ℕ → EpStatus
  pub ep_out : ℕ → EpStatus
  pub setup_callback : Callback
