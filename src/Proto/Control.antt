-- ===== src/Proto/Control.antt =====
-- The control requests, the abort and the registration: firmware/usb/flashProto.cxx.
pub mod Abort
pub mod Requests
pub mod ReadRequest
pub mod TablesRequest
use spiflash_programmer.Prelude.{ℕ, Bool, true, false, ◌&&◌, none, some, ◌==◌, if◌then◌else◌}
use spiflash_programmer.Protocol.{
  Message, device_count, list_device, target_device, erase, read, write, verified_write,
  reset_target, status, abort, sfdp, message_of, Address, idle,
}
use spiflash_programmer.Protocol.Transport.{
  Direction, controller_in, controller_out, Request, type_class, Recipient, interface,
}
use spiflash_programmer.Protocol.Layout.{no_page, no_status}
use spiflash_programmer.Machine.{
  World, SpiChip, FlashChip, EpStatus, Pointer, normal, Callback, flush_write_ep,
}
use spiflash_programmer.Machine.Action.{Env, Action, pure, ◌>>=◌, ◌>>◌, get, modify, emit}
use spiflash_programmer.Spi.{spi_select, set_device_reset, is_device_reset, wait_for}
use spiflash_programmer.Proto.Read.{setup_read, setup_sfdp_read, handle_read, handle_sfdp_read}
use spiflash_programmer.Proto.Write.{setup_write, handle_write}
use spiflash_programmer.Proto.Erase.{setup_erase, check_erase_status, handle_erase}
use spiflash_programmer.Proto.Target.{
  fetch_device_count, fetch_device_listing, handle_target_device, no_id,
}

-- `usb::device::packet`, with the USB core's views of `wValue`: as an address and as the low byte.
pub record Packet : Type 0 where
  pub recipient : Recipient
  pub type : Request
  pub dir : Direction
  pub request : ℕ
  pub value : ℕ
  pub address : Address
  pub configuration : ℕ
  pub index : ℕ

-- `answer_t`: `reply n` sends the first `n` bytes of the response buffer, `report` the status.
pub data Answer : Type 0 where
  unhandled stall zero_length report : Answer
  reply : ℕ → Answer

abbrev no_params : FlashChip
no_params = record {
  type = 0;
  reported_capacity = 0;
  actual_capacity = 0;
  erase_instruction = 0;
  erase_page_size = no_page;
  flash_page_size = no_page;
  chip_speed_mhz = 0;
}

unfoldable pub handle_reset_target : Action (Unit {0})
handle_reset_target = do
  s ← get
  if is_device_reset s then pure tt else (do set_device_reset true; wait_for 20)
  set_device_reset false

abbrev pub accept : Bool → Action Answer
accept true = pure zero_length
accept false = pure stall

-- `packet.requestType.dir() != dir` stalls.
abbrev pub only : Direction → Direction → Action Answer → Action Answer
only controller_in controller_in m = m
only controller_out controller_out m = m
only _ _ m = pure stall

abbrev pub is_ours : Recipient → Request → Bool
is_ours interface type_class = true
is_ours _ _ = false

module _ (env : Env) where
  abbrev idle_ep : EpStatus → EpStatus
  idle_ep e = record {
    mem_buffer = Pointer.null;
    transfer_count = 0;
    flags = env.reset_status e.flags;
  }

  -- The variables that `handleAbort` resets.
  abbrev pub aborted : World → World
  aborted s = record s {
    target_device = SpiChip.none;
    target_id = no_id;
    target_params = no_params;
    reading = record s.reading { read_count = 0; read_mode = normal };
    writing = record s.writing { write_count = 0; write_total = 0; verify_write = false };
    erasing = record s.erasing { erase_active = false; erase_operation = idle };
    status = no_status;
    ep_out = λ e. if e == s.read_endpoint then idle_ep (s.ep_out e) else s.ep_out e;
    ep_in = λ e. if e == s.write_endpoint then idle_ep (s.ep_in e) else s.ep_in e;
  }

  unfoldable pub handle_abort : Action (Unit {0})
  handle_abort = do
    spi_select SpiChip.none
    modify aborted
    modify (λ s. emit (flush_write_ep s.write_endpoint) s)

  unfoldable pub handle_message : Message → Packet → Action Answer
  handle_message device_count p =
      only p.dir controller_in (do n ← fetch_device_count env; pure (reply n))
  handle_message list_device p =
      only p.dir controller_in (do n ← fetch_device_listing env p.address; pure (reply n))
  handle_message target_device p =
      only p.dir controller_out (do ok ← handle_target_device env p.address; accept ok)
  handle_message read p = only p.dir controller_out (do ok ← setup_read env p.value; accept ok)
  handle_message erase p =
      only p.dir controller_out (do ok ← setup_erase env p.configuration; accept ok)
  handle_message write p =
      only p.dir controller_out (do ok ← setup_write env p.value false; accept ok)
  handle_message verified_write p =
      only p.dir controller_out (do ok ← setup_write env p.value true; accept ok)
  handle_message status p = only p.dir controller_in (do
    s ← get
    elim s.erase_operation [ idle ↦ pure tt | _ ↦ check_erase_status env ]
    pure report)
  handle_message reset_target p =
      only p.dir controller_out (do handle_reset_target; pure zero_length)
  handle_message abort p = only p.dir controller_out (do handle_abort; pure zero_length)
  handle_message sfdp p = only p.dir controller_out (do ok ← setup_sfdp_read env p.value; accept ok)

  unfoldable pub handle_ctrl_request : ℕ → Packet → Action Answer
  handle_ctrl_request our_interface p =
      if is_ours p.recipient p.type && p.index == our_interface
      then elim (message_of p.request) [ none ↦ pure stall | some m ↦ handle_message m p ]
      else pure unhandled

  -- The callback that a data stage was set up with.
  unfoldable pub run_callback : Callback → Action (Unit {0})
  run_callback Callback.no_callback = pure tt
  run_callback Callback.handle_erase = handle_erase
  run_callback Callback.handle_read = handle_read env
  run_callback Callback.handle_write = handle_write
  run_callback Callback.handle_sfdp_read = handle_sfdp_read env
