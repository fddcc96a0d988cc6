-- ===== src/Safety/Control.antt =====
-- The wiring is kept by the control requests of firmware/usb/flashProto.cxx.
use spiflash_programmer.Safety.Handlers.{
  setup_read-Keeps, setup_sfdp_read-Keeps, handle_read-Keeps, handle_sfdp_read-Keeps,
}
use spiflash_programmer.Safety.Writing.{
  check_erase_status-Keeps, setup_erase-Keeps, setup_write-Keeps, handle_erase-Keeps,
  handle_write-Keeps,
}
use spiflash_programmer.Proto.Erase.{check_erase_status}
use spiflash_programmer.Protocol.Transport.{Direction, controller_in, controller_out}
use spiflash_programmer.Protocol.{
  Address, message_of, idle, all, page, page_range, Message, EraseOperation,
}
use spiflash_programmer.Spi.Select.{Wired, IsWired-event}
use Prim.Native.Nat.{ℕ}
use spiflash_programmer.Machine.Keeps.{Keeps, Keeps-bind, Keeps-pure, Keeps-get, Keeps-if}
use spiflash_programmer.Prelude.{ℕ, Bool, true, false, Option, none, some}
use spiflash_programmer.Proto.Control.{
  handle_reset_target, handle_abort, handle_message, accept, Answer, Packet, only,
  handle_ctrl_request, run_callback, unhandled, zero_length, stall, report,
}
use spiflash_programmer.Proto.Target.{
  write_status_register, fetch_device_count, list_internal, list_external, fetch_device_listing,
  read_status_register, prepare_w25n, target_internal, target_external, release_target, load_params,
  handle_target_device,
}
use spiflash_programmer.Machine.Action.{Env, modify, Action, emit, pure}
use spiflash_programmer.Machine.{flush_write_ep, Callback}
use spiflash_programmer.Safety.Parts.{parts}

module _ (env : Env) where
  fetch_device_count-Keeps : Keeps Wired (fetch_device_count env)
  unfolding fetch_device_count
  fetch_device_count-Keeps = search parts depth 20

  list_internal-Keeps : (number : ℕ) → Keeps Wired (list_internal env number)
  unfolding list_internal
  list_internal-Keeps number = search parts depth 20

  list_external-Keeps : (number : ℕ) → Keeps Wired (list_external env number)
  unfolding list_external
  list_external-Keeps number = search parts depth 20

  fetch_device_listing-Keeps : (a : Address) → Keeps Wired (fetch_device_listing env a)
  unfolding fetch_device_listing
  fetch_device_listing-Keeps a = search (parts, list_internal-Keeps, list_external-Keeps) depth 20

  read_status_register-Keeps : (register : ℕ) → Keeps Wired (read_status_register env register)
  unfolding read_status_register
  read_status_register-Keeps register = search parts depth 20

write_status_register-Keeps :
    (register value : ℕ) → Keeps Wired (write_status_register register value)
unfolding write_status_register
write_status_register-Keeps register value = search parts depth 20

target_internal-Keeps : (number : ℕ) → Keeps Wired (target_internal number)
unfolding target_internal
target_internal-Keeps number = search parts depth 20

release_target-Keeps : Keeps Wired release_target
unfolding release_target
release_target-Keeps = search (parts, write_status_register-Keeps) depth 20

module _ (env : Env) where
  prepare_w25n-Keeps : Keeps Wired (prepare_w25n env)
  unfolding prepare_w25n
  prepare_w25n-Keeps =
      search (parts, read_status_register-Keeps, write_status_register-Keeps) depth 20

  target_external-Keeps : (number : ℕ) → Keeps Wired (target_external env number)
  unfolding target_external
  target_external-Keeps number = search (parts, prepare_w25n-Keeps) depth 20

  load_params-Keeps : Keeps Wired (load_params env)
  unfolding load_params
  load_params-Keeps = search parts depth 20

  handle_target_device-Keeps : (a : Address) → Keeps Wired (handle_target_device env a)
  unfolding handle_target_device
  handle_target_device-Keeps a =
      search
        (
          parts, target_internal-Keeps, target_external-Keeps, release_target-Keeps,
          load_params-Keeps,
        )
        depth 20

handle_reset_target-Keeps : Keeps Wired handle_reset_target
unfolding handle_reset_target
handle_reset_target-Keeps = search parts depth 20

flush-Keeps : Keeps Wired (modify (λ s. emit (flush_write_ep s.write_endpoint) s))
flush-Keeps = record { run = λ s w. IsWired-event s.board (flush_write_ep s.write_endpoint) tt w }

module _ (env : Env) where
  handle_abort-Keeps : Keeps Wired (handle_abort env)
  unfolding handle_abort
  handle_abort-Keeps = search (parts, flush-Keeps) depth 20

accept-Keeps : (ok : Bool) → Keeps Wired (accept ok)
accept-Keeps true = Keeps-pure zero_length
accept-Keeps false = Keeps-pure stall

only-Keeps : (d e : Direction) {m : Action Answer} → Keeps Wired m → Keeps Wired (only d e m)
only-Keeps controller_in controller_in h = h
only-Keeps controller_in controller_out h = Keeps-pure stall
only-Keeps controller_out controller_out h = h
only-Keeps controller_out controller_in h = Keeps-pure stall

module _ (env : Env) where
  report-Keeps :
      (op : EraseOperation)
      → Keeps Wired
          (elim op as (λ o. Action (Unit {0})) [ idle ↦ pure tt | _ ↦ check_erase_status env ])
  report-Keeps idle = Keeps-pure tt
  report-Keeps all = check_erase_status-Keeps env
  report-Keeps page = check_erase_status-Keeps env
  report-Keeps page_range = check_erase_status-Keeps env

  handle_message-Keeps : (m : Message) (p : Packet) → Keeps Wired (handle_message env m p)
  unfolding handle_message
  handle_message-Keeps Message.device_count p =
      only-Keeps p.dir controller_in (search (parts, fetch_device_count-Keeps))
  handle_message-Keeps Message.list_device p =
      only-Keeps p.dir controller_in (search (parts, fetch_device_listing-Keeps))
  handle_message-Keeps Message.target_device p =
      only-Keeps p.dir controller_out (search (parts, handle_target_device-Keeps, accept-Keeps))
  handle_message-Keeps Message.erase p =
      only-Keeps p.dir controller_out (search (parts, setup_erase-Keeps, accept-Keeps))
  handle_message-Keeps Message.read p =
      only-Keeps p.dir controller_out (search (parts, setup_read-Keeps, accept-Keeps))
  handle_message-Keeps Message.write p =
      only-Keeps p.dir controller_out (search (parts, setup_write-Keeps, accept-Keeps))
  handle_message-Keeps Message.verified_write p =
      only-Keeps p.dir controller_out (search (parts, setup_write-Keeps, accept-Keeps))
  handle_message-Keeps Message.reset_target p =
      only-Keeps p.dir controller_out (search (parts, handle_reset_target-Keeps))
  handle_message-Keeps Message.status p =
      only-Keeps p.dir controller_in (
        Keeps-bind Keeps-get
          λ s. Keeps-bind (report-Keeps s.erase_operation) λ u. Keeps-pure report)
  handle_message-Keeps Message.abort p =
      only-Keeps p.dir controller_out (search (parts, handle_abort-Keeps))
  handle_message-Keeps Message.sfdp p =
      only-Keeps p.dir controller_out (search (parts, setup_sfdp_read-Keeps, accept-Keeps))

  dispatch-Keeps :
      (p : Packet) (m : Option Message)
      → Keeps Wired
          (elim m as (λ o. Action Answer) [ none ↦ pure stall | some m ↦ handle_message env m p ])
  dispatch-Keeps p none = Keeps-pure stall
  dispatch-Keeps p (some m) = handle_message-Keeps m p

  pub handle_ctrl_request-Keeps :
      (interface : ℕ) (p : Packet) → Keeps Wired (handle_ctrl_request env interface p)
  unfolding handle_ctrl_request
  handle_ctrl_request-Keeps interface p =
      Keeps-if _ (dispatch-Keeps p (message_of p.request)) (Keeps-pure unhandled)

  pub run_callback-Keeps : (c : Callback) → Keeps Wired (run_callback env c)
  unfolding run_callback
  run_callback-Keeps Callback.no_callback = Keeps-pure tt
  run_callback-Keeps Callback.handle_erase = handle_erase-Keeps
  run_callback-Keeps Callback.handle_read = handle_read-Keeps env
  run_callback-Keeps Callback.handle_write = handle_write-Keeps
  run_callback-Keeps Callback.handle_sfdp_read = handle_sfdp_read-Keeps env
