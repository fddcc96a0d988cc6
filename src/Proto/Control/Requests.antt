-- ===== src/Proto/Control/Requests.antt =====
-- Which control requests are refused, and that a refusal changes nothing.
use spiflash_programmer.Prelude.{◌≡◌, ◌<◌, arith}
use spiflash_programmer.Protocol.{
  Message, device_count, list_device, target_device, erase, read, write, verified_write,
  reset_target, status, abort, sfdp,
}
use spiflash_programmer.Protocol.Transport.{Direction, controller_in, controller_out}
use spiflash_programmer.Machine.{World}
use spiflash_programmer.Machine.Action.{Env, done}
use spiflash_programmer.Proto.Control.{Packet, stall, handle_message}
use spiflash_programmer.Proto.Common.{flash_buffer_size}
use spiflash_programmer.Proto.Read.{setup_read, setup_sfdp_read}
use spiflash_programmer.Proto.Write.{setup_write}

-- The direction of each message's data, as the host's protocol uses it.
abbrev pub direction_of : Message → Direction
direction_of device_count = controller_in
direction_of list_device = controller_in
direction_of status = controller_in
direction_of _ = controller_out

abbrev pub other : Direction → Direction
other controller_in = controller_out
other controller_out = controller_in

-- A message with its data in the wrong direction is stalled, whichever it is, and changes nothing.
pub handle_message_wrong_way :
    (env : Env) (m : Message) (p : Packet) (s : World)
    → p.dir ≡ other (direction_of m)
    → handle_message env m p s ≡ done (stall, s)
unfolding handle_message
handle_message_wrong_way env device_count p s e = rw e
handle_message_wrong_way env list_device p s e = rw e
handle_message_wrong_way env target_device p s e = rw e
handle_message_wrong_way env erase p s e = rw e
handle_message_wrong_way env read p s e = rw e
handle_message_wrong_way env write p s e = rw e
handle_message_wrong_way env verified_write p s e = rw e
handle_message_wrong_way env reset_target p s e = rw e
handle_message_wrong_way env status p s e = rw e
handle_message_wrong_way env abort p s e = rw e
handle_message_wrong_way env sfdp p s e = rw e

-- A request to read, write, write with verification or read the SFDP of more bytes than the flash
-- buffer holds is stalled in either direction, and changes nothing.
pub handle_message_too_long :
    (env : Env) (p : Packet) (s : World)
    → flash_buffer_size < p.value
    → (handle_message env read p s ≡ done (stall, s))
      × (handle_message env write p s ≡ done (stall, s))
      × (handle_message env verified_write p s ≡ done (stall, s))
      × (handle_message env sfdp p s ≡ done (stall, s))
unfolding handle_message setup_read setup_write setup_sfdp_read
handle_message_too_long env p s h = elim p.dir [
  | controller_in ↦ ground arith
  | controller_out ↦ ground arith
]
