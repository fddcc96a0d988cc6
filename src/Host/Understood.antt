-- ===== src/Host/Understood.antt =====
-- The firmware's view of the host's requests.
use spiflash_programmer.Prelude.{
  subst, ◌∙◌, ◌⊎◌, inl, inr, ℕ, ◌+◌, ◌*◌, ◌<◌, ◌≡◌, refl, true, false, arith, bit_and, some,
}
use spiflash_programmer.Protocol.{message_of, message_code, message_of_iff, FlashBus, bus_code}
use spiflash_programmer.Protocol.Transport.{
  Direction, controller_in, controller_out, direction_code, Request, type_class, request_code,
  Recipient, interface, recipient_code, request_type, set_dir,
}
use spiflash_programmer.Proto.Control.{Packet, is_ours}
use spiflash_programmer.Proto.Control.Requests.{direction_of}
use spiflash_programmer.Host.Requests.{
  count_devices, read_status, abort_all, list_chip, target_chip, erase_pages, read_page, write_page,
  read_sfdp_at, Transfer, HostRequest, transfer_of, message_sent, write_control, read_control,
  interface_request, address_value,
}

-- USB 2.0, 9.3: how a device sees the set-up packet of a control transfer, in the fields that the
-- USB core passes on.
pub record IsSetupOf (t : Transfer) (p : Packet) : Type 0 where
  pub recipient_bits : recipient_code p.recipient ≡ bit_and t.kind 0x1f
  pub type_bits : request_code p.type ≡ bit_and t.kind 0x60
  pub dir_bit : direction_code p.dir ≡ bit_and t.kind 0x80
  pub same_request : p.request ≡ t.request
  pub same_value : p.value ≡ t.value
  pub same_index : p.index ≡ t.index
  pub low_byte : p.address.addr_low < 256
  pub both_bytes : p.address.addr_low + p.address.addr_high * 256 ≡ t.value

interface_code : (r : Recipient) → recipient_code r ≡ 1 → r ≡ interface
unfolding recipient_code
interface_code r e = ground arith

class_code : (r : Request) → request_code r ≡ 0x20 → r ≡ type_class
unfolding request_code
class_code r e = ground arith

in_code : (d : Direction) → direction_code d ≡ 0x80 → d ≡ controller_in
unfolding direction_code
in_code d e = ground arith

out_code : (d : Direction) → direction_code d ≡ 0 → d ≡ controller_out
unfolding direction_code
out_code d e = ground arith

-- The request type that the host sends.
abbrev kind_of : Direction → ℕ
kind_of controller_in = 0xa1
kind_of controller_out = 0x21

transfer_header :
    (r : HostRequest) (index : ℕ)
    → ((transfer_of r index).kind ≡ kind_of (direction_of (message_sent r)))
      × ((transfer_of r index).request ≡ message_code (message_sent r))
      × ((transfer_of r index).index ≡ index)
unfolding transfer_of message_sent write_control read_control interface_request request_type set_dir
    direction_code recipient_code request_code
transfer_header count_devices index = (refl, refl, refl)
transfer_header read_status index = (refl, refl, refl)
transfer_header abort_all index = (refl, refl, refl)
transfer_header (list_chip number bus) index = (refl, refl, refl)
transfer_header (target_chip number bus) index = (refl, refl, refl)
transfer_header (erase_pages begin end operation) index = (refl, refl, refl)
transfer_header (read_page page count) index = (refl, refl, refl)
transfer_header (write_page page true count) index = (refl, refl, refl)
transfer_header (write_page page false count) index = (refl, refl, refl)
transfer_header (read_sfdp_at address count) index = (refl, refl, refl)

direction_understood : (d e : Direction) → direction_code e ≡ bit_and (kind_of d) 0x80 → e ≡ d
direction_understood controller_in e h = in_code e h
direction_understood controller_out e h = out_code e h

recipient_understood :
    (d : Direction) (r : Recipient) → recipient_code r ≡ bit_and (kind_of d) 0x1f → r ≡ interface
recipient_understood controller_in r h = interface_code r h
recipient_understood controller_out r h = interface_code r h

type_understood :
    (d : Direction) (r : Request) → request_code r ≡ bit_and (kind_of d) 0x60 → r ≡ type_class
type_understood controller_in r h = class_code r h
type_understood controller_out r h = class_code r h

-- Every request of the host, sent to the firmware's interface, is one that the firmware takes: for
-- its interface and class, with the message that the host meant, and in the direction that this
-- message needs.
pub request_understood :
    (r : HostRequest) (index : ℕ) (p : Packet)
    → IsSetupOf (transfer_of r index) p
    → (is_ours p.recipient p.type ≡ true)
      × (p.index ≡ index)
      × (message_of p.request ≡ some (message_sent r))
      × (p.dir ≡ direction_of (message_sent r))
request_understood r index p h =
    let (kind, code, place) = transfer_header r index in
    let d : Direction = direction_of (message_sent r) in
    let to =
      recipient_understood d p.recipient
        (subst (λ k. recipient_code p.recipient ≡ bit_and k 0x1f) kind h.recipient_bits) in
    let class =
      type_understood d p.type
        (subst (λ k. request_code p.type ≡ bit_and k 0x60) kind h.type_bits) in
    let way =
      direction_understood d p.dir
        (subst (λ k. direction_code p.dir ≡ bit_and k 0x80) kind h.dir_bit) in
    let named : p.request ≡ message_code (message_sent r) = h.same_request ∙ code in
    (
      rw (to, class) refl,
      h.same_index ∙ place,
      (message_of_iff p.request (message_sent r)).1 named,
      way,
    )

-- The chip that the host means is the one that the firmware is asked for, by its number and its
-- bus, both in a request to target a chip and in one to list it.
pub address_understood :
    (number : ℕ) (bus : FlashBus) (index : ℕ) (p : Packet)
    → number < 256
    → IsSetupOf (transfer_of (target_chip number bus) index) p
      ⊎ IsSetupOf (transfer_of (list_chip number bus) index) p
    → (p.address.addr_low ≡ number) × (p.address.addr_high ≡ bus_code bus)
unfolding transfer_of write_control read_control address_value
address_understood number bus index p small (inl h) = omega (arith, h.low_byte, h.both_bytes)
address_understood number bus index p small (inr h) = omega (arith, h.low_byte, h.both_bytes)
