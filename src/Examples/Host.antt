-- ===== src/Examples/Host.antt =====
-- The host's requests as the firmware gets them, and what the command line shows and takes.
use spiflash_programmer.Prelude.{
  ℕ, refl, true, false, arith, ◌≡◌, ◌≤◌, ◌<◌, ◌⊎◌, inl, some, none, Bool, List, [], ◌∷◌, ◌-◌,
}
use spiflash_programmer.Protocol.{message_of, external, bus_code, message_code}
use spiflash_programmer.Protocol.Transport.{
  controller_out, interface, type_class, direction_code, recipient_code, request_code, request_type,
  set_dir,
}
use spiflash_programmer.Proto.Control.{Packet, is_ours}
use spiflash_programmer.Proto.Control.Requests.{direction_of}
use spiflash_programmer.Host.Requests.{
  target_chip, transfer_of, message_sent, write_control, interface_request, address_value,
}
use spiflash_programmer.Host.Understood.{IsSetupOf, request_understood, address_understood}
use spiflash_programmer.Host.Options.{chip_selection_parser, chip_selection_parser_reads}

-- The request for the external chip 0, on the wire: 21 02 00 01 00 00 00 00.
abbrev target_packet : Packet
target_packet = record {
  recipient = interface;
  type = type_class;
  dir = controller_out;
  request = 2;
  value = 256;
  address = record { addr_low = 0; addr_high = 1 };
  configuration = 0;
  index = 0;
}

target_packet-IsSetupOf : IsSetupOf (transfer_of (target_chip 0 external) 0) target_packet
unfolding transfer_of write_control interface_request request_type set_dir direction_code
    recipient_code request_code address_value bus_code message_code
target_packet-IsSetupOf = record {
  recipient_bits = refl;
  type_bits = refl;
  dir_bit = refl;
  same_request = refl;
  same_value = refl;
  same_index = refl;
  low_byte = omega arith;
  both_bytes = refl;
}

request_understood_example :
    (is_ours target_packet.recipient target_packet.type ≡ true)
    × (target_packet.index ≡ 0)
    × (message_of target_packet.request ≡ some (message_sent (target_chip 0 external)))
    × (target_packet.dir ≡ direction_of (message_sent (target_chip 0 external)))
request_understood_example =
    request_understood (target_chip 0 external) 0 target_packet target_packet-IsSetupOf

address_understood_example :
    (target_packet.address.addr_low ≡ 0) × (target_packet.address.addr_high ≡ bus_code external)
address_understood_example =
    address_understood 0 external 0 target_packet (omega arith) (inl target_packet-IsSetupOf)

-- Numbers of one digit.
abbrev one_digit : List ℕ → Bool
one_digit (d ∷ []) = true
one_digit _ = false

abbrev digit_value : List ℕ → ℕ
digit_value (d ∷ _) = d - b'0'
digit_value [] = 0

abbrev external_3 : List ℕ
external_3 = b'e' ∷ b'x' ∷ b't' ∷ b':' ∷ b'3' ∷ []

chip_selection_parser_reads_example :
    ((3 < 256)
      × (chip_selection_parser one_digit digit_value external_3
          ≡ some (record { bus = external; index = 3 })))
    ⊎ ((256 ≤ 3) × (chip_selection_parser one_digit digit_value external_3 ≡ none))
chip_selection_parser_reads_example =
    chip_selection_parser_reads one_digit digit_value true (b'3' ∷ []) (omega arith) refl
