-- ===== src/Examples/Requests.antt =====
-- Requests that are refused, an abort, and chips that are looked up.
use spiflash_programmer.Sfdp.Table.{is_magic}
use spiflash_programmer.Sfdp.{parameters, sfdp_read, read_bytes}
use spiflash_programmer.Protocol.Page.{page_of}
use spiflash_programmer.Prelude.{refl, true, false, arith, ◌≡◌, ◌⊎◌, inl, inr, ◌≤◌, ◌<◌}
use spiflash_programmer.Protocol.{Message}
use spiflash_programmer.Protocol.Transport.{controller_out, interface, type_class}
use spiflash_programmer.Machine.{World, SpiChip, target, FlashId, FlashChip}
use spiflash_programmer.Machine.Action.{done, ◌>>◌, fault}
use spiflash_programmer.Flash.{find_chip, find_known, find_in, fallback_chip, read_sfdp}
use spiflash_programmer.Flash.Find.{Describes, find_chip-Describes}
use spiflash_programmer.Spi.{spi_device, spi_select, spi_write, spi_read, select_pins}
use spiflash_programmer.Proto.Common.{flash_buffer_size}
use spiflash_programmer.Proto.Read.{perform_data_or_sfdp_read, handle_read}
use spiflash_programmer.Proto.Erase.{tick}
use spiflash_programmer.Proto.Write.{setup_write, perform_write}
use spiflash_programmer.Proto.Write.Bounds.{setup_write_bounds}
use spiflash_programmer.Proto.Target.{handle_target_device}
use spiflash_programmer.Proto.Target.Refusals.{handle_target_device_refuses}
use spiflash_programmer.Proto.Control.{Packet, stall, handle_message, handle_abort}
use spiflash_programmer.Proto.Control.Abort.{abort_stops, abort_quiet}
use spiflash_programmer.Proto.Control.Requests.{handle_message_wrong_way, handle_message_too_long}
use spiflash_programmer.Examples.Data.{quiet_env, targeted, example_chip, world_after}

abbrev long_packet : Packet
long_packet = record {
  recipient = interface;
  type = type_class;
  dir = controller_out;
  request = 4;
  value = 5000;
  address = record { addr_low = 136; addr_high = 19 };
  configuration = 136;
  index = 0;
}

abbrev busy_world : World
busy_world = record targeted {
  reading = record targeted.reading { read_count = 12 };
  writing = record targeted.writing { write_count = 256; write_total = 256 };
  erasing = record targeted.erasing { erase_active = true };
}

handle_message_wrong_way_example :
    handle_message quiet_env Message.status long_packet targeted ≡ done (stall, targeted)
handle_message_wrong_way_example =
    handle_message_wrong_way quiet_env Message.status long_packet targeted refl

handle_message_too_long_example :
    (handle_message quiet_env Message.read long_packet targeted ≡ done (stall, targeted))
    × (handle_message quiet_env Message.write long_packet targeted ≡ done (stall, targeted))
    × (handle_message quiet_env Message.verified_write long_packet targeted
        ≡ done (stall, targeted))
    × (handle_message quiet_env Message.sfdp long_packet targeted ≡ done (stall, targeted))
handle_message_too_long_example =
    handle_message_too_long quiet_env long_packet targeted (omega arith)

abort_stops_example :
    (t : World) × (handle_abort quiet_env busy_world ≡ done (tt, t))
    × (t.selected ≡ SpiChip.none)
    × (t.target_device ≡ SpiChip.none)
    × (t.read_count ≡ 0)
    × (t.write_count ≡ 0)
    × (t.erase_active ≡ false)
abort_stops_example = abort_stops quiet_env busy_world

abort_quiet_example :
    ((handle_abort quiet_env >> perform_data_or_sfdp_read quiet_env 1) busy_world
      ≡ handle_abort quiet_env busy_world)
    × ((handle_abort quiet_env >> handle_read quiet_env) busy_world
        ≡ handle_abort quiet_env busy_world)
    × ((handle_abort quiet_env >> tick quiet_env) busy_world ≡ handle_abort quiet_env busy_world)
    × ((handle_abort quiet_env >> perform_write quiet_env 1) busy_world ≡ fault)
abort_quiet_example = abort_quiet quiet_env 1 busy_world

handle_target_device_refuses_example :
    handle_target_device quiet_env (record { addr_low = 2; addr_high = 0 }) targeted
    ≡ done (false, targeted)
handle_target_device_refuses_example =
    handle_target_device_refuses quiet_env (record { addr_low = 2; addr_high = 0 }) targeted
      (inr (inl (refl, omega arith)))

setup_write_bounds_example :
    (setup_write quiet_env 0 true targeted ≡ done (false, targeted))
    ⊎ ((t : World) × (setup_write quiet_env 0 true targeted ≡ done (true, t))
        × (0 < t.write_count)
        × (t.write_count ≤ flash_buffer_size)
        × (t.write_total ≡ t.write_count)
        × (t.verify_write ≡ true)
        × (t.status.write_ok ≡ true))
setup_write_bounds_example = setup_write_bounds quiet_env 0 true targeted

-- A chip that no table lists.
abbrev unlisted : FlashId
unlisted = record { manufacturer = 0x01; type = 0x40; capacity = 0x16 }

find_chip-Describes_example : Describes (fallback_chip unlisted) unlisted
unfolding find_chip find_known find_in fallback_chip read_sfdp parameters sfdp_read spi_device
    spi_select spi_write spi_read read_bytes is_magic select_pins
find_chip-Describes_example =
    find_chip-Describes quiet_env unlisted target targeted
      (world_after (find_chip quiet_env unlisted target targeted) targeted) (fallback_chip unlisted)
      refl

abbrev gd25q64 : FlashId
gd25q64 = record { manufacturer = 0xc8; type = 0x40; capacity = 0x17 }

abbrev listed_chip : FlashChip
listed_chip = record example_chip { erase_page_size = page_of 4096; flash_page_size = page_of 256 }
