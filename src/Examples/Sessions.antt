-- ===== src/Examples/Sessions.antt =====
-- Reads, erases and power on, run to their end.
use spiflash_programmer.Host.Requests.{read_page}
use spiflash_programmer.Protocol.Layout.{encode_device_count}
use spiflash_programmer.Proto.Common.{write_response}
use spiflash_programmer.Proto.Target.{fetch_device_count}
use spiflash_programmer.Protocol.{message_of}
use spiflash_programmer.Prelude.{refl, true, false, arith, ◌≡◌, []}
use spiflash_programmer.Protocol.Page.{Page, page_value}
use spiflash_programmer.Protocol.Transport.{controller_in, controller_out, interface, type_class}
use spiflash_programmer.Machine.{World, SpiChip, target, ssi0, read_page}
use spiflash_programmer.Machine.Action.{done}
use spiflash_programmer.Spi.{
  spi_device, spi_init, claim_pins, start_bus, spi_reset_clocks, ident_device, set_device_reset,
  read_id, spi_select, select_pins, spi_write, spi_read, read_manufacturer, check_device_id,
  led_set_colour,
}
use spiflash_programmer.Spi.Select.{IsExclusive}
use spiflash_programmer.Proto.Control.{Packet, handle_message, handle_ctrl_request, reply}
use spiflash_programmer.Proto.Erase.Range.{erase_range, frames, range_events}
use spiflash_programmer.Safety.Reach.{never_two_selected, here, next, control}
use spiflash_programmer.Examples.Data.{quiet_env, power_on, targeted, world_after, example_chip}

abbrev pub example_page : Page
example_page = record { byte0 = 3; byte1 = 0; byte2 = 0 }

-- A read of two packets from page 3 on.
abbrev reading_world : World
reading_world = record targeted {
  reading = record targeted.reading { read_page = example_page; read_count = 8 };
}

abbrev pub read_packet : Packet
read_packet = record {
  recipient = interface;
  type = type_class;
  dir = controller_out;
  request = 4;
  value = 8;
  address = record { addr_low = 8; addr_high = 0 };
  configuration = 8;
  index = 0;
}

-- The pages 3 and 4 are to be erased.
abbrev erasing_world : World
erasing_world = record targeted {
  erasing = record targeted.erasing {
    begin_page = example_page;
    end_page = record { byte0 = 5; byte1 = 0; byte2 = 0 };
    erase_active = true;
  };
}

erase_range_example :
    (t : World) × (frames quiet_env 3 erasing_world ≡ done (tt, t))
    × (t.log
        ≡ range_events target ssi0 0x20
            (page_value example_chip.erase_page_size)
            2
            (page_value example_page)
            [])
    × (t.erase_active ≡ false)
    × (page_value t.status.erase_page ≡ page_value erasing_world.end_page)
    × (t.selected ≡ SpiChip.none)
unfolding spi_device page_value
erase_range_example =
    erase_range quiet_env target ssi0 refl (λ log h. refl) 2 erasing_world refl refl refl refl
      (omega arith) (omega arith) refl

abbrev booted : World
booted = world_after (spi_init quiet_env power_on) power_on

abbrev count_packet : Packet
count_packet = record read_packet { dir = controller_in; request = 0; value = 0 }

abbrev counted : World
counted = world_after (handle_ctrl_request quiet_env 0 count_packet booted) booted

never_two_selected_example : IsExclusive counted.log
unfolding spi_init claim_pins start_bus spi_reset_clocks ident_device set_device_reset read_id
    spi_select select_pins spi_device spi_write spi_read read_manufacturer check_device_id
    led_set_colour handle_ctrl_request message_of handle_message fetch_device_count write_response
    encode_device_count
never_two_selected_example =
    never_two_selected quiet_env 0 power_on booted counted refl refl refl
      (next here (control count_packet (reply 3) refl))
