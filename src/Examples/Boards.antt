-- ===== src/Examples/Boards.antt =====
-- Start-up, descriptors and a verification at concrete inputs.
use spiflash_programmer.Examples.Writes.{element}
use spiflash_programmer.Prelude.{
  ℕ, ◌+◌, ◌-◌, ◌*◌, ◌^◌, ◌≡◌, ◌<◌, refl, true, ◌&&◌, List, [], ◌∷◌, some, arith, if◌then◌else◌,
  ◌==◌, byte_at, get_elem?,
}
use spiflash_programmer.Protocol.Transport.{Direction, controller_in, controller_out}
use spiflash_programmer.Protocol.Page.{page_value}
use spiflash_programmer.Machine.{World, SpiChip, target, ssi0}
use spiflash_programmer.Machine.Action.{done}
use spiflash_programmer.Spi.{spi_device}
use spiflash_programmer.Firmware.Startup.{Memory, Layout, initialise}
use spiflash_programmer.Firmware.Startup.Image.{IsLinked, in_section, initialise_lem}
use spiflash_programmer.Firmware.Descriptors.{Sizes, config_sections, config_descriptor}
use spiflash_programmer.Firmware.Descriptors.WellFormed.{
  IsConfiguration, config_sections-IsConfiguration,
}
use spiflash_programmer.Firmware.Descriptors.Registered.{
  Registration, register_flash, is_handled, is_controlled, is_declared, handlers_declared,
}
use spiflash_programmer.Proto.Write.{verify}
use spiflash_programmer.Proto.Write.Verified.{verify_compares, agrees}
use spiflash_programmer.Examples.Data.{
  memory_env, memory_env-IsReadable, memory, targeted, power_on,
}

abbrev example_layout : Layout
example_layout = record {
  end_text = 0x100;
  begin_data = 0x2000;
  end_data = 0x2008;
  begin_bss = 0x2008;
  end_bss = 0x2014;
}

-- Each word of the memory is its own address.
abbrev addresses : Memory
addresses a = a

linked : IsLinked example_layout
linked = record { copy_below = omega arith; bss_above = omega arith }

initialise_lem_example : initialise example_layout addresses 0x2004 ≡ (
    if in_section 0x2008 0x2014 0x2004
    then 0
    else if in_section 0x2000 0x2008 0x2004
    then addresses (0x100 + (0x2004 - 0x2000))
    else addresses 0x2004)
initialise_lem_example = initialise_lem example_layout addresses 0x2004 linked

-- The sizes of USB 2.0 and of DFU 1.1.
abbrev usb_sizes : Sizes
usb_sizes = record { device = 18; config = 9; interface = 9; endpoint = 7; functional = 9 }

config_sections-IsConfiguration_example : IsConfiguration (config_sections usb_sizes)
config_sections-IsConfiguration_example = config_sections-IsConfiguration usb_sizes

total_length : (config_descriptor usb_sizes).total_length ≡ 50
unfolding config_descriptor
total_length = refl

handlers_declared_example :
    (handlers : List Registration) × (t : World) × (register_flash power_on ≡ done (handlers, t))
    × ((interface number : ℕ) (dir : Direction)
        → is_controlled handlers interface ≡ true
        → is_handled handlers (config_descriptor usb_sizes).value dir number
          ≡ is_declared (config_sections usb_sizes) interface dir number)
    × (is_declared (config_sections usb_sizes) 0 controller_in t.read_endpoint ≡ true)
    × (is_declared (config_sections usb_sizes) 0 controller_out t.write_endpoint ≡ true)
handlers_declared_example = handlers_declared usb_sizes power_on

-- Page 3 holds the bytes 0, 1, 2 and so on, and so does page 4.
abbrev verifying_world : World
verifying_world = record targeted {
  status = record targeted.status { write_ok = true };
  writing = record targeted.writing {
    verify_page = record { byte0 = 3; byte1 = 0; byte2 = 0 };
    write_total = 3;
    flash_buffer = 0 ∷ 1 ∷ 2 ∷ [];
  };
}

page_held : (i : ℕ) → i < 3 → get_elem? (0 ∷ 1 ∷ 2 ∷ []) (0 + i) ≡ some (byte_at (0 ∷ 1 ∷ 2 ∷ []) i)
page_held i small = let e : 0 + i ≡ i = omega arith in rw e (element (0 ∷ 1 ∷ 2 ∷ []) i small)

verify_compares_example :
    (t : World) × (verify memory_env ssi0 verifying_world ≡ done (tt, t))
    × (t.status.write_ok
        ≡ (true && (0 == memory (3 * 2 ^ 8) && agrees (1 ∷ 2 ∷ []) memory ((3 + 1) * 2 ^ 8))))
    × (t.selected ≡ SpiChip.none)
unfolding spi_device page_value
verify_compares_example =
    verify_compares memory_env target ssi0 memory 8 refl memory_env-IsReadable (omega arith) 0
      (1 ∷ 2 ∷ []) verifying_world refl refl refl refl (omega arith) page_held (omega arith)
