-- ===== src/Proto/Control/Abort.antt =====
-- What an abort leaves behind: `handleAbort` of firmware/usb/flashProto.cxx.
use spiflash_programmer.Prelude.{ℕ, ◌≡◌, refl, false}
use spiflash_programmer.Machine.{World, SpiChip}
use spiflash_programmer.Machine.Action.{Env, done, fault, ◌>>◌}
use spiflash_programmer.Proto.Control.{handle_abort}
use spiflash_programmer.Proto.Read.{perform_read, perform_data_or_sfdp_read, handle_read}
use spiflash_programmer.Proto.Erase.{tick}
use spiflash_programmer.Spi.{spi_select, spi_device}
use spiflash_programmer.Proto.Write.{perform_write}

-- Whatever was under way, an abort runs to its end, and afterwards no chip is selected or
-- targeted, and there is nothing to read, to write or to erase.
pub abort_stops :
    (env : Env) (s : World)
    → (t : World) × (handle_abort env s ≡ done (tt, t))
      × (t.selected ≡ SpiChip.none)
      × (t.target_device ≡ SpiChip.none)
      × (t.read_count ≡ 0)
      × (t.write_count ≡ 0)
      × (t.erase_active ≡ false)
unfolding handle_abort spi_select
abort_stops env s = (_, refl, refl, refl, refl, refl, refl)

-- After an abort, an IN packet, a late data stage of a read and the tick of a frame all leave the
-- world, the bus included, as the abort left it. An OUT packet dereferences the null pointer that
-- stands for the controller of no chip.
pub abort_quiet :
    (env : Env) (endpoint : ℕ) (s : World)
    → ((handle_abort env >> perform_data_or_sfdp_read env endpoint) s ≡ handle_abort env s)
      × ((handle_abort env >> handle_read env) s ≡ handle_abort env s)
      × ((handle_abort env >> tick env) s ≡ handle_abort env s)
      × ((handle_abort env >> perform_write env endpoint) s ≡ fault)
unfolding handle_abort spi_select perform_data_or_sfdp_read perform_read handle_read tick
    perform_write spi_device
abort_quiet env endpoint s = (refl, refl, refl, refl)
