-- ===== src/Host/Dumped.antt =====
-- Reading a whole chip into a file, from a programmer that serves it: `readDevice` of
-- software/flashprog.cxx.
use spiflash_programmer.Prelude.{zero, suc, ℕ, ◌∷◌, arith, ◌<◌, ◌*◌}
use spiflash_programmer.Host.Requests.{transfer_of, list_chip}
use spiflash_programmer.Host.Session.{claim, HostEnv, History}
use spiflash_programmer.Protocol.Layout.{ListDevice}
use spiflash_programmer.Host.Returns.{Returns}
use spiflash_programmer.Host.Options.{Chip}
use Prim.Native.Nat.{ℕ, suc}
use spiflash_programmer.Host.Chips.{transfer_block_size, list_device_in}

pub pages_positive : (n p : ℕ) → 0 < n * p → 0 < n
pages_positive zero p h = omega (arith, h)
pages_positive (suc n) p h = omega arith

pub block_positive : 0 < transfer_block_size
unfolding transfer_block_size
block_positive = omega arith

-- What the chip is said to be, when it is asked for first after the interface was claimed.
abbrev pub listed_chip : HostEnv → History → Chip → ListDevice
listed_chip env log chip =
    list_device_in
      (env.on_control (claim 0 ∷ log) (transfer_of (list_chip chip.index chip.bus) 0)).1
