-- ===== src/Proto/Target/Refusals.antt =====
-- Which chips cannot be targeted: the refusals of `handleTargetDevice`.
use spiflash_programmer.Prelude.{◌≡◌, ◌<◌, ◌≤◌, ◌⊎◌, false, arith}
use spiflash_programmer.Protocol.{Address}
use spiflash_programmer.Machine.{World}
use spiflash_programmer.Machine.Action.{Env, done}
use spiflash_programmer.Proto.Target.{
  handle_target_device, target_internal, target_external, internal_chips,
}

-- An unknown bus, an internal chip beyond the last one and an external chip but the first are
-- refused, and the target stays as it was.
pub handle_target_device_refuses :
    (env : Env) (address : Address) (s : World)
    → (2 < address.addr_high)
      ⊎ ((address.addr_high ≡ 0) × (internal_chips ≤ address.addr_low))
      ⊎ ((address.addr_high ≡ 1) × (0 < address.addr_low))
    → handle_target_device env address s ≡ done (false, s)
unfolding handle_target_device target_internal target_external
handle_target_device_refuses env address s h = ground arith
