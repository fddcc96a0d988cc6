-- ===== src/Proto/Write/Bounds.antt =====
-- The sizes that a write is set up with, so that the flash buffer is large enough.
use spiflash_programmer.Prelude.{
  ℕ, ◌≡◌, ◌<◌, ◌≤◌, ◌⊎◌, inl, inr, refl, true, false, arith, Bool, ltb, if◌then◌else◌, ◌==◌,
  Bool-cases, ◌∷◌,
}
use spiflash_programmer.Machine.{World, led, Pointer, Callback}
use spiflash_programmer.Machine.Action.{Env, done}
use spiflash_programmer.Proto.Common.{flash_buffer_size, expect_data, set_ep}
use spiflash_programmer.Proto.Write.{setup_write, set_write_count}
use spiflash_programmer.Spi.{led_set_colour}

-- The world after an accepted request to write.
abbrev pub write_awaited : Env → ℕ → Bool → World → World
write_awaited env count verified s =
    let n : ℕ = if count == 0 then 256 else count in
    record (set_write_count n s) {
      board = record s.board { log = led true true false ∷ s.log };
      ep_out = set_ep s.ep_out 0 (record {
        mem_buffer = Pointer.write_page;
        transfer_count = 3;
        flags = env.needs_arming true (s.ep_out 0).flags;
      });
      setup_callback = Callback.handle_write;
      writing = record s.writing { write_count = n; write_total = n; verify_write = verified };
      status = record s.status { write_ok = true };
    }

setup_write_accepts :
    (env : Env) (count : ℕ) (verified : Bool) (s : World)
    → count ≤ flash_buffer_size
    → setup_write env count verified s ≡ done (true, write_awaited env count verified s)
unfolding setup_write expect_data led_set_colour
setup_write_accepts env count verified s fits = ground arith

awaited_bounds :
    (count : ℕ)
    → count ≤ flash_buffer_size
    → (0 < (if count == 0 then 256 else count))
      × ((if count == 0 then 256 else count) ≤ flash_buffer_size)
awaited_bounds count fits = ground arith

-- A write is either refused, and nothing changes, or set up with everything still to write, at
-- least a byte, at most the flash buffer's size, and with no verification failure yet.
pub setup_write_bounds :
    (env : Env) (count : ℕ) (verified : Bool) (s : World)
    → (setup_write env count verified s ≡ done (false, s))
      ⊎ ((t : World) × (setup_write env count verified s ≡ done (true, t))
          × (0 < t.write_count)
          × (t.write_count ≤ flash_buffer_size)
          × (t.write_total ≡ t.write_count)
          × (t.verify_write ≡ verified)
          × (t.status.write_ok ≡ true))
unfolding setup_write
setup_write_bounds env count verified s = elim (Bool-cases (ltb flash_buffer_size count)) [
  | inl long ↦ inl (rw long)
  | inr short ↦
      let fits : count ≤ flash_buffer_size = ground arith in
      let (positive, bounded) = awaited_bounds count fits in
      inr (
        write_awaited env count verified s,
        setup_write_accepts env count verified s fits,
        positive,
        bounded,
        refl,
        refl,
        refl,
      )
]
