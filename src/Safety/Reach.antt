-- ===== src/Safety/Reach.antt =====
-- Everything that can happen to the firmware, as steps: a control request, the data stage of one, a
-- packet sent or received on the other endpoints, and the tick of a frame.
use spiflash_programmer.Safety.Parts.{parts}
use spiflash_programmer.Safety.Writing.{perform_write-Keeps, tick-Keeps}
use spiflash_programmer.Safety.Handlers.{perform_data_or_sfdp_read-Keeps}
use spiflash_programmer.Safety.Control.{handle_ctrl_request-Keeps, run_callback-Keeps}
use spiflash_programmer.Spi.{claim_pins, spi_init, start_bus}
use spiflash_programmer.Spi.Select.{Wired, IsWired-local, IsExclusive}
use spiflash_programmer.Proto.Read.{perform_data_or_sfdp_read}
use spiflash_programmer.Prelude.{ℕ, ◌≡◌, [], arith, subst, List}
use spiflash_programmer.Machine.{World, SpiChip, FlashId}
use spiflash_programmer.Machine.Action.{Env, done, Action, modify, with_board}
use spiflash_programmer.Machine.Keeps.{Keeps, After, After-bind}
use spiflash_programmer.Proto.Control.{Packet, Answer, handle_ctrl_request, run_callback}
use spiflash_programmer.Proto.Write.{perform_write}
use spiflash_programmer.Proto.Erase.{tick}

-- In a data stage the USB core stores what it receives before the callback runs: it may change
-- the globals in any way, but not the board.
pub data Step (env : Env) (our_interface : ℕ) (s u : World) : Type 0 where
  control :
      (p : Packet) (a : Answer)
      → handle_ctrl_request env our_interface p s ≡ done (a, u)
      → Step env our_interface s u
  data_stage :
      (t : World)
      → t.board ≡ s.board
      → run_callback env s.setup_callback t ≡ done (tt, u)
      → Step env our_interface s u
  in_ready :
      (endpoint : ℕ)
      → perform_data_or_sfdp_read env endpoint s ≡ done (tt, u)
      → Step env our_interface s u
  out_ready :
      (endpoint : ℕ) → perform_write env endpoint s ≡ done (tt, u) → Step env our_interface s u
  frame : tick env s ≡ done (tt, u) → Step env our_interface s u

pub data Reach (env : Env) (our_interface : ℕ) (s : World) : World → Type 0 where
  here : Reach env our_interface s s
  next :
      {t u : World}
      → Reach env our_interface s t
      → Step env our_interface t u
      → Reach env our_interface s u

ends :
    {A : Type 0} {m : Action A}
    → Keeps Wired m
    → (s : World) (a : A) (u : World) → m s ≡ done (a, u)
    → Wired s
    → Wired u
ends k s a u e w = subst (After Wired) e (k.run s w)

claim_pins-Wired : (s : World) → s.selected ≡ SpiChip.none → Wired s → After Wired (claim_pins s)
unfolding claim_pins
claim_pins-Wired s none_selected w = record {
  exclusive = (omega arith, (omega arith, (IsWired-local w, w.exclusive)));
  target_agrees = rw none_selected;
  local_agrees = rw none_selected;
}

module _ (env : Env) (our_interface : ℕ) where
  Step-Wired : {s u : World} → Step env our_interface s u → Wired s → Wired u
  Step-Wired {s} {u} (control p a e) w =
      ends (handle_ctrl_request-Keeps env our_interface p) s a u e w
  Step-Wired {s} {u} (data_stage t same e) w =
      ends (run_callback-Keeps env s.setup_callback) t tt u e (rw same w)
  Step-Wired {s} {u} (in_ready endpoint e) w =
      ends (perform_data_or_sfdp_read-Keeps env endpoint) s tt u e w
  Step-Wired {s} {u} (out_ready endpoint e) w = ends (perform_write-Keeps env endpoint) s tt u e w
  Step-Wired {s} {u} (frame e) w = ends (tick-Keeps env) s tt u e w

  pub Reach-Wired : {s u : World} → Reach env our_interface s u → Wired s → Wired u
  Reach-Wired here w = w
  Reach-Wired (next r st) w = Step-Wired st (Reach-Wired r w)

local_chip-Keeps :
    (ids : List FlashId)
    → Keeps Wired (modify (λ s. with_board s (record s.board { local_chip = ids })))
local_chip-Keeps ids = record {
  run = λ s w. record {
    exclusive = w.exclusive;
    target_agrees = w.target_agrees;
    local_agrees = w.local_agrees;
  };
}

start_bus-Keeps : (env : Env) → Keeps Wired (start_bus env)
unfolding start_bus
start_bus-Keeps env = search (parts, local_chip-Keeps) depth 20

spi_init-Wired :
    (env : Env) (s u : World)
    → s.selected ≡ SpiChip.none
    → Wired s
    → spi_init env s ≡ done (tt, u)
    → Wired u
unfolding spi_init
spi_init-Wired env s u none_selected w e = subst (After Wired) e (
    After-bind Wired (claim_pins s) (λ u. start_bus env) (claim_pins-Wired s none_selected w)
      (λ u. start_bus-Keeps env))

power_on-Wired : (s : World) → s.log ≡ [] → s.selected ≡ SpiChip.none → Wired s
power_on-Wired s empty none_selected = record {
  exclusive = rw empty tt;
  target_agrees = rw (empty, none_selected);
  local_agrees = rw (empty, none_selected);
}

-- After `spiInit` from power on, whatever requests, packets and frames follow, in any order, and
-- whatever the chips answer: at no moment up to there have two chips been selected at once.
pub never_two_selected :
    (env : Env) (our_interface : ℕ) (s booted u : World)
    → s.log ≡ []
    → s.selected ≡ SpiChip.none
    → spi_init env s ≡ done (tt, booted)
    → Reach env our_interface booted u
    → IsExclusive u.log
never_two_selected env our_interface s booted u empty none_selected boots r =
    (Reach-Wired env our_interface r (
      spi_init-Wired env s booted none_selected (power_on-Wired s empty none_selected)
        boots)).exclusive
