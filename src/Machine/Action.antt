-- ===== src/Machine/Action.antt =====
-- Actions on the world, and what surrounds the firmware: the chips on the bus and the USB core.
use spiflash_programmer.Prelude.{ℕ, Bool, List, ◌∷◌, Option, none, some}
use spiflash_programmer.Machine.{Event, EpStatus, Board, World}

-- `fault` is a null dereference or an index out of range, which C++ leaves undefined; `spin` is
-- a loop that has used up its polls.
pub data Outcome {ℓ} (A : Type ℓ) : Type ℓ where
  done : A → Outcome A
  fault spin : Outcome A

abbrev pub Action : Type 0 → Type 0
Action A = World → Outcome (A × World)

abbrev pub pure : {A : Type 0} → A → Action A
pure a s = done (a, s)

abbrev pub crash : {A : Type 0} → Action A
crash s = fault

infixl 5 ◌>>=◌ ◌>>◌
abbrev pub ◌>>=◌ : {A B : Type 0} → Action A → (A → Action B) → Action B
◌>>=◌ m f s = elim (m s) [ done (a, t) ↦ f a t | fault ↦ fault | spin ↦ spin ]

abbrev pub ◌>>◌ : {B : Type 0} → Action (Unit {0}) → Action B → Action B
m >> k = m >>= λ _. k

abbrev pub get : Action World
get s = done (s, s)

abbrev pub modify : (World → World) → Action (Unit {0})
modify f s = done (tt, f s)

-- `*p` for a pointer that may be null, and `a[i]` for an array.
abbrev pub deref : {A : Type 0} → Option A → Action A
deref none s = fault
deref (some a) s = done (a, s)

abbrev pub with_board : World → Board → World
with_board s b = record s { board = b }

abbrev pub emit : Event → World → World
emit e s = record s { board = record s.board { log = e ∷ s.log } }

-- What the firmware does not implement. `reply` is the byte that the selected chip sends in the
-- next transfer, whatever chip that is: any function of the bus's history. `read_ep` is the USB
-- core's `readEP`: it moves a packet from the host into the buffer that the endpoint points at,
-- and counts it off. `polls` bounds the loops that wait for a chip.
pub record Env : Type 0 where
  pub reply : List Event → ℕ
  pub read_ep : List Event → EpStatus → List ℕ → EpStatus × List ℕ
  pub needs_arming : Bool → ℕ → ℕ
  pub reset_status : ℕ → ℕ
  pub ep_buffer_size : ℕ
  pub polls : ℕ
  -- `__builtin_clz` of the compiler, on 32 bits.
  pub clz : ℕ → ℕ
