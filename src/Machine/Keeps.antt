-- ===== src/Machine/Keeps.antt =====
-- Invariants of actions: `Keeps P m` says that `m`, started where `P` holds, ends where `P` holds
-- if it ends. One rule for each way to build an action.
use spiflash_programmer.Prelude.{Bool, true, false, Option, none, some, if◌then◌else◌}
use spiflash_programmer.Machine.{World}
use spiflash_programmer.Machine.Action.{
  Outcome, done, fault, spin, Action, pure, ◌>>=◌, ◌>>◌, get, modify, deref,
}

abbrev pub After : {A : Type 0} → (World → Type 0) → Outcome (A × World) → Type 0
After P (done (a, t)) = P t
After P fault = Unit {0}
After P spin = Unit {0}

pub record Keeps {A : Type 0} (P : World → Type 0) (m : Action A) : Type 0 where
  pub run : (s : World) → P s → After P (m s)

pub After-bind :
    {A B : Type 0} (P : World → Type 0) (o : Outcome (A × World)) (f : A → Action B)
    → After P o
    → ((a : A) → Keeps P (f a))
    → After P
        (elim o as (λ o. Outcome (B × World)) [ done (a, t) ↦ f a t | fault ↦ fault | spin ↦ spin ])
After-bind P (done (a, t)) f h k = (k a).run t h
After-bind P fault f h k = tt
After-bind P spin f h k = tt

pub Keeps-bind :
    {A B : Type 0} {P : World → Type 0} {m : Action A} {f : A → Action B}
    → Keeps P m
    → ((a : A) → Keeps P (f a))
    → Keeps P (m >>= f)
Keeps-bind {P} {m} {f} h k = record { run = λ s p. After-bind P (m s) f (h.run s p) k }

pub Keeps-then :
    {B : Type 0} {P : World → Type 0} {m : Action (Unit {0})} {k : Action B}
    → Keeps P m
    → Keeps P k
    → Keeps P (m >> k)
Keeps-then h k = Keeps-bind h (λ u. k)

pub Keeps-pure : {A : Type 0} {P : World → Type 0} (a : A) → Keeps P (pure a)
Keeps-pure a = record { run = λ s p. p }

pub Keeps-get : {P : World → Type 0} → Keeps P get
Keeps-get = record { run = λ s p. p }

pub Keeps-deref : {A : Type 0} {P : World → Type 0} (o : Option A) → Keeps P (deref o)
Keeps-deref none = record { run = λ s p. tt }
Keeps-deref (some a) = record { run = λ s p. p }

pub Keeps-if :
    {A : Type 0} {P : World → Type 0} (b : Bool) {m n : Action A}
    → Keeps P m
    → Keeps P n
    → Keeps P (if b then m else n)
Keeps-if true h k = h
Keeps-if false h k = k

pub Keeps-modify :
    {P : World → Type 0} (f : World → World) → ((s : World) → P s → P (f s)) → Keeps P (modify f)
Keeps-modify f h = record { run = h }
