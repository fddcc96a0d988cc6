-- ===== src/Host/Balance.antt =====
-- The interface that an operation claims: how often its code releases it again.
use spiflash_programmer.Prelude.{
  ℕ, zero, suc, ◌+◌, ◌≡◌, refl, Bool, true, false, List, [], ◌∷◌, Option, none, some, ◌==◌,
  if◌then◌else◌, arith, subst,
}
use spiflash_programmer.Host.Requests.{HostRequest}
use spiflash_programmer.Host.Session.{
  release, sleep_ms, begin_progress, add_progress, close_progress, History, HostEnv, HostAction,
  Ended, returned, raised, crashed, waiting, return, crash, hang, ◌>>=◌, ◌>>◌, note, or_else, gets,
  ask, read_bulk, write_bulk, bulk_transfer, control_transfer, save, load, release_with,
  release_interface, give_up,
}

-- How often a history has released interface 0.
abbrev pub releases : History → ℕ
releases [] = 0
releases (release zero ∷ log) = releases log + 1
releases (_ ∷ log) = releases log

-- What an action that began after `n` releases has done, by how it ended: `f` says how many more
-- there have been, by the value returned. An exception comes after one release.
abbrev pub Released : {A : Type 0} → ℕ → (A → ℕ) → Ended A × History → Type 0
Released n f (returned a, log) = releases log ≡ n + f a
Released n f (raised e, log) = releases log ≡ n + 1
Released n f (crashed, log) = Unit {0}
Released n f (waiting, log) = Unit {0}

pub record Releases {A : Type 0} (f : A → ℕ) (m : HostAction A) : Type 0 where
  pub run : (log : History) → Released (releases log) f (m log)

abbrev pub never : {A : Type 0} → A → ℕ
never a = 0

abbrev pub once : {A : Type 0} → A → ℕ
once a = 1

-- An inner loop returns 0 with the interface still claimed, and any other code after a release.
abbrev pub by_code : ℕ → ℕ
by_code code = if code == 0 then 0 else 1

Released-bind :
    {A B : Type 0} (n : ℕ) (f : B → ℕ) (o : Ended A × History) (k : A → HostAction B)
    → Released n never o
    → ((a : A) → Releases f (k a))
    → Released n f (elim o.0 as (λ r. Ended B × History) [
      | returned a ↦ k a o.1
      | raised e ↦ (raised e, o.1)
      | crashed ↦ (crashed, o.1)
      | waiting ↦ (waiting, o.1)
    ])
Released-bind n f (returned a, log) k h g =
    let e : releases log ≡ n = omega (arith, h) in
    subst (λ m. Released m f (k a log)) e ((g a).run log)
Released-bind n f (raised e, log) k h g = h
Released-bind n f (crashed, log) k h g = tt
Released-bind n f (waiting, log) k h g = tt

pub Releases-bind :
    {A B : Type 0} {f : B → ℕ} {m : HostAction A} {k : A → HostAction B}
    → Releases never m
    → ((a : A) → Releases f (k a))
    → Releases f (m >>= k)
Releases-bind {f} {m} {k} h g = record {
  run = λ log. Released-bind (releases log) f (m log) k (h.run log) g;
}

pub Releases-then :
    {B : Type 0} {f : B → ℕ} {m : HostAction (Unit {0})} {k : HostAction B}
    → Releases never m
    → Releases f k
    → Releases f (m >> k)
Releases-then h g = Releases-bind h (λ u. g)

Released-codes :
    (n : ℕ) (f : ℕ → ℕ) (o : Ended ℕ × History) (m : HostAction ℕ)
    → ((c : ℕ) → f (suc c) ≡ 1)
    → Released n by_code o
    → Releases f m
    → Released n f (elim o.0 as (λ r. Ended ℕ × History) [
      | returned c ↦ (if c == 0 then m else return c) o.1
      | raised e ↦ (raised e, o.1)
      | crashed ↦ (crashed, o.1)
      | waiting ↦ (waiting, o.1)
    ])
Released-codes n f (returned zero, log) m one h g =
    let e : releases log ≡ n = omega (arith, h) in subst (λ k. Released k f (m log)) e (g.run log)
Released-codes n f (returned (suc c), log) m one h g = ground (arith, h, one c)
Released-codes n f (raised e, log) m one h g = h
Released-codes n f (crashed, log) m one h g = tt
Released-codes n f (waiting, log) m one h g = tt

-- An inner loop, after which an operation goes on if the code is 0, and passes it on if not.
pub Releases-codes :
    {l m : HostAction ℕ}
    → Releases by_code l
    → Releases once m
    → Releases once (l >>= λ c. if c == 0 then m else return c)
Releases-codes {l} {m} h g = record {
  run = λ log. Released-codes (releases log) once (l log) m (λ c. refl) (h.run log) g;
}

pub Releases-by_code :
    {l m : HostAction ℕ}
    → Releases by_code l
    → Releases by_code m
    → Releases by_code (l >>= λ c. if c == 0 then m else return c)
Releases-by_code {l} {m} h g = record {
  run = λ log. Released-codes (releases log) by_code (l log) m (λ c. ground arith) (h.run log) g;
}

pub Releases-return : {A : Type 0} (a : A) → Releases never (return a)
Releases-return a = record { run = λ log. omega arith }

pub Releases-code0 : Releases by_code (return 0)
Releases-code0 = record { run = λ log. omega arith }

pub Releases-crash : {A : Type 0} {f : A → ℕ} → Releases f crash
Releases-crash = record { run = λ log. tt }

pub Releases-hang : {A : Type 0} {f : A → ℕ} → Releases f hang
Releases-hang = record { run = λ log. tt }

pub Releases-gets : {A : Type 0} (g : History → A) → Releases never (gets g)
Releases-gets g = record { run = λ log. omega arith }

pub Releases-if :
    {A : Type 0} {f : A → ℕ} (b : Bool) {m n : HostAction A}
    → Releases f m
    → Releases f n
    → Releases f (if b then m else n)
Releases-if true h k = h
Releases-if false h k = k

module _ (env : HostEnv) where
  pub ask-Releases : (r : HostRequest) → Releases never (ask env r)
  unfolding ask control_transfer
  ask-Releases r = record { run = λ log. omega arith }

  pub read_bulk-Releases : (e n : ℕ) → Releases never (read_bulk env e n)
  unfolding read_bulk bulk_transfer
  read_bulk-Releases e n = record { run = λ log. omega arith }

  pub write_bulk-Releases : (e : ℕ) (bytes : List ℕ) → Releases never (write_bulk env e bytes)
  unfolding write_bulk bulk_transfer
  write_bulk-Releases e bytes = record { run = λ log. omega arith }

  pub save-Releases : (bytes : List ℕ) → Releases never (save env bytes)
  unfolding save
  save-Releases bytes = record { run = λ log. omega arith }

  pub load-Releases : (n : ℕ) → Releases never (load env n)
  unfolding load
  load-Releases n = record { run = λ log. omega arith }

  pub release_interface-by_code : Releases by_code (do ok ← release_interface env 0; return 1)
  unfolding release_interface
  release_interface-by_code = record { run = λ log. refl }

  pub give_up-once : Releases once (give_up env)
  unfolding give_up release_interface
  give_up-once = record { run = λ log. refl }

  pub give_up-by_code : Releases by_code (give_up env)
  unfolding give_up release_interface
  give_up-by_code = record { run = λ log. ground arith }

module _ (env : HostEnv) where
  pub release_with-once : (code : ℕ) → Releases once (release_with env code)
  unfolding release_with release_interface
  release_with-once code = record { run = λ log. refl }

pub sleep_ms-Releases : (n : ℕ) → Releases never (note (sleep_ms n))
sleep_ms-Releases n = record { run = λ log. omega arith }

pub begin_progress-Releases : (total : Option ℕ) → Releases never (note (begin_progress total))
begin_progress-Releases total = record { run = λ log. omega arith }

pub add_progress-Releases : (n : ℕ) → Releases never (note (add_progress n))
add_progress-Releases n = record { run = λ log. omega arith }

pub close_progress-Releases : Releases never (note close_progress)
close_progress-Releases = record { run = λ log. omega arith }

pub Releases-option :
    {A B : Type 0} {f : B → ℕ} (o : Option A) {m : HostAction B} {k : A → HostAction B}
    → Releases f m
    → ((a : A) → Releases f (k a))
    → Releases f (or_else o m k)
Releases-option none h g = h
Releases-option (some a) h g = g a

pub ruleset releasing = (
  Releases-codes, Releases-by_code, release_interface-by_code, Releases-bind, Releases-return,
  Releases-code0, Releases-crash, Releases-hang, Releases-gets, Releases-if, Releases-option,
  ask-Releases, read_bulk-Releases, write_bulk-Releases, save-Releases, load-Releases,
  release_with-once, give_up-once, give_up-by_code, sleep_ms-Releases, begin_progress-Releases,
  add_progress-Releases, close_progress-Releases,
)
