-- ===== src/Host/Granted.antt =====
-- The start of every operation, which goes on only if the device could be opened and claimed.
use spiflash_programmer.Prelude.{
  ℕ, ◌+◌, ◌≡◌, ◌∙◌, refl, Bool, true, false, ◌∷◌, ◌==◌, ◌&&◌, if◌then◌else◌, arith,
}
use spiflash_programmer.Host.Session.{
  HostEnv, HostAction, History, claim, returned, return, with_device, open_and_claim,
  claim_interface,
}
use spiflash_programmer.Host.Balance.{Releases, once, Released, releases}
use spiflash_programmer.Host.Returns.{Returns, after_lem}

-- Whether the device could be opened and its interface claimed.
abbrev pub is_granted : HostEnv → History → Bool
is_granted env log = env.opens log && env.on_claim log 0 == 0

-- How often an operation that ends has released the interface: once if it was claimed, else never.
abbrev pub IsBalanced : HostEnv → HostAction ℕ → Type 0
IsBalanced env m =
    (log : History) → Released (releases log) (λ c. if is_granted env log then 1 else 0) (m log)

if_Returns :
    (o : Bool) {m : HostAction Bool} {c : Bool} {log log' : History}
    → Returns m log c log'
    → Returns (if o then m else return false) log (o && c) (if o then log' else log)
if_Returns true h = h
if_Returns false h = record { run = refl }

claim_interface-Returns :
    (env : HostEnv) (log : History)
    → Returns (claim_interface env 0) log (env.on_claim log 0 == 0) (claim 0 ∷ log)
unfolding claim_interface
claim_interface-Returns env log = record { run = refl }

granted_cases :
    (o c : Bool) (m : HostAction ℕ) (log : History)
    → (if o && c then m else return 1) (if o then claim 0 ∷ log else log)
      ≡ (if o && c then m (claim 0 ∷ log) else (returned 1, if o then claim 0 ∷ log else log))
granted_cases true true m log = refl
granted_cases true false m log = refl
granted_cases false c m log = refl

with_device_granted :
    (env : HostEnv) (m : HostAction ℕ) (log : History)
    → with_device env m log ≡ (
        if is_granted env log
        then m (claim 0 ∷ log)
        else (returned 1, if env.opens log then claim 0 ∷ log else log))
unfolding with_device open_and_claim
with_device_granted env m log =
    let opened = if_Returns (env.opens log) (claim_interface-Returns env log) in
    after_lem (open_and_claim env log) (λ ready. if ready then m else return 1) opened.run
    ∙ granted_cases (env.opens log) (env.on_claim log 0 == 0) m log

pub with_device-IsBalanced :
    (env : HostEnv) (m : HostAction ℕ) → Releases once m → IsBalanced env (with_device env m)
with_device-IsBalanced env m h log =
    rw (with_device_granted env m log)
      (elim (is_granted env log)
        as (λ g.
          Released (releases log) (λ c. if g then 1 else 0)
            (if g
              then m (claim 0 ∷ log)
              else (returned 1, if env.opens log then claim 0 ∷ log else log))) [
                | true ↦ h.run (claim 0 ∷ log)
                | false ↦
                    elim (env.opens log)
                      as (λ o. releases (if o then claim 0 ∷ log else log) ≡ releases log + 0) [
                        | true ↦ omega arith
                        | false ↦ omega arith
                      ]
              ])
