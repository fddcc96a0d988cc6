-- ===== src/Host/Returns.antt =====
-- Runs of the host's actions that return, one call after another.
use spiflash_programmer.Prelude.{
  ◌≡◌, ◌∙◌, refl, ap, ◌∷◌, Bool, true, false, if◌then◌else◌, subst, sym, Option, some,
}
use spiflash_programmer.Host.Session.{
  HostEvent, History, HostAction, Ended, returned, raised, crashed, waiting, ◌>>=◌, ◌>>◌, note,
  Exception, catch_error, or_else, return,
}

-- From the history `log` the action returns `a`, and the history is then `log'`.
pub record Returns {A : Type 0} (m : HostAction A) (log : History) (a : A) (log' : History)
    : Type 0 where
  pub run : m log ≡ (returned a, log')

pub after_lem :
    {A B : Type 0} {a : A} {log : History} (o : Ended A × History) (k : A → HostAction B)
    → o ≡ (returned a, log)
    → elim o.0 as (λ r. Ended B × History) [
      | returned x ↦ k x o.1
      | raised e ↦ (raised e, o.1)
      | crashed ↦ (crashed, o.1)
      | waiting ↦ (waiting, o.1)
    ]
      ≡ k a log
after_lem {B} o k e =
    ap
      (λ x. elim x.0 as (λ r. Ended B × History) [
        | returned y ↦ k y x.1
        | raised y ↦ (raised y, x.1)
        | crashed ↦ (crashed, x.1)
        | waiting ↦ (waiting, x.1)
      ])
      e

pub Returns-bind :
    {A B : Type 0} {m : HostAction A} (k : A → HostAction B) {a : A} {b : B}
    {log log1 log2 : History}
    → Returns m log a log1
    → Returns (k a) log1 b log2
    → Returns (m >>= k) log b log2
Returns-bind {m} k {log} h g = record { run = after_lem (m log) k h.run ∙ g.run }

pub Returns-note :
    {B : Type 0} {k : HostAction B} {b : B} {log log2 : History} (e : HostEvent)
    → Returns k (e ∷ log) b log2
    → Returns (note e >> k) log b log2
Returns-note e g = record { run = g.run }

pub Returns-return : {A : Type 0} (a : A) (log : History) → Returns (return a) log a log
Returns-return a log = record { run = refl }

pub Returns-then :
    {A : Type 0} {b : Bool} {m : HostAction A} (n : HostAction A) {a : A} {log log' : History}
    → b ≡ true
    → Returns m log a log'
    → Returns (if b then m else n) log a log'
Returns-then {m} n {a} {log} {log'} e h =
    subst (λ x. Returns (if x then m else n) log a log') (sym e) h

pub Returns-else :
    {A : Type 0} {b : Bool} (m : HostAction A) {n : HostAction A} {a : A} {log log' : History}
    → b ≡ false
    → Returns n log a log'
    → Returns (if b then m else n) log a log'
Returns-else m {n} {a} {log} {log'} e h =
    subst (λ x. Returns (if x then m else n) log a log') (sym e) h

pub Returns-or_else :
    {A B : Type 0} {o : Option A} (failed : HostAction B) (k : A → HostAction B) {a : A} {b : B}
    {log log' : History}
    → o ≡ some a
    → Returns (k a) log b log'
    → Returns (or_else o failed k) log b log'
Returns-or_else failed k {b} {log} {log'} e h =
    subst (λ x. Returns (or_else x failed k) log b log') (sym e) h

pub Returns-catch :
    {A : Type 0} {m : HostAction A} (handler : Exception → HostAction A) {a : A}
    {log log' : History}
    → Returns m log a log'
    → Returns (catch_error m handler) log a log'
Returns-catch {A} handler h = record {
  run =
      ap
        (λ x. elim x.0 as (λ r. Ended A × History) [
          | raised y ↦ handler y x.1
          | returned y ↦ (returned y, x.1)
          | crashed ↦ (crashed, x.1)
          | waiting ↦ (waiting, x.1)
        ])
        h.run;
}
