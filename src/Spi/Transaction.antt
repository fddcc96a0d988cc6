-- ===== src/Spi/Transaction.antt =====
-- The bus as a chip sees it: the bytes since it was last selected. The specifications of chips
-- and the theorems about commands are stated on these.
use spiflash_programmer.Prelude.{
  ℕ, ◌≡◌, refl, List, [], ◌∷◌, ◌++◌, Option, none, some, ◌==◌, if◌then◌else◌,
}
use spiflash_programmer.Machine.{
  Event, cs_target, cs_local, transfer, write_ep, SpiChip, local1, local2, target, Ssi, ssi0, ssi1,
}
use spiflash_programmer.Spi.{spi_device, select_pins}

abbrev push : ℕ → Option (List ℕ) → Option (List ℕ)
push b none = none
push b (some bytes) = some (b ∷ bytes)

abbrev on_cs_target : SpiChip → ℕ → Option (List ℕ) → Option (List ℕ)
on_cs_target target v rest = if v == 0x00 then some [] else none
on_cs_target _ v rest = rest

abbrev on_cs_local : SpiChip → ℕ → Option (List ℕ) → Option (List ℕ)
on_cs_local local1 v rest = if v == 0x02 then some [] else none
on_cs_local local2 v rest = if v == 0x01 then some [] else none
on_cs_local _ v rest = rest

abbrev on_transfer : SpiChip → Ssi → ℕ → Option (List ℕ) → Option (List ℕ)
on_transfer target ssi0 b rest = push b rest
on_transfer local1 ssi1 b rest = push b rest
on_transfer local2 ssi1 b rest = push b rest
on_transfer _ _ b rest = rest

-- The bytes that the chip has received since it was selected, newest first; `none` if it is not
-- selected.
abbrev pub transaction : SpiChip → List Event → Option (List ℕ)
transaction chip [] = none
transaction chip (cs_target v ∷ log) = on_cs_target chip v (transaction chip log)
transaction chip (cs_local v ∷ log) = on_cs_local chip v (transaction chip log)
transaction chip (transfer port b ∷ log) = on_transfer chip port b (transaction chip log)
transaction chip (_ ∷ log) = transaction chip log

pub transaction-select :
    (chip : SpiChip) {port : Ssi} (log : List Event)
    → spi_device chip ≡ some port
    → transaction chip (select_pins chip log) ≡ some []
unfolding select_pins spi_device
transaction-select local1 log e = refl
transaction-select local2 log e = refl
transaction-select target log e = refl
transaction-select SpiChip.none log e = cc

pub transaction-transfer :
    (chip : SpiChip) (port : Ssi) (b : ℕ) (log : List Event) (bytes : List ℕ)
    → spi_device chip ≡ some port
    → transaction chip log ≡ some bytes
    → transaction chip (transfer port b ∷ log) ≡ some (b ∷ bytes)
unfolding spi_device
transaction-transfer local1 ssi1 b log bytes e h = rw h
transaction-transfer local2 ssi1 b log bytes e h = rw h
transaction-transfer target ssi0 b log bytes e h = rw h
transaction-transfer local1 ssi0 b log bytes e h = cc
transaction-transfer local2 ssi0 b log bytes e h = cc
transaction-transfer target ssi1 b log bytes e h = cc
transaction-transfer SpiChip.none port b log bytes e h = cc

-- The bytes given to the USB core for the host on an endpoint, oldest first.
abbrev pub sent : ℕ → List Event → List ℕ
sent endpoint [] = []
sent endpoint (write_ep e bytes ∷ log) =
    if e == endpoint then sent endpoint log ++ bytes else sent endpoint log
sent endpoint (_ ∷ log) = sent endpoint log

pub sent-select :
    (endpoint : ℕ) (chip : SpiChip) (log : List Event)
    → sent endpoint (select_pins chip log) ≡ sent endpoint log
unfolding select_pins
sent-select endpoint local1 log = refl
sent-select endpoint local2 log = refl
sent-select endpoint target log = refl
sent-select endpoint SpiChip.none log = refl
