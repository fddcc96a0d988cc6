-- ===== src/Proto/Paged/Loaded.antt =====
-- What addressing a page leaves in the chip's buffer: `beginPageRead` of firmware/usb/flashProto.cxx.
use spiflash_programmer.Prelude.{
  ℕ, zero, suc, ◌^◌, ◌<◌, ◌≡◌, refl, Bool, true, false, List, ◌∷◌, none, some, u8, ◌>>>◌, ◌∙◌, ap,
}
use spiflash_programmer.Machine.{World, SpiChip, Ssi, Event, transfer}
use spiflash_programmer.Spi.{spi_device, select_pins}
use spiflash_programmer.Spi.Transaction.{
  transaction, transaction-select, transaction-transfer, sent, sent-select,
}
use spiflash_programmer.Spi.Stream.{command}
use spiflash_programmer.Spi.Buffer.{
  loaded, loaded-transfer, loaded-select, loaded-deselect, transaction-deselect,
}
use spiflash_programmer.Proto.Read.Begin.{addressed, transaction-addressed, address_bytes}
use spiflash_programmer.Proto.Paged.{asked, asked_times, after_asking, buffered}

module _ (chip : SpiChip) (port : Ssi) (wired : spi_device chip ≡ some port) where
  loaded-addressed :
      (opcode addr : ℕ) (s : World)
      → transaction chip s.log ≡ none
      → loaded chip (addressed chip port opcode addr s).log ≡ loaded chip s.log
  loaded-addressed opcode addr s off =
      let l0 = select_pins chip s.log in
      let l1 = transfer port opcode ∷ l0 in
      let l2 = transfer port (u8 (addr >>> 16)) ∷ l1 in
      let l3 = transfer port (u8 (addr >>> 8)) ∷ l2 in
      let t0 = transaction-select chip s.log wired in
      let t1 = transaction-transfer chip port opcode l0 _ wired t0 in
      let t2 = transaction-transfer chip port (u8 (addr >>> 16)) l1 _ wired t1 in
      let t3 = transaction-transfer chip port (u8 (addr >>> 8)) l2 _ wired t2 in
      loaded-transfer chip port (u8 addr) l3 _ wired t3
      ∙ loaded-transfer chip port (u8 (addr >>> 8)) l2 _ wired t2
      ∙ loaded-transfer chip port (u8 (addr >>> 16)) l1 _ wired t1
      ∙ loaded-transfer chip port opcode l0 _ wired t0
      ∙ loaded-select chip s.log wired off

  -- A question for the status leaves the buffer as it is.
  loaded-asked :
      (nand : Bool) (log : List Event)
      → transaction chip log ≡ none
      → loaded chip (select_pins SpiChip.none (asked nand chip port log)) ≡ loaded chip log
  loaded-asked true log off =
      let l0 = select_pins chip log in
      let t0 = transaction-select chip log wired in
      let t1 = transaction-transfer chip port 0x05 l0 _ wired t0 in
      let t2 = transaction-transfer chip port 0xc0 (transfer port 0x05 ∷ l0) _ wired t1 in
      let l2 = transfer port 0xc0 ∷ transfer port 0x05 ∷ l0 in
      let t3 = transaction-transfer chip port 0 l2 _ wired t2 in
      loaded-deselect chip (transfer port 0 ∷ l2) _ wired t3
      ∙ loaded-transfer chip port 0 l2 _ wired t2
      ∙ loaded-transfer chip port 0xc0 (transfer port 0x05 ∷ l0) _ wired t1
      ∙ loaded-transfer chip port 0x05 l0 _ wired t0
      ∙ loaded-select chip log wired off
  loaded-asked false log off =
      let l0 = select_pins chip log in
      let t0 = transaction-select chip log wired in
      let t1 = transaction-transfer chip port 0x05 l0 _ wired t0 in
      let l1 = transfer port 0x05 ∷ l0 in
      let t2 = transaction-transfer chip port 0 l1 _ wired t1 in
      loaded-deselect chip (transfer port 0 ∷ l1) _ wired t2
      ∙ loaded-transfer chip port 0 l1 _ wired t1
      ∙ loaded-transfer chip port 0x05 l0 _ wired t0
      ∙ loaded-select chip log wired off

  loaded-asked_times :
      (nand : Bool) (n : ℕ) (log : List Event)
      → transaction chip log ≡ none
      → (loaded chip (asked_times nand chip port n log) ≡ loaded chip log)
        × (transaction chip (asked_times nand chip port n log) ≡ none)
  loaded-asked_times nand zero log off = (refl, off)
  loaded-asked_times nand (suc n) log off =
      let log' = select_pins SpiChip.none (asked nand chip port log) in
      let (same, still) =
        loaded-asked_times nand n log'
          (transaction-deselect chip (asked nand chip port log) wired) in
      (same ∙ loaded-asked nand log off, still)

  -- The page is in the buffer, and the read command has been given.
  pub loaded-buffered :
      (nand : Bool) (n page : ℕ) (s : World)
      → page < 2 ^ 24
      → (loaded chip (buffered nand chip port n page s).log ≡ some page)
        × (transaction chip (buffered nand chip port n page s).log ≡ some (command 0x03 0 0 0))
  loaded-buffered nand n page s in_chip =
      let t : World = addressed chip port 0x13 page s in
      let u : World = record t {
        board = record t.board { log = select_pins SpiChip.none t.log; selected = SpiChip.none };
      } in
      let off = transaction-deselect chip t.log wired in
      let (same, still) = loaded-asked_times nand (suc n) u.log off in
      let v : World = after_asking nand chip port (suc n) u in
      let taking =
        loaded-deselect chip t.log _ wired (transaction-addressed chip port wired 0x13 page s) in
      (
        loaded-addressed 0x03 0 v still ∙ same ∙ taking ∙ ap some (address_bytes page in_chip),
        transaction-addressed chip port wired 0x03 0 v,
      )

sent-asked_times :
    (nand : Bool) (chip : SpiChip) (port : Ssi) (endpoint n : ℕ) (log : List Event)
    → sent endpoint (asked_times nand chip port n log) ≡ sent endpoint log
sent-asked_times nand chip port endpoint zero log = refl
sent-asked_times true chip port endpoint (suc n) log =
    sent-asked_times true chip port endpoint n _
    ∙ sent-select endpoint SpiChip.none _
    ∙ sent-select endpoint chip log
sent-asked_times false chip port endpoint (suc n) log =
    sent-asked_times false chip port endpoint n _
    ∙ sent-select endpoint SpiChip.none _
    ∙ sent-select endpoint chip log

-- Addressing sends nothing to the host.
pub sent-buffered :
    (nand : Bool) (chip : SpiChip) (port : Ssi) (endpoint n page : ℕ) (s : World)
    → sent endpoint (buffered nand chip port n page s).log ≡ sent endpoint s.log
sent-buffered nand chip port endpoint n page s =
    let t : World = addressed chip port 0x13 page s in
    sent-select endpoint chip _
    ∙ sent-asked_times nand chip port endpoint (suc n) (select_pins SpiChip.none t.log)
    ∙ sent-select endpoint SpiChip.none t.log
    ∙ sent-select endpoint chip s.log
