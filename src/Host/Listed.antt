-- ===== src/Host/Listed.antt =====
-- Listing chips that do not answer: `listDevices` of software/flashprog.cxx.
use spiflash_programmer.Prelude.{
  ℕ, zero, suc, ◌+◌, ◌<◌, ◌≡◌, ◌∷◌, [], none, some, false, true, Bool, arith, refl, List,
  if◌then◌else◌,
}
use spiflash_programmer.Protocol.{FlashBus, internal, external}
use spiflash_programmer.Host.Requests.{transfer_of, list_chip, count_devices, read_control}
use spiflash_programmer.Host.Options.{Chip}
use spiflash_programmer.Host.Session.{
  HostEnv, History, Ended, control, release, claim, returned, raised, nested_exception, ask,
  control_transfer, release_interface, with_device, open_and_claim, claim_interface, release_with,
  ◌>>◌,
}
use spiflash_programmer.Host.Chips.{
  read_chip_info, list_device, list_chips, list_all, list_devices, device_count_in, request_count,
}

-- The interface has been claimed and not been released since.
abbrev pub is_claimed : History → Bool
is_claimed [] = false
is_claimed (claim n ∷ log) = true
is_claimed (release n ∷ log) = false
is_claimed (_ ∷ log) = is_claimed log

-- A programmer that says how many chips it has, and of which none can be listed. libusb.h: the release
-- of an interface that is not claimed gives an error.
pub record IsUnlisted (env : HostEnv) (counts : List ℕ) (error : ℕ) : Type 0 where
  pub opens : (log : History) → env.opens log ≡ true
  pub claims : (log : History) → env.on_claim log 0 ≡ 0
  pub releases : (log : History) → env.on_release log 0 ≡ (if is_claimed log then 0 else error)
  pub refuses : 0 < error
  pub counted :
      (log : History) → env.on_control log (transfer_of count_devices 0) ≡ (some 3, counts)
  pub fails :
      (log : History) (number : ℕ) (bus : FlashBus)
      → (env.on_control log (transfer_of (list_chip number bus) 0)).0 ≡ none

-- How listing ends by the number of chips that cannot be listed.
abbrev pub listing_end : ℕ → Ended ℕ
listing_end zero = returned 0
listing_end (suc zero) = returned 1
listing_end (suc (suc n)) = raised nested_exception

-- How the loops over the chips end, and whether the interface is still claimed.
abbrev chips_end : ℕ → Ended (Unit {0}) × Bool
chips_end zero = (returned tt, true)
chips_end (suc zero) = (returned tt, false)
chips_end (suc (suc n)) = (raised nested_exception, false)

module _ (env : HostEnv) (counts : List ℕ) (error : ℕ) (h : IsUnlisted env counts error) where
  -- The first chip costs the interface.
  list_device_fails :
      (chip : Chip) (log : History)
      → is_claimed log ≡ true
      → list_device env chip log ≡ (
        returned false,
        release 0 ∷ control (transfer_of (list_chip chip.index chip.bus) 0) ∷ log,
      )
  unfolding list_device read_chip_info ask control_transfer release_interface
  list_device_fails chip log claimed = ground (
    arith,
    h.fails log chip.index chip.bus,
    h.releases (control (transfer_of (list_chip chip.index chip.bus) 0) ∷ log),
    claimed,
  )

  -- The next one ends the program.
  list_device_escapes :
      (chip : Chip) (log : History)
      → is_claimed log ≡ false
      → list_device env chip log ≡ (
        raised nested_exception,
        release 0 ∷ control (transfer_of (list_chip chip.index chip.bus) 0) ∷ log,
      )
  unfolding list_device read_chip_info ask control_transfer release_interface
  list_device_escapes chip log lost = ground (
    arith,
    h.fails log chip.index chip.bus,
    h.releases (control (transfer_of (list_chip chip.index chip.bus) 0) ∷ log),
    lost,
    h.refuses,
  )

  list_chips_escapes :
      (bus : FlashBus) (n index : ℕ) (log : History)
      → is_claimed log ≡ false
      → (end : History) × (list_chips env bus (suc n) index log ≡ (raised nested_exception, end))
        × (is_claimed end ≡ false)
  unfolding list_chips
  list_chips_escapes bus n index log lost =
      let one = list_device_escapes (record { bus = bus; index = index }) log lost in
      (release 0 ∷ control (transfer_of (list_chip index bus) 0) ∷ log, ground (arith, one), refl)

  list_chips_end :
      (bus : FlashBus) (n index : ℕ) (log : History)
      → is_claimed log ≡ true
      → (end : History) × (list_chips env bus n index log ≡ ((chips_end n).0, end))
        × (is_claimed end ≡ (chips_end n).1)
  unfolding list_chips
  list_chips_end bus zero index log claimed = (log, refl, claimed)
  list_chips_end bus (suc zero) index log claimed =
      let one = list_device_fails (record { bus = bus; index = index }) log claimed in
      (release 0 ∷ control (transfer_of (list_chip index bus) 0) ∷ log, ground (arith, one), refl)
  list_chips_end bus (suc (suc n)) index log claimed =
      let one = list_device_fails (record { bus = bus; index = index }) log claimed in
      let (end, run, lost) =
        list_chips_escapes bus n (index + 1)
          (release 0 ∷ control (transfer_of (list_chip index bus) 0) ∷ log) refl in
      (end, ground (arith, one, run), lost)

  none_listed : (log : History) → list_chips env external 0 0 log ≡ (returned tt, log)
  unfolding list_chips
  none_listed log = refl

  both_end :
      (i e : ℕ) (log : History)
      → is_claimed log ≡ true
      → (end : History) × ((list_chips env internal i 0 >> list_chips env external e 0) log
          ≡ ((chips_end (i + e)).0, end))
        × (is_claimed end ≡ (chips_end (i + e)).1)
  both_end zero e log claimed =
      let sum : 0 + e ≡ e = omega arith in
      let (middle, first, kept) = list_chips_end internal zero 0 log claimed in
      let (end, run, state) = list_chips_end external e 0 middle kept in
      (end, rw sum (ground (arith, first, run)), rw sum state)
  both_end (suc zero) zero log claimed =
      let sum : 1 + 0 ≡ 1 = omega arith in
      let (middle, first, lost) = list_chips_end internal 1 0 log claimed in
      (middle, rw sum (ground (arith, first, none_listed middle)), rw sum lost)
  both_end (suc zero) (suc e) log claimed =
      let sum : 1 + suc e ≡ suc (suc e) = omega arith in
      let (middle, first, lost) = list_chips_end internal 1 0 log claimed in
      let (end, run, still) = list_chips_escapes external e 0 middle lost in
      (end, rw sum (ground (arith, first, run)), rw sum still)
  both_end (suc (suc i)) e log claimed =
      let sum : suc (suc i) + e ≡ suc (suc (i + e)) = omega arith in
      let (end, first, lost) = list_chips_end internal (suc (suc i)) 0 log claimed in
      (end, rw sum (ground (arith, first)), rw sum lost)

  counted_lem :
      (log : History)
      → request_count env log
        ≡ (returned (device_count_in counts), control (transfer_of count_devices 0) ∷ log)
  unfolding request_count ask control_transfer transfer_of read_control
  counted_lem log = ground (arith, h.counted log)

  list_all_end :
      (log : History)
      → is_claimed log ≡ true
      → (end : History) × (list_all env log ≡ (
        (chips_end
            ((device_count_in counts).internal_count + (device_count_in counts).external_count)).0,
        end,
      ))
        × (is_claimed end
            ≡ (chips_end (
                (device_count_in counts).internal_count
                + (device_count_in counts).external_count)).1)
  unfolding list_all
  list_all_end log claimed =
      let c = device_count_in counts in
      let asked : History = control (transfer_of count_devices 0) ∷ log in
      let (end, run, state) = both_end c.internal_count c.external_count asked claimed in
      (end, ground (arith, counted_lem log, run), state)

  -- The interface is released at the end, if it is still there.
  session_end :
      (n : ℕ) (log end : History)
      → list_all env (claim 0 ∷ log) ≡ ((chips_end n).0, end)
      → is_claimed end ≡ (chips_end n).1
      → (last : History) × (list_devices env log ≡ (listing_end n, last))
  unfolding list_devices with_device open_and_claim claim_interface release_with release_interface
  session_end zero log end run claimed =
      (release 0 ∷ end, ground (arith, h.opens log, h.claims log, run, h.releases end, claimed))
  session_end (suc zero) log end run lost = (
    release 0 ∷ end,
    ground (arith, h.opens log, h.claims log, run, h.releases end, lost, h.refuses),
  )
  session_end (suc (suc n)) log end run lost = (end, ground (arith, h.opens log, h.claims log, run))

  -- A programmer says how many chips it has, and none of them can be listed. libusb refuses to release an
  -- interface that is not claimed. With no chips listing returns 0. The first chip that cannot be
  -- listed costs the interface: with one chip listing returns 1, and with more an exception leaves
  -- it that nothing catches.
  pub list_devices_unlisted :
      (log : History)
      → (end : History) × (list_devices env log ≡ (
        listing_end
            ((device_count_in counts).internal_count + (device_count_in counts).external_count),
        end,
      ))
  list_devices_unlisted log =
      let c = device_count_in counts in
      let (end, run, state) = list_all_end (claim 0 ∷ log) refl in
      session_end (c.internal_count + c.external_count) log end run state
