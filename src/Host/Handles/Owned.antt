-- ===== src/Host/Handles/Owned.antt =====
-- What libusb's documentation asks of its callers, and the references that the host's program holds.
use spiflash_programmer.Prelude.{
  ℕ, ◌+◌, ◌-◌, ◌≤◌, ◌<◌, ◌≡◌, refl, Bool, true, false, ◌&&◌, List, [], ◌∷◌, ◌++◌, Option, none,
  some, ltb, ◌==◌, if◌then◌else◌, arith, Bool-cases, inl, inr, Option-cases,
}
use spiflash_programmer.Host.Program.{UsbId, is_programmer}
use spiflash_programmer.Host.Handles.{
  init, exit, get_list, free_list, ref, unref, get_descriptor, get_bus_number, get_port_number,
  open_device, Log, Libusb, UsbDevice, destroy, destroy_all, destroy_list, usb_device, device_list,
  scan_step, scan, open_handle, operate, main_calls,
}

-- How often a device stands in a list.
abbrev pub occurrences : ℕ → List ℕ → ℕ
occurrences d [] = 0
occurrences d (e ∷ es) = (if e == d then 1 else 0) + occurrences d es

-- libusb.h: a list holds a reference to each of its devices, which `libusb_free_device_list` gives up
-- if it is asked to; `libusb_ref_device` adds one, and `libusb_unref_device` takes one away.
-- `libusb_open` adds one that the handle holds until it is closed.
abbrev pub held : ℕ → Log → ℕ
held d [] = 0
held d (get_list es ∷ log) = held d log + occurrences d es
held d (free_list es true ∷ log) = held d log - occurrences d es
held d (ref e ∷ log) = held d log + (if e == d then 1 else 0)
held d (unref e ∷ log) = held d log - (if e == d then 1 else 0)
held d (open_device e true ∷ log) = held d log + (if e == d then 1 else 0)
held d (_ ∷ log) = held d log

-- How many handles of a device have been opened.
abbrev pub opened : ℕ → Log → ℕ
opened d [] = 0
opened d (open_device e true ∷ log) = opened d log + (if e == d then 1 else 0)
opened d (_ ∷ log) = opened d log

-- libusb has been started and not been ended.
abbrev pub is_running : Log → Bool
is_running [] = false
is_running (init ∷ log) = true
is_running (exit ∷ log) = false
is_running (_ ∷ log) = is_running log

-- A device may be used while libusb runs and there is a reference to it.
abbrev pub is_alive : ℕ → Log → Bool
is_alive d log = is_running log && ltb 0 (held d log)

-- Every call was made on a device that is alive, or while libusb runs. Handles that are still open at
-- the end are counted by `opened`.
abbrev pub is_safe : Log → Bool
is_safe [] = true
is_safe (ref d ∷ log) = is_alive d log && is_safe log
is_safe (unref d ∷ log) = is_alive d log && is_safe log
is_safe (get_descriptor d ∷ log) = is_alive d log && is_safe log
is_safe (get_bus_number d ∷ log) = is_alive d log && is_safe log
is_safe (get_port_number d ∷ log) = is_alive d log && is_safe log
is_safe (open_device d worked ∷ log) = is_alive d log && is_safe log
is_safe (get_list es ∷ log) = is_running log && is_safe log
is_safe (free_list es b ∷ log) = is_running log && is_safe log
is_safe (exit ∷ log) = is_running log && is_safe log
is_safe (_ ∷ log) = is_safe log

abbrev owns : ℕ → Option ℕ → ℕ
owns d none = 0
owns d (some e) = if e == d then 1 else 0

-- How many of the objects refer to a device.
abbrev owners : ℕ → List UsbDevice → ℕ
owners d [] = 0
owners d (x ∷ xs) = owns d x.device + owners d xs

owners-append : (d : ℕ) (xs ys : List UsbDevice) → owners d (xs ++ ys) ≡ owners d xs + owners d ys
owners-append d [] ys = omega arith
owners-append d (x ∷ xs) ys = omega (arith, owners-append d xs ys)

-- The program's own objects hold one reference each, besides those of the list.
record IsOwned (list : List ℕ) (found : List UsbDevice) (log : Log) : Type 0 where
  count : (d : ℕ) → held d log ≡ occurrences d list + owners d found + opened d log
  running : is_running log ≡ true
  safe : is_safe log ≡ true

new_reference-IsOwned :
    (list : List ℕ) (d : ℕ) (id : UsbId) (found : List UsbDevice) (log : Log)
    → 0 < occurrences d list
    → IsOwned list found log
    → IsOwned list
        (found ++ record { device = some d; descriptor = id } ∷ [])
        (get_port_number d ∷ get_bus_number d ∷ get_descriptor d ∷ ref d ∷ log)
new_reference-IsOwned list d id found log listed h = record {
  count = λ e.
      omega (
        arith,
        h.count e,
        owners-append e found (record { device = some d; descriptor = id } ∷ []),
      );
  running = h.running;
  safe = ground (arith, h.count d, h.running, h.safe);
}

dropped_reference-IsOwned :
    (list : List ℕ) (d : ℕ) (found : List UsbDevice) (log : Log)
    → 0 < occurrences d list
    → IsOwned list found log
    → IsOwned list found (unref d ∷ get_descriptor d ∷ ref d ∷ log)
dropped_reference-IsOwned list d found log listed h = record {
  count = λ e. ground (arith, h.count e);
  running = h.running;
  safe = ground (arith, h.count d, h.running, h.safe);
}

-- Destroying an object gives its reference back.
destroy-IsOwned :
    (list : List ℕ) (o : Option ℕ) (id : UsbId) (found : List UsbDevice) (log : Log)
    → IsOwned list (record { device = o; descriptor = id } ∷ found) log
    → IsOwned list found (destroy (record { device = o; descriptor = id }) log)
unfolding destroy
destroy-IsOwned list none id found log h = record {
  count = λ e. omega (arith, h.count e);
  running = h.running;
  safe = h.safe;
}
destroy-IsOwned list (some d) id found log h = record {
  count = λ e. omega (arith, h.count e);
  running = h.running;
  safe = ground (arith, h.count d, h.running, h.safe);
}

destroy_all-IsOwned :
    (list : List ℕ) (found : List UsbDevice) (log : Log)
    → IsOwned list found log
    → IsOwned list [] (destroy_all found log)
unfolding destroy_all
destroy_all-IsOwned list [] log h = h
destroy_all-IsOwned list (x ∷ found) log h =
    destroy_all-IsOwned list found (destroy x log)
      (destroy-IsOwned list x.device x.descriptor found log h)

destroy_list-IsOwned :
    (list : List ℕ) (found : List UsbDevice) (log : Log)
    → IsOwned list found log
    → IsOwned list found (destroy_list list log)
unfolding destroy_list
destroy_list-IsOwned [] found log h = h
destroy_list-IsOwned (d ∷ list) found log h =
    let e : destroy_list (d ∷ list) log ≡ free_list (d ∷ list) false ∷ log = ground arith in
    rw e (record { count = h.count; running = h.running; safe = ground (arith, h.running, h.safe) })

module _ (usb : Libusb) where
  scan_step-IsOwned :
      (list : List ℕ) (d : ℕ) (found : List UsbDevice) (log : Log)
      → 0 < occurrences d list
      → IsOwned list found log
      → IsOwned list (scan_step usb d found log).0 (scan_step usb d found log).1
  unfolding scan_step
  scan_step-IsOwned list d found log listed h =
      let id : UsbId = (usb_device usb d log).0.descriptor in
      elim (Bool-cases (is_programmer id)) [
        | inl ours ↦ rw ours (new_reference-IsOwned list d id found log listed h)
        | inr other ↦ rw other (dropped_reference-IsOwned list d found log listed h)
      ]

  scan-IsOwned :
      (list ds : List ℕ) (found : List UsbDevice) (log : Log)
      → ((d : ℕ) → occurrences d ds ≤ occurrences d list)
      → IsOwned list found log
      → IsOwned list (scan usb ds found log).0 (scan usb ds found log).1
  unfolding scan
  scan-IsOwned list [] found log within h = h
  scan-IsOwned list (d ∷ ds) found log within h =
      scan-IsOwned list ds (scan_step usb d found log).0 (scan_step usb d found log).1
        (λ e. omega (arith, within e))
        (scan_step-IsOwned list d found log (ground (arith, within d)) h)

  -- The device that an operation opens is one that the program owns.
  open_handle-IsOwned :
      (list : List ℕ) (o : Option ℕ) (id : UsbId) (log : Log)
      → IsOwned list (record { device = o; descriptor = id } ∷ []) log
      → IsOwned list
          (record { device = o; descriptor = id } ∷ [])
          (open_handle usb (record { device = o; descriptor = id }) log)
  unfolding open_handle
  open_handle-IsOwned list none id log h = h
  open_handle-IsOwned list (some d) id log h = elim (Option-cases (usb.opens d)) [
    | inl fails ↦
        rw (fails, open_handle)
          (record {
            count = h.count;
            running = h.running;
            safe = ground (arith, h.count d, h.running, h.safe);
          })
    | inr (handle, works) ↦
        rw (works, open_handle)
          (record {
            count = λ e. omega (arith, h.count e);
            running = h.running;
            safe = ground (arith, h.count d, h.running, h.safe);
          })
  ]

  operate-IsOwned :
      (operates : Bool) (list : List ℕ) (found : List UsbDevice) (log : Log)
      → IsOwned list found log
      → IsOwned list found (operate usb operates found log)
  unfolding operate
  operate-IsOwned true list (x ∷ []) log h = open_handle-IsOwned list x.device x.descriptor log h
  operate-IsOwned true list [] log h = h
  operate-IsOwned true list (x ∷ y ∷ found) log h = h
  operate-IsOwned false list found log h = h

  -- What `deviceList` gives is a list that nothing of the program's refers to yet.
  device_list-IsOwned : IsOwned (device_list usb (init ∷ [])).0 [] (device_list usb (init ∷ [])).1
  unfolding device_list
  device_list-IsOwned = elim (Option-cases usb.devices) [
    | inl fails ↦ rw fails (record { count = λ e. refl; running = refl; safe = refl })
    | inr (ds, works) ↦ rw works (record { count = λ e. omega arith; running = refl; safe = refl })
  ]

  -- Whatever libusb answers, every call of `main` on a device is made while it is still referred to, and
  -- every such call and every one on a list while libusb runs. The program's own objects give all their
  -- references back: what remains at its end is exactly one for each time that a device was in the
  -- list, since the list is freed without releasing its devices, and one for each handle that was
  -- opened, since none is closed.
  pub main_calls_safe :
      (operates : Bool)
      → usb.starts ≡ true
      → (is_safe (main_calls usb operates) ≡ true)
        × ((d : ℕ)
            → held d (main_calls usb operates)
              ≡ occurrences d (device_list usb (init ∷ [])).0 + opened d (main_calls usb operates))
  unfolding main_calls
  main_calls_safe operates starts =
      let (list, log) = device_list usb (init ∷ []) in
      let (found, log') = scan usb list [] log in
      let h1 = scan-IsOwned list list [] log (λ d. omega arith) device_list-IsOwned in
      let h2 =
        operate-IsOwned operates list found (destroy_list list log')
          (destroy_list-IsOwned list found log' h1) in
      let h3 = destroy_all-IsOwned list found _ h2 in
      let e : main_calls usb operates
          ≡ exit ∷ destroy_all found (operate usb operates found (destroy_list list log')) =
        ground (arith, starts) in
      rw e (ground (arith, h3.running, h3.safe), λ d. omega (arith, h3.count d))
