-- ===== src/Host/Handles.antt =====
-- Who owns the objects of libusb: software/include/usbContext.hxx, usbDeviceList.hxx and the
-- `usbDevice_t` of usbDevice.hxx, as `main` of software/flashprog.cxx uses them. A device of libusb is
-- its address, as a number. What libusb answers is a parameter.
pub mod Owned
use spiflash_programmer.Prelude.{
  ℕ, ◌+◌, Bool, true, false, List, [], ◌∷◌, ◌++◌, Option, none, some, length, ◌==◌, if◌then◌else◌,
}
use spiflash_programmer.Host.Program.{UsbId, is_programmer}

-- The calls of libusb that concern its devices and its lists. A log lists them newest first.
pub data UsbCall : Type 0 where
  -- `libusb_init`, which succeeded, and `libusb_exit`.
  init exit : UsbCall
  -- The devices that a list has been filled with, and whether they are released with it.
  get_list : List ℕ → UsbCall
  free_list : List ℕ → Bool → UsbCall
  ref unref get_descriptor get_bus_number get_port_number : ℕ → UsbCall
  -- Whether it succeeded.
  open_device : ℕ → Bool → UsbCall
  set_auto_detach : ℕ → Bool → UsbCall

abbrev pub Log : Type 0
Log = List UsbCall

-- `none` is an error code.
pub record Libusb : Type 0 where
  pub starts : Bool
  pub devices : Option (List ℕ)
  pub descriptor_of : ℕ → Option UsbId
  pub opens : ℕ → Option ℕ

-- `usbDevice_t`, with `idVendor` and `idProduct` of its descriptor.
pub record UsbDevice : Type 0 where
  pub device : Option ℕ
  pub descriptor : UsbId

abbrev no_device : UsbDevice
no_device = record { device = none; descriptor = (0, 0) }

abbrev or_zeros : Option UsbId → UsbId
or_zeros none = (0, 0)
or_zeros (some id) = id

unfoldable pub destroy : UsbDevice → Log → Log
destroy device log = elim device.device [ none ↦ log | some d ↦ unref d ∷ log ]

-- `std::swap` of the two fields.
unfoldable pub swap : UsbDevice → UsbDevice → UsbDevice × UsbDevice
swap a b = (b, a)

-- The move constructor: the new device, and what is left in the other one.
unfoldable pub move : UsbDevice → UsbDevice × UsbDevice
unfolding swap
move other = swap no_device other

-- The vector's destructor.
unfoldable pub destroy_all : List UsbDevice → Log → Log
unfolding destroy
destroy_all [] log = log
destroy_all (device ∷ devices) log = destroy_all devices (destroy device log)

-- `usbDeviceList_t`'s destructor, which looks at the count.
unfoldable pub destroy_list : List ℕ → Log → Log
destroy_list list log = if length list == 0 then log else free_list list false ∷ log

module _ (usb : Libusb) where
  -- `usbDevice_t(libusb_device *)`.
  unfoldable pub usb_device : ℕ → Log → UsbDevice × Log
  usb_device d log = (
    record { device = some d; descriptor = or_zeros (usb.descriptor_of d) },
    get_descriptor d ∷ ref d ∷ log,
  )

  -- `deviceList`: an error gives an empty list.
  unfoldable pub device_list : Log → List ℕ × Log
  device_list log = elim usb.devices [ none ↦ ([], log) | some ds ↦ (ds, get_list ds ∷ log) ]

  -- One round of the loop over the list: a programmer's bus and port are asked for, and it moves to the
  -- end of the vector, and what is left
  -- in the loop's variable is destroyed.
  unfoldable pub scan_step : ℕ → List UsbDevice → Log → List UsbDevice × Log
  unfolding usb_device move destroy
  scan_step d found log =
      let (device, log') = usb_device d log in
      if is_programmer device.descriptor
      then (
        found ++ (move device).0 ∷ [],
        destroy (move device).1 (get_port_number d ∷ get_bus_number d ∷ log'),
      )
      else (found, destroy device log')

  unfoldable pub scan : List ℕ → List UsbDevice → Log → List UsbDevice × Log
  scan [] found log = (found, log)
  scan (d ∷ ds) found log = let (found', log') = scan_step d found log in scan ds found' log'

  -- `open`: the handle's constructor asks for the kernel's driver to be detached.
  unfoldable pub open_handle : UsbDevice → Log → Log
  open_handle device log = elim device.device [
    | none ↦ log
    | some d ↦ elim (usb.opens d) [
      | none ↦ open_device d false ∷ log
      | some handle ↦ set_auto_detach handle true ∷ open_device d true ∷ log
    ]
  ]

  -- An operation on the only programmer. `operates` says whether the action is one that opens it.
  unfoldable pub operate : Bool → List UsbDevice → Log → Log
  operate true (device ∷ []) log = open_handle device log
  operate _ found log = log

  -- `main` from the context on, and the destructors at its end: the list's after the loop, and then
  -- those of the vector and the context.
  unfoldable pub main_calls : Bool → Log
  main_calls operates = elim usb.starts [
    | false ↦ []
    | true ↦
        let (list, log) = device_list (init ∷ []) in
        let (found, log') = scan list [] log in
        exit ∷ destroy_all found (operate operates found (destroy_list list log'))
  ]
