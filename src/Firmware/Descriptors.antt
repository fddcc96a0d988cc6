-- ===== src/Firmware/Descriptors.antt =====
-- firmware/usb/descriptors.cxx: what the device tells the host of itself. The sizes of the structures
-- are the USB library's, and parameters; its counts are those that firmware/meson.build sets.
pub mod WellFormed
pub mod Registered
use Prim.Native.String.{String}
use Prim.Native.String.{String}
use spiflash_programmer.Prelude.{ℕ, ◌+◌, List, [], ◌∷◌}
use spiflash_programmer.Protocol.Transport.{Direction, controller_out, controller_in}

-- `sizeof` of the structures.
pub record Sizes : Type 0 where
  pub device : ℕ
  pub config : ℕ
  pub interface : ℕ
  pub endpoint : ℕ
  pub functional : ℕ

pub data DescriptorType : Type 0 where
  device configuration interface endpoint functional : DescriptorType

pub data UsbClass : Type 0 where
  none vendor application : UsbClass

pub data Subclass : Type 0 where
  none dfu : Subclass

pub data UsbProtocol : Type 0 where
  none flashprog runtime : UsbProtocol

pub data EndpointType : Type 0 where
  interrupt bulk : EndpointType

pub record DeviceDescriptor : Type 0 where
  pub length : ℕ
  pub type : DescriptorType
  pub usb_version : ℕ
  pub device_class : UsbClass
  pub subclass : Subclass
  pub protocol : UsbProtocol
  pub max_packet_size : ℕ
  pub vendor_id : ℕ
  pub product_id : ℕ
  pub device_version : ℕ
  pub manufacturer_string : ℕ
  pub product_string : ℕ
  pub serial_string : ℕ
  pub configurations : ℕ

-- The attributes are the library's `defaults`, and are left out.
pub record ConfigDescriptor : Type 0 where
  pub length : ℕ
  pub type : DescriptorType
  pub total_length : ℕ
  pub interfaces : ℕ
  pub value : ℕ
  pub string : ℕ
  pub max_power : ℕ

pub record InterfaceDescriptor : Type 0 where
  pub length : ℕ
  pub type : DescriptorType
  pub number : ℕ
  pub alternate : ℕ
  pub endpoints : ℕ
  pub interface_class : UsbClass
  pub subclass : Subclass
  pub protocol : UsbProtocol
  pub string : ℕ

pub record EndpointDescriptor : Type 0 where
  pub length : ℕ
  pub type : DescriptorType
  pub address : Direction × ℕ
  pub endpoint_type : EndpointType
  pub max_packet_size : ℕ
  pub interval : ℕ

-- The flags of what the firmware can do in its upgrade are left out.
pub record FunctionalDescriptor : Type 0 where
  pub length : ℕ
  pub type : DescriptorType
  pub detach_timeout : ℕ
  pub transfer_size : ℕ
  pub dfu_version : ℕ

abbrev pub ep_buffer_size : ℕ
ep_buffer_size = 64

abbrev pub configs_count : ℕ
configs_count = 1

abbrev pub interface_count : ℕ
interface_count = 2

-- What a part of the configuration points at.
pub data Part : Type 0 where
  config_part : ConfigDescriptor → Part
  interface_part : InterfaceDescriptor → Part
  endpoint_part : EndpointDescriptor → Part
  functional_part : FunctionalDescriptor → Part

-- `usbMultiPartDesc_t`: how many bytes to send, and of what.
abbrev pub MultiPart : Type 0
MultiPart = ℕ × Part

module _ (sizes : Sizes) where
  unfoldable pub device_descriptor : DeviceDescriptor
  device_descriptor = record {
    length = sizes.device;
    type = DescriptorType.device;
    usb_version = 0x0200;
    device_class = UsbClass.none;
    subclass = Subclass.none;
    protocol = UsbProtocol.none;
    max_packet_size = ep_buffer_size;
    vendor_id = 0x1209;
    product_id = 0xab0c;
    device_version = 0x0001;
    manufacturer_string = 1;
    product_string = 2;
    serial_string = 0;
    configurations = configs_count;
  }

  unfoldable pub config_descriptor : ConfigDescriptor
  config_descriptor = record {
    length = sizes.config;
    type = DescriptorType.configuration;
    total_length =
        sizes.config + sizes.interface + sizes.endpoint + sizes.endpoint + sizes.interface
        + sizes.functional;
    interfaces = interface_count;
    value = 1;
    string = 0;
    max_power = 50;
  }

  unfoldable pub flash_interface : InterfaceDescriptor
  flash_interface = record {
    length = sizes.interface;
    type = DescriptorType.interface;
    number = 0;
    alternate = 0;
    endpoints = 2;
    interface_class = vendor;
    subclass = Subclass.none;
    protocol = flashprog;
    string = 4;
  }

  unfoldable pub dfu_interface : InterfaceDescriptor
  dfu_interface = record {
    length = sizes.interface;
    type = DescriptorType.interface;
    number = 1;
    alternate = 0;
    endpoints = 0;
    interface_class = application;
    subclass = dfu;
    protocol = runtime;
    string = 5;
  }

  unfoldable pub out_endpoint : EndpointDescriptor
  out_endpoint = record {
    length = sizes.endpoint;
    type = DescriptorType.endpoint;
    address = (controller_out, 1);
    endpoint_type = interrupt;
    max_packet_size = ep_buffer_size;
    interval = 1;
  }

  unfoldable pub in_endpoint : EndpointDescriptor
  in_endpoint = record {
    length = sizes.endpoint;
    type = DescriptorType.endpoint;
    address = (controller_in, 1);
    endpoint_type = bulk;
    max_packet_size = ep_buffer_size;
    interval = 1;
  }

  unfoldable pub dfu_functional : FunctionalDescriptor
  dfu_functional = record {
    length = sizes.functional;
    type = DescriptorType.functional;
    detach_timeout = 1000;
    transfer_size = ep_buffer_size;
    dfu_version = 0x0110;
  }

  -- `configSecs`.
  unfoldable pub config_sections : List MultiPart
  unfolding config_descriptor flash_interface dfu_interface out_endpoint in_endpoint dfu_functional
  config_sections =
      (sizes.config, config_part config_descriptor)
      ∷ (sizes.interface, interface_part flash_interface)
      ∷ (sizes.endpoint, endpoint_part out_endpoint)
      ∷ (sizes.endpoint, endpoint_part in_endpoint)
      ∷ (sizes.interface, interface_part dfu_interface)
      ∷ (sizes.functional, functional_part dfu_functional)
      ∷ []

-- `stringDescs`: a text and how many of its characters are sent.
unfoldable pub string_descriptors : List (String × ℕ)
string_descriptors =
    ("bad_alloc Heavy Industries", 26)
    ∷ ("SPIFlashProgrammer rev 2", 24)
    ∷ ("", 0)
    ∷ ("Flash access interface", 22)
    ∷ ("SPIFlashProgrammer Firmware Upgrade interface", 45)
    ∷ []
