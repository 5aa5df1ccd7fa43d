-- ===== src/Usb.antt =====
-- kernel/src/usb: the types of the USB host core (usb.h, usb_protocol.h). A descriptor, which is a
-- packed struct, is the list of its bytes; a list of list.h is the sequence of its entries. The
-- interface's parent_dev is the device that holds it.
pub mod Descriptors
pub mod Drivers
pub mod Requests
pub mod Enumeration
pub mod Stream
pub mod Layout
pub mod Kept
pub mod Block
pub mod Tree
pub mod Forest
pub mod Parsing
pub mod Printed
pub mod RoundTrip
pub mod Order
pub mod Enumerated
pub mod Addresses
pub mod Matching
pub mod Tests
use operating_system_cortex.Base.{ℕ, ◌+◌, ◌*◌, ◌/◌, ◌%◌, ◌^◌, List, [], u8, get_or}
use operating_system_cortex.Dlist.{Ptr}

-- `u8*` buffers, by the offsets of their bytes.
abbrev pub Buffer : Type 0
Buffer = ℕ → ℕ

abbrev pub load_half_word : List ℕ → (offset : ℕ) → ℕ
load_half_word d offset = get_or d offset 0 + get_or d (offset + 1) 0 * 2 ^ 8

-- `struct usb_setup_desc`; the value is a union with the index and the type of a descriptor.
pub record UsbSetupDesc : Type 0 where
  pub bm_request_type : ℕ
  pub b_request : ℕ
  pub w_value : ℕ
  pub w_index : ℕ
  pub w_length : ℕ

unfoldable pub b_descriptor_index : UsbSetupDesc → ℕ
b_descriptor_index s = s.w_value % 2 ^ 8

unfoldable pub set_descriptor : (type index : ℕ) → UsbSetupDesc → UsbSetupDesc
set_descriptor type index s = record s { w_value = u8 index + u8 type * 2 ^ 8 }

abbrev pub usb_host_to_device : ℕ
usb_host_to_device = 0x00

abbrev pub usb_device_to_host : ℕ
usb_device_to_host = 0x80

abbrev pub usb_req_get_descriptor : ℕ
usb_req_get_descriptor = 0x06

abbrev pub usb_req_set_address : ℕ
usb_req_set_address = 0x05

abbrev pub usb_desc_device : ℕ
usb_desc_device = 0x01

abbrev pub usb_desc_config : ℕ
usb_desc_config = 0x02

abbrev pub usb_desc_string : ℕ
usb_desc_string = 0x03

abbrev pub usb_desc_iface : ℕ
usb_desc_iface = 0x04

abbrev pub usb_desc_ep : ℕ
usb_desc_ep = 0x05

abbrev pub usb_string_offset : ℕ
usb_string_offset = 2

-- fields of `struct usb_dev_desc`
unfoldable pub b_device_class : List ℕ → ℕ
b_device_class d = get_or d 4 0

unfoldable pub b_device_sub_class : List ℕ → ℕ
b_device_sub_class d = get_or d 5 0

unfoldable pub b_device_protocol : List ℕ → ℕ
b_device_protocol d = get_or d 6 0

unfoldable pub id_vendor : List ℕ → ℕ
id_vendor d = load_half_word d 8

unfoldable pub id_product : List ℕ → ℕ
id_product d = load_half_word d 10

unfoldable pub i_manufacturer : List ℕ → ℕ
i_manufacturer d = get_or d 14 0

unfoldable pub i_product : List ℕ → ℕ
i_product d = get_or d 15 0

-- fields of `struct usb_iface_desc`
unfoldable pub b_interface_class : List ℕ → ℕ
b_interface_class d = get_or d 5 0

unfoldable pub b_interface_sub_class : List ℕ → ℕ
b_interface_sub_class d = get_or d 6 0

unfoldable pub b_interface_protocol : List ℕ → ℕ
b_interface_protocol d = get_or d 7 0

pub record UsbEp : Type 0 where
  pub desc : List ℕ
  pub pipe : Ptr

pub record UsbIface : Type 0 where
  pub desc : List ℕ
  pub eps : Ptr
  pub num_eps : ℕ
  pub driver : Ptr
  pub assigned : ℕ

pub record UsbConfig : Type 0 where
  pub desc : List ℕ
  pub ifaces : Ptr
  pub num_ifaces : ℕ
  pub curr_iface : Ptr

-- The objects in the block behind `configs`, by their addresses. They are bytes of one block, where
-- Usb/Block has them apart, so a store to one leaves the others.
pub record Objects : Type 0 where
  pub config_at : Ptr → UsbConfig
  pub iface_at : Ptr → UsbIface
  pub ep_at : Ptr → UsbEp

pub record UsbDev : Type 0 where
  pub desc : List ℕ
  pub desc_total_size : ℕ
  pub configs : Ptr
  pub num_configs : ℕ
  pub objects : Objects
  pub pipes : List Ptr
  pub pipe_bm : ℕ
  pub iface_list : List Ptr
  pub address : ℕ
  pub ep0_size : ℕ
  pub product : List ℕ
  pub manufacturer : List ℕ

pub record UsbDevId : Type 0 where
  pub flags : ℕ
  pub vendor_id : ℕ
  pub product_id : ℕ
  pub dev_class : ℕ
  pub dev_sub_class : ℕ
  pub dev_protocol : ℕ
  pub iface_class : ℕ
  pub iface_sub_class : ℕ
  pub iface_protocol : ℕ

-- `connect` is the answer of the driver's function.
pub record UsbDriver : Type 0 where
  pub connect : UsbIface → ℕ
  pub dev_ids : List UsbDevId

pub data UsbEnumState : Type 0 where
  idle : UsbEnumState
  get_ep0_size : UsbEnumState
  get_dev_desc : UsbEnumState
  set_address : UsbEnumState
  get_desc_length : UsbEnumState
  get_descriptors : UsbEnumState
  get_product_name : UsbEnumState
  get_manufacturer_name : UsbEnumState
