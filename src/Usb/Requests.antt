-- ===== src/Usb/Requests.antt =====
-- kernel/src/usb/usb.c: the state of the USB host core, and the requests that it submits. The
-- enumeration uses one URB, whose buffers are the static `setup` and `enum_buffer`; what is asked of
-- the host controller (drivers/usbhc.c, usbhw.c) is a list of calls.
use operating_system_cortex.Base.{
  Option, ℕ, zero, suc, Bool, true, not, if◌then◌else◌, List, [], ◌∷◌, Cmd, ok, fault, ◌>>=◌, ◌>>◌,
  u16, test_bit, set_bit, clear_bit,
}
use operating_system_cortex.Usb.{
  Buffer, UsbSetupDesc, set_descriptor, usb_host_to_device, usb_device_to_host,
  usb_req_get_descriptor, usb_req_set_address, usb_desc_device, usb_desc_config, usb_desc_string,
  UsbDev, UsbDriver, UsbEnumState,
}

pub data UrbStatus : Type 0 where
  ok_status : UrbStatus
  error : UrbStatus
  stall : UrbStatus
  nak : UrbStatus
  abort : UrbStatus

-- `struct urb`, without its queue node and its callback
pub record Urb : Type 0 where
  pub setup_phase : Bool
  pub transfer_length : ℕ
  pub acctual_length : ℕ
  pub status : UrbStatus

-- A call out of the core; those of the host controller are about pipe 0.
pub data HostCall : Type 0 where
  send_reset : HostCall
  -- with the size of the packets
  pipe_configure : ℕ → HostCall
  alloc_urb : HostCall
  -- with what the setup packet and the length of the transfer are
  submit_urb : UsbSetupDesc → ℕ → HostCall
  set_pipe_address : ℕ → HostCall
  set_ep_size : ℕ → HostCall
  pipe_disable : HostCall
  -- the state of the pipe is set to claimed
  pipe_claim : HostCall
  -- the drivers that are asked to connect, and answer with other than 0
  assigned : List (Option UsbDriver) → HostCall

-- `struct usb_core` with the static buffers; `enum_dev` is the first device of `dev_list`. The last
-- call is the first of `calls`. `enum_buffer` has USB_ENUM_BUFFER_SIZE bytes, and `behind` are the
-- bytes of memory from its address on that a read behind its end gives.
pub record UsbCore : Type 0 where
  pub enum_state : UsbEnumState
  pub dev_list : List UsbDev
  pub dev_addr_bm : ℕ
  pub driver_list : List UsbDriver
  pub setup : UsbSetupDesc
  pub enum_buffer : List ℕ
  pub behind : Buffer
  pub urb : Urb
  pub calls : List HostCall

abbrev pub usb_enum_buffer_size : ℕ
usb_enum_buffer_size = 1024

abbrev pub max_pipes : ℕ
max_pipes = 10

unfoldable pub call : HostCall → Cmd UsbCore (Unit {0})
call c s = ok (tt, record s { calls = c ∷ s.calls })

unfoldable pub usbhc_fill_control_urb : Cmd UsbCore (Unit {0})
usbhc_fill_control_urb s =
    ok (
      tt,
      record s { urb = record s.urb { setup_phase = true; transfer_length = s.setup.w_length } },
    )

-- usbhc_fill_control_urb and usbhc_submit_urb, which every request ends with.
unfoldable pub submit : Cmd UsbCore (Unit {0})
submit = do usbhc_fill_control_urb; λ s. call (submit_urb s.setup s.urb.transfer_length) s

unfoldable pub set_setup : (UsbSetupDesc → UsbSetupDesc) → Cmd UsbCore (Unit {0})
set_setup f s = ok (tt, record s { setup = f s.setup })

-- A setup packet that asks for a descriptor.
unfoldable pub ask_descriptor : (type index lang_id length : ℕ) → UsbSetupDesc → UsbSetupDesc
ask_descriptor type index lang_id length setup = record (set_descriptor type index setup) {
  bm_request_type = usb_device_to_host;
  b_request = usb_req_get_descriptor;
  w_index = lang_id;
  w_length = u16 length;
}

unfoldable pub enum_dev : Cmd UsbCore UsbDev
enum_dev s = elim s.dev_list [ [] ↦ fault | dev ∷ devs ↦ ok (dev, s) ]

unfoldable pub set_enum_dev : UsbDev → Cmd UsbCore (Unit {0})
set_enum_dev dev s = elim s.dev_list [
  | [] ↦ fault
  | old ∷ devs ↦ ok (tt, record s { dev_list = dev ∷ devs })
]

unfoldable pub usbc_get_dev_desc : (full : Bool) → Cmd UsbCore (Unit {0})
usbc_get_dev_desc full = do
  set_setup (ask_descriptor usb_desc_device 0 0 (if full then 18 else 8))
  submit

unfoldable pub usb_get_string_desc : (desc_index lang_id : ℕ) → Cmd UsbCore (Unit {0})
usb_get_string_desc desc_index lang_id = do
  set_setup (ask_descriptor usb_desc_string desc_index lang_id usb_enum_buffer_size)
  submit

-- The loop over the addresses from `i`; `left` counts those up to MAX_PIPES.
unfoldable pub new_address_from : (left i bitmask : ℕ) → ℕ × ℕ
new_address_from zero i bitmask = (0, bitmask)
new_address_from (suc left) i bitmask =
    let rest = new_address_from left (suc i) bitmask in
    if not (test_bit bitmask i) then (i, set_bit bitmask i) else rest

unfoldable pub set_addresses : ℕ × ℕ → Cmd UsbCore ℕ
set_addresses (address, bitmask) s = ok (address, record s { dev_addr_bm = bitmask })

unfoldable pub usbc_new_address : Cmd UsbCore ℕ
usbc_new_address s = set_addresses (new_address_from 9 1 s.dev_addr_bm) s

unfoldable pub usbc_delete_address : (address : ℕ) → Cmd UsbCore (Unit {0})
usbc_delete_address address s = ok (tt, record s { dev_addr_bm = clear_bit s.dev_addr_bm address })

unfoldable pub ask_address : (address : ℕ) → UsbSetupDesc → UsbSetupDesc
ask_address address setup = record setup {
  bm_request_type = usb_host_to_device;
  b_request = usb_req_set_address;
  w_value = address;
  w_index = 0;
  w_length = 0;
}

unfoldable pub usbc_set_dev_addr : Cmd UsbCore (Unit {0})
usbc_set_dev_addr = do address ← usbc_new_address; set_setup (ask_address address); submit

unfoldable pub usbc_get_cfg_desc : Cmd UsbCore (Unit {0})
usbc_get_cfg_desc = do set_setup (ask_descriptor usb_desc_config 0 0 9); submit

unfoldable pub usbc_get_all_desc : Cmd UsbCore (Unit {0})
usbc_get_all_desc = do
  dev ← enum_dev
  set_setup (ask_descriptor usb_desc_config 0 0 dev.desc_total_size)
  submit
