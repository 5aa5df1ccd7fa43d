-- ===== src/Usb/Enumeration.antt =====
-- kernel/src/usb/usb.c: the enumeration of a device. The handler is the callback of the one URB; each
-- stage ends with the request of the next one. Printing is left out.
use operating_system_cortex.Base.{
  get_or, ℕ, zero, suc, ◌+◌, ◌*◌, ◌^◌, true, false, ◌==◌, ltb, ◌||◌, not, if◌then◌else◌, List, [],
  ◌∷◌, ◌++◌, map, drop, set, replicate, Option, none, some, Run, Cmd, ok, panic, fault, hang, pure,
  stop, ◌>>=◌, ◌>>◌, u8, u32, sub32,
}
use operating_system_cortex.Dlist.{Ptr, null}
use operating_system_cortex.Usb.{
  Buffer, UsbSetupDesc, b_descriptor_index, UsbEp, UsbIface, UsbConfig, Objects, UsbDev, UsbDriver,
  i_product, i_manufacturer, usb_string_offset, UsbEnumState, idle, get_ep0_size, get_dev_desc,
  set_address, get_desc_length, get_descriptors, get_product_name, get_manufacturer_name,
}
use operating_system_cortex.Usb.Descriptors.{
  load_bytes, usbc_parse_descriptors, usb_config_size, usb_iface_size, usb_ep_size,
}
use operating_system_cortex.Usb.Drivers.{usbc_find_driver}
use operating_system_cortex.Usb.Requests.{
  UsbCore, ok_status, call, send_reset, pipe_configure, alloc_urb, set_pipe_address, set_ep_size,
  pipe_disable, pipe_claim, assigned, max_pipes, enum_dev, set_enum_dev, usbc_get_dev_desc,
  usb_get_string_desc, usbc_set_dev_addr, usbc_get_cfg_desc, usbc_get_all_desc,
}

-- The handler is entered in a stage; the driver functions of usbc_assign_driver answer only.
unfoldable pub set_enum_state : UsbEnumState → Cmd UsbCore (Unit {0})
set_enum_state state s = ok (tt, record s { enum_state = state })

unfoldable pub transfer_buffer : Cmd UsbCore Buffer
transfer_buffer s = ok (λ i. get_or s.enum_buffer i (s.behind i), s)

unfoldable pub acctual_length : Cmd UsbCore ℕ
acctual_length s = ok (s.urb.acctual_length, s)

unfoldable pub setup_buffer : Cmd UsbCore UsbSetupDesc
setup_buffer s = ok (s.setup, s)

unfoldable pub usbc_ep0_size_done : Cmd UsbCore (Unit {0})
usbc_ep0_size_done = do
  dev_desc ← transfer_buffer
  dev ← enum_dev
  if ltb (dev_desc 7) 8 || ltb 1024 (dev_desc 7)
      then stop
      else set_enum_dev (record dev { ep0_size = dev_desc 7 })

-- The copy of the first bytes of a descriptor; more bytes than it has are written behind it.
unfoldable pub usbc_device_desc_done : Cmd UsbCore (Unit {0})
usbc_device_desc_done = do
  desc ← setup_buffer
  src ← transfer_buffer
  dev ← enum_dev
  if ltb 18 desc.w_length
      then (λ s. fault)
      else set_enum_dev
          (record dev { desc = load_bytes desc.w_length src 0 ++ drop desc.w_length dev.desc })

unfoldable pub usbc_address_done : Cmd UsbCore (Unit {0})
usbc_address_done = do
  setup ← setup_buffer
  dev ← enum_dev
  set_enum_dev (record dev { address = u8 setup.w_value })
  call (set_pipe_address (u8 setup.w_value))

unfoldable pub usbc_desc_length_done : Cmd UsbCore (Unit {0})
usbc_desc_length_done = do
  cfg_desc ← transfer_buffer
  length ← acctual_length
  dev ← enum_dev
  if not (length == 9)
      then stop
      else set_enum_dev (record dev { desc_total_size = cfg_desc 2 + cfg_desc 3 * 2 ^ 8 })

-- The descriptors that usbc_get_all_desc_done prints, in its order.
unfoldable pub print_eps : (count : ℕ) → (eps : Ptr) → Objects → List (List ℕ)
print_eps zero eps o = []
print_eps (suc count) eps o = UsbEp.desc (o.ep_at eps) ∷ print_eps count (eps + usb_ep_size) o

unfoldable pub print_ifaces : (count : ℕ) → (ifaces : Ptr) → Objects → List (List ℕ)
print_ifaces zero ifaces o = []
print_ifaces (suc count) ifaces o =
    let i = o.iface_at ifaces in
    UsbIface.desc i
    ∷ (print_eps i.num_eps i.eps o ++ print_ifaces count (ifaces + usb_iface_size) o)

unfoldable pub print_configs : (count : ℕ) → (configs : Ptr) → Objects → List (List ℕ)
print_configs zero configs o = []
print_configs (suc count) configs o =
    let c = o.config_at configs in
    UsbConfig.desc c
    ∷ (print_ifaces c.num_ifaces c.ifaces o ++ print_configs count (configs + usb_config_size) o)

-- 0 from the parser is a panic.
unfoldable pub parsed : Run (Option UsbDev) → Cmd UsbCore (Unit {0})
parsed (ok (some dev)) = set_enum_dev dev
parsed (ok none) = stop
parsed panic = stop
parsed fault = λ s. fault
parsed hang = λ s. hang

unfoldable pub usbc_get_all_desc_done :
    (fuel : ℕ) → (bmalloc : ℕ → Option Ptr) → Cmd UsbCore (Unit {0})
usbc_get_all_desc_done fuel bmalloc = do
  src ← transfer_buffer
  length ← acctual_length
  dev ← enum_dev
  parsed (usbc_parse_descriptors fuel bmalloc dev src length)

-- The loop of usbc_uni_to_string; `left` is string_size - ascii_pos.
unfoldable pub copy_chars :
    (left : ℕ) → (uni : Buffer) → (uni_size uni_pos ascii_pos : ℕ) → List ℕ → List ℕ
copy_chars zero uni uni_size uni_pos ascii_pos string = set string ascii_pos 0
copy_chars (suc left) uni uni_size uni_pos ascii_pos string =
    let rest =
      copy_chars left uni uni_size (u32 (uni_pos + 2)) (suc ascii_pos)
        (set string ascii_pos (uni uni_pos)) in
    if ltb uni_pos uni_size then rest else set string ascii_pos 0

unfoldable pub usbc_uni_to_string : (uni : Buffer) → (uni_size string_size : ℕ) → List ℕ → List ℕ
usbc_uni_to_string uni uni_size zero string = string
usbc_uni_to_string uni uni_size (suc string_size) string =
    copy_chars string_size uni uni_size 0 0 string

abbrev pub usb_dev_name_max_size : ℕ
usb_dev_name_max_size = 64

-- The name in a string descriptor.
unfoldable pub load_name : Buffer → (length : ℕ) → List ℕ → List ℕ
load_name buffer length name =
    usbc_uni_to_string (λ i. buffer (usb_string_offset + i)) (sub32 length 2) usb_dev_name_max_size
      name

unfoldable pub usbc_get_product_name_done : Cmd UsbCore (Unit {0})
usbc_get_product_name_done = do
  desc ← setup_buffer
  src ← transfer_buffer
  length ← acctual_length
  dev ← enum_dev
  if b_descriptor_index desc == 0
      then pure tt
      else set_enum_dev (record dev { product = load_name src length dev.product })

unfoldable pub usbc_get_manufacturer_name_done : Cmd UsbCore (Unit {0})
usbc_get_manufacturer_name_done = do
  desc ← setup_buffer
  src ← transfer_buffer
  length ← acctual_length
  dev ← enum_dev
  if b_descriptor_index desc == 0
      then pure tt
      else set_enum_dev (record dev { manufacturer = load_name src length dev.manufacturer })

-- The driver found for each interface, which the source prints and forgets.
unfoldable pub usbc_assign_driver : UsbDev → UsbCore → List (Option UsbDriver)
usbc_assign_driver dev s =
    map (λ iface. usbc_find_driver s.driver_list dev (Objects.iface_at dev.objects iface))
      dev.iface_list

unfoldable pub usb_handle_urb_fail : Cmd UsbCore (Unit {0})
usb_handle_urb_fail = stop

-- The cases of usbc_enumerate_handler.
unfoldable pub enumerate_stage :
    (fuel : ℕ) → (bmalloc : ℕ → Option Ptr) → UsbEnumState → Cmd UsbCore (Unit {0})
enumerate_stage fuel bmalloc idle = pure tt
enumerate_stage fuel bmalloc get_ep0_size = do
  usbc_ep0_size_done
  dev ← enum_dev
  call (set_ep_size dev.ep0_size)
  set_enum_state get_dev_desc
  usbc_get_dev_desc true
enumerate_stage fuel bmalloc get_dev_desc = do
  usbc_device_desc_done
  set_enum_state set_address
  usbc_set_dev_addr
enumerate_stage fuel bmalloc set_address = do
  usbc_address_done
  set_enum_state get_desc_length
  usbc_get_cfg_desc
enumerate_stage fuel bmalloc get_desc_length = do
  usbc_desc_length_done
  set_enum_state get_descriptors
  usbc_get_all_desc
enumerate_stage fuel bmalloc get_descriptors = do
  usbc_get_all_desc_done fuel bmalloc
  set_enum_state get_product_name
  dev ← enum_dev
  usb_get_string_desc (i_product dev.desc) 0
enumerate_stage fuel bmalloc get_product_name = do
  usbc_get_product_name_done
  set_enum_state get_manufacturer_name
  dev ← enum_dev
  usb_get_string_desc (i_manufacturer dev.desc) 0
enumerate_stage fuel bmalloc get_manufacturer_name = do
  usbc_get_manufacturer_name_done
  call pipe_disable
  dev ← enum_dev
  λ s. call (assigned (usbc_assign_driver dev s)) s

unfoldable pub usbc_enumerate_handler :
    (fuel : ℕ) → (bmalloc : ℕ → Option Ptr) → Cmd UsbCore (Unit {0})
usbc_enumerate_handler fuel bmalloc s = elim s.urb.status [
  | ok_status ↦ enumerate_stage fuel bmalloc s.enum_state s
  | _ ↦ usb_handle_urb_fail s
]

-- string_copy of "None"
unfoldable pub copy_none : List ℕ → List ℕ
copy_none string = 0x4E ∷ 0x6F ∷ 0x6E ∷ 0x65 ∷ 0 ∷ drop 5 string

-- `dev` is the content of the block that bmalloc returns.
unfoldable pub usbc_add_device : Option UsbDev → Cmd UsbCore (Unit {0})
usbc_add_device none = stop
usbc_add_device (some dev) = λ s. ok (
  tt,
  record s {
    dev_list =
        record dev {
          iface_list = [];
          product = copy_none dev.product;
          manufacturer = copy_none dev.manufacturer;
          pipes = replicate max_pipes null;
          pipe_bm = 0;
        }
        ∷ s.dev_list;
  },
)

unfoldable pub usbc_start_enum : Option UsbDev → Cmd UsbCore (Unit {0})
usbc_start_enum block = do
  call pipe_claim
  call (pipe_configure 64)
  usbc_add_device block
  call alloc_urb
  set_enum_state get_ep0_size
  usbc_get_dev_desc false

pub data RootHubEvent : Type 0 where
  connection : RootHubEvent
  disconnection : RootHubEvent
  reset_sent : RootHubEvent

unfoldable pub root_hub_event : Option UsbDev → RootHubEvent → Cmd UsbCore (Unit {0})
root_hub_event block connection = call send_reset
root_hub_event block disconnection = pure tt
root_hub_event block reset_sent = usbc_start_enum block

-- The statics keep what they hold; the callbacks and the pointers that it sets are fixed here.
unfoldable pub usbc_init : UsbCore → UsbCore
usbc_init s = record s { enum_state = idle; dev_list = []; dev_addr_bm = 1; driver_list = [] }

unfoldable pub usbc_add_driver : UsbDriver → UsbCore → UsbCore
usbc_add_driver driver s = record s { driver_list = driver ∷ s.driver_list }
