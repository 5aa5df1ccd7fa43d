-- ===== src/Usb/Descriptors.antt =====
-- kernel/src/usb/usb.c: the descriptors of a device, counted, laid out in one block and linked. The
-- bytes of a buffer go on behind its end, as memory does; addresses in the block do not wrap.
use operating_system_cortex.Base.{
  ℕ, zero, suc, ◌+◌, ◌*◌, ◌^◌, ◌==◌, ltb, not, if◌then◌else◌, List, [], ◌∷◌, Option, none, some,
  Run, ok, panic, hang, bind, u32,
}
use operating_system_cortex.Dlist.{Ptr, null}
use operating_system_cortex.Usb.{
  Buffer, UsbEp, UsbIface, UsbConfig, Objects, UsbDev, usb_desc_config, usb_desc_iface, usb_desc_ep,
}

-- `sizeof`
abbrev pub usb_config_desc_size : ℕ
usb_config_desc_size = 9

abbrev pub usb_iface_desc_size : ℕ
usb_iface_desc_size = 9

abbrev pub usb_ep_desc_size : ℕ
usb_ep_desc_size = 7

abbrev pub usb_config_size : ℕ
usb_config_size = 24

abbrev pub usb_iface_size : ℕ
usb_iface_size = 40

abbrev pub usb_ep_size : ℕ
usb_ep_size = 12

-- `memory_copy` out of a buffer
unfoldable pub load_bytes : (size : ℕ) → Buffer → (pos : ℕ) → List ℕ
load_bytes zero data_bytes pos = []
load_bytes (suc size) data_bytes pos = data_bytes pos ∷ load_bytes size data_bytes (suc pos)

unfoldable pub load_word : Buffer → (pos : ℕ) → ℕ
load_word data_bytes pos =
    data_bytes pos
    + (data_bytes (pos + 1) + (data_bytes (pos + 2) + data_bytes (pos + 3) * 2 ^ 8) * 2 ^ 8) * 2 ^ 8

pub record Counts : Type 0 where
  pub configs : ℕ
  pub ifaces : ℕ
  pub eps : ℕ

abbrev pub no_counts : Counts
no_counts = record { configs = 0; ifaces = 0; eps = 0 }

-- The counts after a descriptor, if its size is that of its type.
unfoldable pub count_descriptor : (type size : ℕ) → Counts → Option Counts
count_descriptor type size n =
    if type == usb_desc_config
    then (if not (size == usb_config_desc_size)
        then none
        else some (record n { configs = u32 (n.configs + 1) }))
    else if type == usb_desc_iface
    then (if not (size == usb_iface_desc_size)
        then none
        else some (record n { ifaces = u32 (n.ifaces + 1) }))
    else if type == usb_desc_ep
    then (if not (size == usb_ep_desc_size)
        then none
        else some (record n { eps = u32 (n.eps + 1) }))
    else some n

-- The rounds of the loop, on fuel.
unfoldable pub verify_from : (fuel : ℕ) → Buffer → (size pos : ℕ) → Counts → Run (Option Counts)
verify_from zero data_bytes size pos n = hang
verify_from (suc fuel) data_bytes size pos n =
    let rest = λ (n : Counts). verify_from fuel data_bytes size (u32 (pos + data_bytes pos)) n in
    if ltb pos size
    then elim (count_descriptor (data_bytes (pos + 1)) (data_bytes pos) n) [
      | none ↦ ok none
      | some n ↦ rest n
    ]
    else if pos == size
    then ok (some n)
    else ok none

unfoldable pub usbc_verify_descriptors : (fuel : ℕ) → Buffer → (size : ℕ) → Run (Option Counts)
usbc_verify_descriptors fuel data_bytes size = verify_from fuel data_bytes size 0 no_counts

unfoldable pub usbc_get_desc_offset : (configs ifaces type index : ℕ) → ℕ
usbc_get_desc_offset configs ifaces type index =
    if type == usb_desc_config
    then u32 (index * usb_config_size)
    else if type == usb_desc_iface
    then u32 (configs * usb_config_size + index * usb_iface_size)
    else if type == usb_desc_ep
    then u32 (configs * usb_config_size + ifaces * usb_iface_size + index * usb_ep_size)
    else 0

unfoldable pub desc_mem_size : Counts → ℕ
desc_mem_size n =
    u32 (n.configs * usb_config_size + n.ifaces * usb_iface_size + n.eps * usb_ep_size)

-- `bmalloc` panics where it has no block.
unfoldable pub with_block : Option Ptr → (size : ℕ) → UsbDev → Run UsbDev
with_block none size dev = panic
with_block (some block) size dev = ok (record dev { configs = block; desc_total_size = size })

unfoldable pub usbc_alloc_descriptors : (bmalloc : ℕ → Option Ptr) → UsbDev → Counts → Run UsbDev
usbc_alloc_descriptors bmalloc dev n = with_block (bmalloc (desc_mem_size n)) (desc_mem_size n) dev

-- The block goes back to the memory manager.
unfoldable pub usbc_delete_descriptors : UsbDev → UsbDev
usbc_delete_descriptors dev = record dev { configs = null; desc_total_size = 0; num_configs = 0 }

unfoldable pub store_config : (p : Ptr) → UsbConfig → Objects → Objects
store_config p v o = record o { config_at = λ a. if a == p then v else o.config_at a }

unfoldable pub store_iface : (p : Ptr) → UsbIface → Objects → Objects
store_iface p v o = record o { iface_at = λ a. if a == p then v else o.iface_at a }

unfoldable pub store_ep : (p : Ptr) → UsbEp → Objects → Objects
store_ep p v o = record o { ep_at = λ a. if a == p then v else o.ep_at a }

-- The three loops of usbc_init_descriptors, each at `ptr`.
unfoldable pub init_configs : (count : ℕ) → (ptr : Ptr) → UsbDev → UsbDev
init_configs zero ptr dev = dev
init_configs (suc count) ptr dev = init_configs count (ptr + usb_config_size) (record dev {
  objects = store_config ptr (record (dev.objects.config_at ptr) { curr_iface = null }) dev.objects;
})

unfoldable pub init_ifaces : (count : ℕ) → (ptr : Ptr) → UsbDev → UsbDev
init_ifaces zero ptr dev = dev
init_ifaces (suc count) ptr dev = init_ifaces count (ptr + usb_iface_size) (record dev {
  objects =
      store_iface ptr (record (dev.objects.iface_at ptr) { driver = null; assigned = 0 })
        dev.objects;
  iface_list = ptr ∷ dev.iface_list;
})

unfoldable pub init_eps : (count : ℕ) → (ptr : Ptr) → UsbDev → UsbDev
init_eps zero ptr dev = dev
init_eps (suc count) ptr dev = init_eps count (ptr + usb_ep_size) (record dev {
  objects = store_ep ptr (record (dev.objects.ep_at ptr) { pipe = null }) dev.objects;
})

unfoldable pub usbc_init_descriptors : UsbDev → Counts → UsbDev
usbc_init_descriptors dev n =
    init_eps n.eps (dev.configs + n.configs * usb_config_size + n.ifaces * usb_iface_size) (
      init_ifaces n.ifaces (dev.configs + n.configs * usb_config_size)
        (init_configs n.configs dev.configs dev))

-- The local variables of usbc_parse_descriptors with the device.
pub record Parse : Type 0 where
  pub dev : UsbDev
  pub config_index : ℕ
  pub iface_index : ℕ
  pub ep_index : ℕ
  pub last_cfg : Ptr
  pub last_iface : Ptr

unfoldable pub config_address : Counts → Parse → Ptr
config_address n s =
    s.dev.configs + usbc_get_desc_offset n.configs n.ifaces usb_desc_config s.config_index

unfoldable pub iface_address : Counts → Parse → Ptr
iface_address n s =
    s.dev.configs + usbc_get_desc_offset n.configs n.ifaces usb_desc_iface s.iface_index

unfoldable pub ep_address : Counts → Parse → Ptr
ep_address n s = s.dev.configs + usbc_get_desc_offset n.configs n.ifaces usb_desc_ep s.ep_index

unfoldable pub new_config : (desc : List ℕ) → UsbConfig → UsbConfig
new_config desc cfg = record cfg { desc = desc; num_ifaces = 0 }

unfoldable pub parse_config : Counts → (desc : List ℕ) → Parse → Parse
parse_config n desc s =
    let cfg = config_address n s in
    record s {
      dev = record s.dev {
        objects = store_config cfg (new_config desc (s.dev.objects.config_at cfg)) s.dev.objects;
        num_configs = u32 (s.dev.num_configs + 1);
      };
      last_cfg = cfg;
      config_index = u32 (s.config_index + 1);
    }

unfoldable pub new_iface : (desc : List ℕ) → UsbIface → UsbIface
new_iface desc iface = record iface { desc = desc; num_eps = 0 }

-- A configuration counts one more interface, the one at `iface`.
unfoldable pub link_iface : (iface : Ptr) → UsbConfig → UsbConfig
link_iface iface cfg = record cfg {
  ifaces = if cfg.num_ifaces == 0 then iface else cfg.ifaces;
  num_ifaces = u32 (cfg.num_ifaces + 1);
}

unfoldable pub parse_iface : Counts → (desc : List ℕ) → Parse → Parse
parse_iface n desc s =
    let iface = iface_address n s in
    record s {
      dev = record s.dev {
        objects =
            store_config s.last_cfg (link_iface iface (s.dev.objects.config_at s.last_cfg))
              (store_iface iface (new_iface desc (s.dev.objects.iface_at iface)) s.dev.objects);
      };
      last_iface = iface;
      iface_index = u32 (s.iface_index + 1);
    }

unfoldable pub link_ep : (ep : Ptr) → UsbIface → UsbIface
link_ep ep iface = record iface {
  eps = if iface.num_eps == 0 then ep else iface.eps;
  num_eps = u32 (iface.num_eps + 1);
}

unfoldable pub parse_ep : Counts → UsbEp → Parse → Parse
parse_ep n v s =
    let ep = ep_address n s in
    record s {
      dev = record s.dev {
        objects =
            store_iface s.last_iface (link_ep ep (s.dev.objects.iface_at s.last_iface))
              (store_ep ep v s.dev.objects);
      };
      ep_index = u32 (s.ep_index + 1);
    }

-- The copy has the size of `struct usb_ep`, so the bytes 8 to 11 land in its pipe.
unfoldable pub load_ep : Buffer → (pos : ℕ) → UsbEp
load_ep data_bytes pos = record {
  desc = load_bytes usb_ep_desc_size data_bytes pos;
  pipe = load_word data_bytes (pos + 8);
}

-- `none` where an interface has no configuration, or an endpoint no interface, in front of it.
unfoldable pub parse_descriptor : Counts → Buffer → (pos : ℕ) → Parse → Option Parse
parse_descriptor n data_bytes pos s =
    if data_bytes (pos + 1) == usb_desc_config
    then some (parse_config n (load_bytes usb_config_desc_size data_bytes pos) s)
    else if data_bytes (pos + 1) == usb_desc_iface
    then (if s.last_cfg == null
        then none
        else some (parse_iface n (load_bytes usb_iface_desc_size data_bytes pos) s))
    else if data_bytes (pos + 1) == usb_desc_ep
    then (if s.last_iface == null then none else some (parse_ep n (load_ep data_bytes pos) s))
    else some s

unfoldable pub parse_from :
    (fuel : ℕ) → Counts → Buffer → (size pos : ℕ) → Parse → Run (Option UsbDev)
parse_from zero n data_bytes size pos s = hang
parse_from (suc fuel) n data_bytes size pos s =
    let rest = λ (s : Parse). parse_from fuel n data_bytes size (u32 (pos + data_bytes pos)) s in
    if ltb pos size
    then elim (parse_descriptor n data_bytes pos s) [ none ↦ ok none | some s ↦ rest s ]
    else ok (some s.dev)

unfoldable pub parse_counted :
    (fuel : ℕ)
    → (bmalloc : ℕ → Option Ptr) → UsbDev
    → Buffer
    → (size : ℕ) → Option Counts
    → Run (Option UsbDev)
parse_counted fuel bmalloc dev data_bytes size none = ok none
parse_counted fuel bmalloc dev data_bytes size (some n) =
    bind (usbc_alloc_descriptors bmalloc dev n) (λ dev.
      parse_from fuel n data_bytes size 0 (record {
        dev = usbc_init_descriptors dev n;
        config_index = 0;
        iface_index = 0;
        ep_index = 0;
        last_cfg = null;
        last_iface = null;
      }))

-- `none` for the 0 that stands for malformed descriptors; its changes of the device are not read.
unfoldable pub usbc_parse_descriptors :
    (fuel : ℕ) → (bmalloc : ℕ → Option Ptr) → UsbDev → Buffer → (size : ℕ) → Run (Option UsbDev)
usbc_parse_descriptors fuel bmalloc dev data_bytes size =
    bind (usbc_verify_descriptors fuel data_bytes size)
      (parse_counted fuel bmalloc dev data_bytes size)
