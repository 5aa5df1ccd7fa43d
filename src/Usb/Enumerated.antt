-- ===== src/Usb/Enumerated.antt =====
-- A whole enumeration, from the reset of the bus to the last answer.
use operating_system_cortex.Base.{
  ℕ, ◌+◌, ◌*◌, ◌^◌, ◌≡◌, true, List, [], ◌∷◌, take, replicate, u8, u16,
}
use operating_system_cortex.Dlist.{null}
use operating_system_cortex.Usb.{Buffer, UsbDev}
use operating_system_cortex.Usb.Descriptors.{load_bytes}
use operating_system_cortex.Usb.Requests.{
  UsbCore, HostCall, pipe_configure, alloc_urb, submit_urb, set_pipe_address, set_ep_size,
  pipe_disable, pipe_claim, assigned, ask_descriptor, new_address_from, max_pipes,
}
use operating_system_cortex.Usb.Enumeration.{usbc_assign_driver, copy_none}
use operating_system_cortex.Usb.Stream.{counts_of}
use operating_system_cortex.Usb.Tree.{ConfigTree, descriptors}
use operating_system_cortex.Usb.RoundTrip.{Received}
use operating_system_cortex.Usb.Block.{LaidOut}
use operating_system_cortex.Usb.Order.{Answer, IsWhole, seen}

-- The answers of a device, in the order of the requests.
pub record Answers : Type 0 where
  pub ep0_size : Answer
  pub dev_desc : Answer
  pub address : Answer
  pub desc_length : Answer
  pub all_desc : Answer
  pub product : Answer
  pub manufacturer : Answer

-- Each of them has room in the buffer.
pub record Whole (a : Answers) : Type 0 where
  pub ep0_size : IsWhole a.ep0_size
  pub dev_desc : IsWhole a.dev_desc
  pub address : IsWhole a.address
  pub desc_length : IsWhole a.desc_length
  pub all_desc : IsWhole a.all_desc
  pub product : IsWhole a.product
  pub manufacturer : IsWhole a.manufacturer

abbrev pub in_order : Answers → List Answer
in_order a =
    a.ep0_size ∷ a.dev_desc ∷ a.address ∷ a.desc_length ∷ a.all_desc ∷ a.product ∷ a.manufacturer
    ∷ []

-- A request for a descriptor, and for an address.
abbrev asks : (type index length : ℕ) → HostCall
asks type index length =
    submit_urb
      (record {
        bm_request_type = 0x80;
        b_request = 0x06;
        w_value = u8 index + type * 2 ^ 8;
        w_index = 0;
        w_length = u16 length;
      })
      (u16 length)

abbrev gives_address : (address : ℕ) → HostCall
gives_address address =
    submit_urb
      (record {
        bm_request_type = 0;
        b_request = 0x05;
        w_value = address;
        w_index = 0;
        w_length = 0;
      })
      0

-- The calls of the host controller, the last one first.
abbrev pub requests : (behind : Buffer) → Answers → (address : ℕ) → List HostCall → List HostCall
requests behind a address before =
    pipe_disable
    ∷ asks 3 (seen behind a.dev_desc 14) 1024
    ∷ asks 3 (seen behind a.dev_desc 15) 1024
    ∷ asks 2 0 (seen behind a.desc_length 2 + seen behind a.desc_length 3 * 2 ^ 8)
    ∷ asks 2 0 9
    ∷ set_pipe_address (u8 address)
    ∷ gives_address address
    ∷ asks 1 0 18
    ∷ set_ep_size (seen behind a.ep0_size 7)
    ∷ asks 1 0 8
    ∷ alloc_urb
    ∷ pipe_configure 64
    ∷ pipe_claim
    ∷ before

-- What the enumeration leaves: the new device in front of the others, with what it sent.
pub record Enumerated (a : Answers) (cs : List ConfigTree) (s t : UsbCore) : Type 0 where
  pub dev : UsbDev
  pub devices : t.dev_list ≡ dev ∷ s.dev_list
  pub received : Received dev cs
  pub laid_out : LaidOut (counts_of (descriptors cs))
  pub ep0 : dev.ep0_size ≡ seen s.behind a.ep0_size 7
  pub desc : take 18 dev.desc ≡ load_bytes 18 (seen s.behind a.dev_desc) 0
  pub addressed : dev.address ≡ u8 (new_address_from 9 1 s.dev_addr_bm).0
  pub marked : t.dev_addr_bm ≡ (new_address_from 9 1 s.dev_addr_bm).1
  pub calls :
      t.calls
      ≡ assigned (usbc_assign_driver dev t)
        ∷ requests s.behind a (new_address_from 9 1 s.dev_addr_bm).0 s.calls

-- The state when the first request is out.
abbrev added : UsbDev → UsbDev
added dev = record dev {
  iface_list = [];
  product = copy_none dev.product;
  manufacturer = copy_none dev.manufacturer;
  pipes = replicate max_pipes null;
  pipe_bm = 0;
}

abbrev started : UsbCore → UsbCore
started s = record s {
  setup = ask_descriptor 1 0 0 8 s.setup;
  urb = record s.urb { setup_phase = true; transfer_length = 8 };
  calls = asks 1 0 8 ∷ alloc_urb ∷ pipe_configure 64 ∷ pipe_claim ∷ s.calls;
}
