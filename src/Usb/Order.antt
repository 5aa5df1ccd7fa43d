-- ===== src/Usb/Order.antt =====
-- The order of the requests of an enumeration. The device answers each of them, and the host
-- controller calls the handler.
use operating_system_cortex.Base.{
  ℕ, ◌+◌, ◌*◌, ◌^◌, ◌≤◌, ◌≡◌, refl, true, ◌==◌, le→ltb_false, if◌then◌else◌, Bool-cases, inl, inr,
  ltb, get_or, fault, length, List, [], ◌∷◌, ◌++◌, drop, Option, some, Cmd, ok, pure, ◌>>◌, u8,
}
use operating_system_cortex.Dlist.{Ptr}
use operating_system_cortex.Usb.{
  Buffer, UsbSetupDesc, UsbDev, UsbEnumState, get_ep0_size, get_dev_desc, set_address,
  get_desc_length, get_descriptors, get_product_name, get_manufacturer_name, i_product,
  i_manufacturer, b_descriptor_index,
}
use operating_system_cortex.Usb.Descriptors.{load_bytes, usbc_parse_descriptors}
use operating_system_cortex.Usb.Requests.{
  UsbCore, usb_enum_buffer_size, ok_status, HostCall, call, submit_urb, set_pipe_address,
  set_ep_size, pipe_disable, assigned, enum_dev, set_enum_dev, usbc_get_dev_desc, ask_descriptor,
  ask_address, submit, set_setup, set_addresses, new_address_from, usbc_new_address,
  usbhc_fill_control_urb, usb_get_string_desc, usbc_set_dev_addr, usbc_get_cfg_desc,
  usbc_get_all_desc,
}
use operating_system_cortex.Usb.Enumeration.{
  set_enum_state, transfer_buffer, acctual_length, setup_buffer, usbc_ep0_size_done,
  usbc_device_desc_done, usbc_address_done, usbc_desc_length_done, parsed, usbc_get_all_desc_done,
  usbc_get_product_name_done, usbc_get_manufacturer_name_done, enumerate_stage, usbc_assign_driver,
  usbc_enumerate_handler, load_name,
}

-- An answer without an error: the bytes of the buffer, and how many of them came.
pub record Answer : Type 0 where
  pub content : List ℕ
  pub length : ℕ

-- What is read from the buffer's address on.
abbrev pub seen : (behind : Buffer) → Answer → Buffer
seen behind a = λ i. get_or a.content i (behind i)

-- The URB comes back to the handler with an answer. One that is longer than the buffer has been
-- written behind its end, which is a fault.
unfoldable pub answer : (fuel : ℕ) → (bmalloc : ℕ → Option Ptr) → Answer → Cmd UsbCore (Unit {0})
answer fuel bmalloc a s =
    if ltb usb_enum_buffer_size a.length
    then fault
    else usbc_enumerate_handler fuel bmalloc (record s {
      enum_buffer = a.content;
      urb = record s.urb { status = ok_status; acctual_length = a.length };
    })

-- An answer that the buffer has room for.
abbrev pub IsWhole : Answer → Type 0
IsWhole a = (length a.content ≡ usb_enum_buffer_size) × (a.length ≤ usb_enum_buffer_size)

unfoldable pub answers :
    (fuel : ℕ) → (bmalloc : ℕ → Option Ptr) → List Answer → Cmd UsbCore (Unit {0})
answers fuel bmalloc [] = pure tt
answers fuel bmalloc (a ∷ as') = do answer fuel bmalloc a; answers fuel bmalloc as'

-- A state whose URB waits in a stage of the enumeration of `dev`.
abbrev pub waits : UsbEnumState → UsbDev → UsbCore → UsbCore
waits state dev s = record s { enum_state = state; dev_list = dev ∷ s.dev_list }

-- The state after the handler of a stage: the next stage with its request.
abbrev pub asked :
    UsbSetupDesc → List HostCall → (content : List ℕ) → (received : ℕ) → UsbCore → UsbCore
asked setup calls content received s = record s {
  setup = setup;
  enum_buffer = content;
  urb = record s.urb {
    setup_phase = true;
    transfer_length = setup.w_length;
    status = ok_status;
    acctual_length = received;
  };
  calls = submit_urb setup setup.w_length ∷ calls;
}

pub ep0_stage :
    (fuel : ℕ) (bmalloc : ℕ → Option Ptr) (a : Answer) (dev : UsbDev) (s : UsbCore)
    → a.length ≤ 1024
    → 8 ≤ seen s.behind a 7
    → seen s.behind a 7 ≤ 1024
    → answer fuel bmalloc a (waits get_ep0_size dev s)
      ≡ ok (
        tt,
        waits get_dev_desc
            (record dev { ep0_size = seen s.behind a 7 })
            (asked
              (ask_descriptor 1 0 0 18 s.setup)
              (set_ep_size (seen s.behind a 7) ∷ s.calls)
              a.content
              a.length
              s),
      )
unfolding answer usbc_enumerate_handler enumerate_stage usbc_ep0_size_done transfer_buffer enum_dev
    set_enum_dev call set_enum_state usbc_get_dev_desc set_setup submit usbhc_fill_control_urb
ep0_stage fuel bmalloc a dev s short h k =
    rw
      (
        le→ltb_false 1024 a.length short,
        le→ltb_false (seen s.behind a 7) 8 h,
        le→ltb_false 1024 (seen s.behind a 7) k,
      )
      refl

pub address_stage :
    (fuel : ℕ) (bmalloc : ℕ → Option Ptr) (a : Answer) (dev : UsbDev) (s : UsbCore)
    → a.length ≤ 1024
    → answer fuel bmalloc a (waits set_address dev s)
      ≡ ok (
        tt,
        waits get_desc_length
            (record dev { address = u8 (UsbSetupDesc.w_value s.setup) })
            (asked
              (ask_descriptor 2 0 0 9 s.setup)
              (set_pipe_address (u8 (UsbSetupDesc.w_value s.setup)) ∷ s.calls)
              a.content
              a.length
              s),
      )
unfolding answer usbc_enumerate_handler enumerate_stage usbc_address_done setup_buffer enum_dev
    set_enum_dev call set_enum_state usbc_get_cfg_desc set_setup submit usbhc_fill_control_urb
address_stage fuel bmalloc a dev s short = rw (le→ltb_false 1024 a.length short) refl

pub dev_desc_stage :
    (fuel : ℕ) (bmalloc : ℕ → Option Ptr) (a : Answer) (dev : UsbDev) (s : UsbCore)
    → a.length ≤ 1024
    → UsbSetupDesc.w_length s.setup ≡ 18
    → let new = new_address_from 9 1 s.dev_addr_bm in
      answer fuel bmalloc a (waits get_dev_desc dev s)
      ≡ ok (
        tt,
        waits set_address
            (record dev { desc = load_bytes 18 (seen s.behind a) 0 ++ drop 18 dev.desc })
            (asked
              (ask_address new.0 s.setup)
              s.calls
              a.content
              a.length
              (record s { dev_addr_bm = new.1 })),
      )
unfolding answer usbc_enumerate_handler enumerate_stage usbc_device_desc_done setup_buffer
    transfer_buffer enum_dev set_enum_dev call set_enum_state usbc_set_dev_addr usbc_new_address
    set_addresses set_setup submit usbhc_fill_control_urb
dev_desc_stage fuel bmalloc a dev s short h = rw (le→ltb_false 1024 a.length short, h) refl

pub length_stage :
    (fuel : ℕ) (bmalloc : ℕ → Option Ptr) (a : Answer) (dev : UsbDev) (s : UsbCore)
    → a.length ≤ 1024
    → a.length ≡ 9
    → let total = seen s.behind a 2 + seen s.behind a 3 * 2 ^ 8 in
      answer fuel bmalloc a (waits get_desc_length dev s)
      ≡ ok (
        tt,
        waits get_descriptors
            (record dev { desc_total_size = total })
            (asked (ask_descriptor 2 0 0 total s.setup) s.calls a.content a.length s),
      )
unfolding answer usbc_enumerate_handler enumerate_stage usbc_desc_length_done acctual_length
    transfer_buffer enum_dev set_enum_dev call set_enum_state usbc_get_all_desc set_setup submit
    usbhc_fill_control_urb
length_stage fuel bmalloc a dev s short h = rw (le→ltb_false 1024 a.length short, h) refl

pub descriptors_stage :
    (fuel : ℕ) (bmalloc : ℕ → Option Ptr) (a : Answer) (dev dev' : UsbDev) (s : UsbCore)
    → a.length ≤ 1024
    → usbc_parse_descriptors fuel bmalloc dev (seen s.behind a) a.length ≡ ok (some dev')
    → answer fuel bmalloc a (waits get_descriptors dev s)
      ≡ ok (
        tt,
        waits get_product_name dev' (
            asked
              (ask_descriptor 3 (i_product dev'.desc) 0 1024 s.setup)
              s.calls
              a.content
              a.length
              s),
      )
unfolding answer usbc_enumerate_handler enumerate_stage usbc_get_all_desc_done parsed acctual_length
    transfer_buffer enum_dev set_enum_dev call set_enum_state usb_get_string_desc set_setup submit
    usbhc_fill_control_urb
descriptors_stage fuel bmalloc a dev dev' s short h = rw (le→ltb_false 1024 a.length short, h) refl

-- The name that a string descriptor gives; index 0 stands for no string.
abbrev pub named : (behind : Buffer) → (index : ℕ) → Answer → List ℕ → List ℕ
named behind index a name = if index == 0 then name else load_name (seen behind a) a.length name

pub product_stage :
    (fuel : ℕ) (bmalloc : ℕ → Option Ptr) (a : Answer) (dev : UsbDev) (s : UsbCore)
    → a.length ≤ 1024
    → answer fuel bmalloc a (waits get_product_name dev s)
      ≡ ok (
        tt,
        waits get_manufacturer_name
            (record dev { product = named s.behind (b_descriptor_index s.setup) a dev.product })
            (asked
              (ask_descriptor 3 (i_manufacturer dev.desc) 0 1024 s.setup)
              s.calls
              a.content
              a.length
              s),
      )
unfolding answer usbc_enumerate_handler enumerate_stage usbc_get_product_name_done setup_buffer
    acctual_length transfer_buffer enum_dev set_enum_dev call set_enum_state usb_get_string_desc
    set_setup submit usbhc_fill_control_urb
product_stage fuel bmalloc a dev s short = elim (Bool-cases (b_descriptor_index s.setup == 0)) [
  | inl e ↦ rw (le→ltb_false 1024 a.length short, e) refl
  | inr e ↦ rw (le→ltb_false 1024 a.length short, e) refl
]

pub manufacturer_stage :
    (fuel : ℕ) (bmalloc : ℕ → Option Ptr) (a : Answer) (dev : UsbDev) (s : UsbCore)
    → a.length ≤ 1024
    → answer fuel bmalloc a (waits get_manufacturer_name dev s)
      ≡ ok (
        tt,
        waits get_manufacturer_name
            (record dev {
              manufacturer = named s.behind (b_descriptor_index s.setup) a dev.manufacturer;
            })
            (record s {
              enum_buffer = a.content;
              urb = record s.urb { status = ok_status; acctual_length = a.length };
              calls =
                  assigned (
                    usbc_assign_driver
                      (record dev {
                        manufacturer =
                            named s.behind (b_descriptor_index s.setup) a dev.manufacturer;
                      })
                      s)
                  ∷ pipe_disable
                  ∷ s.calls;
            }),
      )
unfolding answer usbc_enumerate_handler enumerate_stage usbc_get_manufacturer_name_done setup_buffer
    acctual_length transfer_buffer usbc_assign_driver enum_dev set_enum_dev call
manufacturer_stage fuel bmalloc a dev s short =
    elim (Bool-cases (b_descriptor_index s.setup == 0)) [
      | inl e ↦ rw (le→ltb_false 1024 a.length short, e) refl
      | inr e ↦ rw (le→ltb_false 1024 a.length short, e) refl
    ]

pub answers-next :
    (fuel : ℕ) (bmalloc : ℕ → Option Ptr) (a : Answer) (rest : List Answer) (s t : UsbCore)
    → answer fuel bmalloc a s ≡ ok (tt, t)
    → answers fuel bmalloc (a ∷ rest) s ≡ answers fuel bmalloc rest t
unfolding answers
answers-next fuel bmalloc a rest s t e = rw e refl

pub answers-none :
    (fuel : ℕ) (bmalloc : ℕ → Option Ptr) (s : UsbCore) → answers fuel bmalloc [] s ≡ ok (tt, s)
unfolding answers
answers-none fuel bmalloc s = refl
