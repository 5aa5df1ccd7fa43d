-- ===== src/Usb/Tests.antt =====
-- kernel/src/usb: runs on a device with one configuration.
use operating_system_cortex.Base.{
  ℕ, ◌-◌, length, ◌≡◌, ◌≢◌, ◌⊎◌, refl, false, List, [], ◌∷◌, ◌++◌, get_or, replicate, Option, none,
  some, ok, hang, Returns, arith,
}
use operating_system_cortex.Usb.{Buffer, UsbIface, Objects, UsbDev, UsbDriver, idle}
use operating_system_cortex.Usb.Descriptors.{
  usbc_verify_descriptors, usbc_parse_descriptors, load_bytes, load_ep, load_word,
}
use operating_system_cortex.Usb.Drivers.{usbc_find_driver}
use operating_system_cortex.Usb.Requests.{UsbCore, ok_status, usbc_new_address}
use operating_system_cortex.Usb.Stream.{
  Holds, counts_of, holds, holds_end, skips, usbc_verify_descriptors-hang, config, iface, ep,
}
use operating_system_cortex.Usb.Tree.{ConfigTree, descriptors}
use operating_system_cortex.Usb.RoundTrip.{Received, SameIdentity, usbc_parse_descriptors-Received}
use operating_system_cortex.Usb.Block.{LaidOut}
use operating_system_cortex.Usb.Order.{Answer}
use operating_system_cortex.Usb.Enumerated.{Answers, Enumerated}
use operating_system_cortex.Usb.Addresses.{NewAddress, usbc_new_address-NewAddress}
use operating_system_cortex.Usb.Matching.{Finds, usbc_find_driver-Finds}

abbrev config_bytes : List ℕ
config_bytes = 9 ∷ 2 ∷ 28 ∷ 0 ∷ 1 ∷ 1 ∷ 0 ∷ 0x80 ∷ 50 ∷ []

abbrev iface_bytes : List ℕ
iface_bytes = 9 ∷ 4 ∷ 0 ∷ 0 ∷ 1 ∷ 8 ∷ 6 ∷ 0x50 ∷ 0 ∷ []

abbrev ep_bytes : List ℕ
ep_bytes = 7 ∷ 5 ∷ 0x81 ∷ 2 ∷ 64 ∷ 0 ∷ 0 ∷ []

-- A configuration, its interface, a descriptor of a class, and an endpoint.
abbrev sent_bytes : List ℕ
sent_bytes = config_bytes ++ iface_bytes ++ (3 ∷ 0x21 ∷ 0 ∷ []) ++ ep_bytes

abbrev sent : Buffer
sent i = get_or sent_bytes i 0

abbrev one_config : List ConfigTree
one_config =
    record {
      desc = config_bytes;
      ifaces = record { desc = iface_bytes; eps = record { desc = ep_bytes; pipe = 0 } ∷ [] } ∷ [];
    }
    ∷ []

sent-Holds : Holds sent 28 (descriptors one_config) 0
unfolding load_bytes load_ep load_word
sent-Holds = holds (config config_bytes) refl refl refl (
    holds (iface iface_bytes) refl refl refl (
      skips (omega arith) (omega arith) (omega arith) (omega arith)
        (holds (ep (record { desc = ep_bytes; pipe = 0 })) refl refl refl holds_end)))

abbrev some_objects : Objects
some_objects = record {
  config_at = λ a. record { desc = []; ifaces = 7; num_ifaces = 7; curr_iface = 7 };
  iface_at = λ a. record { desc = []; eps = 7; num_eps = 7; driver = 7; assigned = 1 };
  ep_at = λ a. record { desc = []; pipe = 7 };
}

abbrev new_device : UsbDev
new_device = record {
  desc = [];
  desc_total_size = 0;
  configs = 0;
  num_configs = 0;
  objects = some_objects;
  pipes = [];
  pipe_bm = 0;
  iface_list = [];
  address = 0;
  ep0_size = 0;
  product = replicate 64 0;
  manufacturer = replicate 64 0;
}

abbrev one_block : ℕ → Option ℕ
one_block size = some 0x20400000

usbc_parse_descriptors-Received_example :
    (dev' : UsbDev) × (usbc_parse_descriptors 29 one_block new_device sent 28 ≡ ok (some dev'))
    × Received dev' one_config
    × SameIdentity dev' new_device
    × (dev'.configs ≡ 0x20400000)
    × LaidOut (counts_of (descriptors one_config))
usbc_parse_descriptors-Received_example =
    usbc_parse_descriptors-Received 29 28 one_block 0x20400000 new_device sent one_config
      (omega arith) sent-Holds refl refl (omega arith) (omega arith)

abbrev core : UsbCore
core = record {
  enum_state = idle;
  dev_list = [];
  dev_addr_bm = 3;
  driver_list = [];
  setup = record { bm_request_type = 0; b_request = 0; w_value = 0; w_index = 0; w_length = 0 };
  enum_buffer = replicate 1024 0;
  behind = λ i. 0;
  urb = record { setup_phase = false; transfer_length = 0; acctual_length = 0; status = ok_status };
  calls = [];
}

-- Some bytes, and zeros up to the end of the buffer.
abbrev answer_of : List ℕ → Answer
answer_of bytes = record {
  content = bytes ++ replicate (1024 - length bytes) 0;
  length = length bytes;
}

abbrev device_answers : Answers
device_answers = record {
  ep0_size = answer_of (18 ∷ 1 ∷ 0 ∷ 2 ∷ 0 ∷ 0 ∷ 0 ∷ 64 ∷ []);
  dev_desc =
      answer_of (18 ∷ 1 ∷ 0 ∷ 2 ∷ 0 ∷ 0 ∷ 0 ∷ 64 ∷ 1 ∷ 2 ∷ 3 ∷ 4 ∷ 0 ∷ 1 ∷ 1 ∷ 2 ∷ 0 ∷ 1 ∷ []);
  address = answer_of [];
  desc_length = answer_of config_bytes;
  all_desc = answer_of sent_bytes;
  product = answer_of (4 ∷ 3 ∷ 0x41 ∷ 0 ∷ []);
  manufacturer = answer_of (4 ∷ 3 ∷ 0x42 ∷ 0 ∷ []);
}

usbc_new_address-NewAddress_example :
    Returns (λ address t. NewAddress 1 10 3 address t.dev_addr_bm) (usbc_new_address core)
usbc_new_address-NewAddress_example = usbc_new_address-NewAddress core

-- A descriptor of length 0 behind a configuration.
abbrev stuck : Buffer
stuck i = get_or (config_bytes ++ (0 ∷ 0x21 ∷ [])) i 0

stuck-Holds : Holds stuck 9 (config config_bytes ∷ []) 0
unfolding load_bytes
stuck-Holds = holds (config config_bytes) refl refl refl holds_end

usbc_verify_descriptors-hang_example : usbc_verify_descriptors 1000 stuck 11 ≡ hang
usbc_verify_descriptors-hang_example =
    usbc_verify_descriptors-hang 1000 stuck 11 9 (config config_bytes ∷ []) (omega arith)
      stuck-Holds (omega arith) refl (omega arith) (omega arith) (omega arith)

abbrev storage_driver : UsbDriver
storage_driver = record {
  connect = λ i. 1;
  dev_ids =
      record {
        flags = 0x20;
        vendor_id = 0;
        product_id = 0;
        dev_class = 0;
        dev_sub_class = 0;
        dev_protocol = 0;
        iface_class = 8;
        iface_sub_class = 0;
        iface_protocol = 0;
      }
      ∷ [];
}

abbrev storage_iface : UsbIface
storage_iface = record { desc = iface_bytes; eps = 0; num_eps = 1; driver = 0; assigned = 0 }

usbc_find_driver-Finds_example :
    ((storage_iface.assigned ≡ 1)
      × (usbc_find_driver (storage_driver ∷ []) new_device storage_iface ≡ none))
    ⊎ ((storage_iface.assigned ≢ 1)
        × Finds new_device storage_iface
            (storage_driver ∷ [])
            (usbc_find_driver (storage_driver ∷ []) new_device storage_iface))
usbc_find_driver-Finds_example =
    usbc_find_driver-Finds (storage_driver ∷ []) new_device storage_iface
