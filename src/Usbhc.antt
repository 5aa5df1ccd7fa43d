-- ===== src/Usbhc.antt =====
-- kernel/src/drivers/usbhc.c: the state of the USB host controller's driver, its pipes and its URBs,
-- over the registers as an interface. A pipe is its number, a queue of URBs the sequence of their
-- addresses; the functions of usbhw.h are the actions on the registers.
pub mod Transfers
pub mod Pipes
pub mod Exceptions
pub mod Receive
pub mod Pick
pub mod Queue
pub mod Sizes
pub mod Tests
use operating_system_cortex.Base.{
  ℕ, zero, suc, ◌+◌, ◌^◌, Bool, true, false, ◌==◌, if◌then◌else◌, List, [], ◌∷◌, Option, none, some,
  Cmd, ok, fault, pure, ◌>>=◌, ◌>>◌, bind, continue, get_elem?, set,
}
use operating_system_cortex.Dlist.{Ptr}
use operating_system_cortex.Bytes.{Bytes}
use operating_system_cortex.Usb.Requests.{UrbStatus}
use operating_system_cortex.Usb.Enumeration.{RootHubEvent}

-- `enum pipe_state`
pub data PipeState : Type 0 where
  free : PipeState
  claimed : PipeState
  idle : PipeState
  ctrl_out : PipeState
  zlp_in : PipeState
  zlp_out : PipeState
  in_stage : PipeState
  out_stage : PipeState
  status_stage : PipeState
  error_stage : PipeState

pub data PipeToken : Type 0 where
  setup : PipeToken
  in_token : PipeToken
  out_token : PipeToken

-- `struct pipe_config`; the type is the number of `enum pipe_type`.
pub record PipeConfig : Type 0 where
  pub dev_addr : ℕ
  pub ep_addr : ℕ
  pub size : ℕ
  pub frequency : ℕ
  pub banks : ℕ
  pub bank_switch : ℕ
  pub type : ℕ

-- `struct usb_pipe`
pub record UsbPipe : Type 0 where
  pub num : ℕ
  pub urb_list : List Ptr
  pub state : PipeState
  pub type : ℕ
  pub ep_size : ℕ
  pub config : PipeConfig

-- `struct urb`, without its queue node and its callback
pub record UrbBlock : Type 0 where
  pub flags : ℕ
  pub setup_buffer : Ptr
  pub transfer_buffer : Ptr
  pub transfer_length : ℕ
  pub acctual_length : ℕ
  pub status : UrbStatus

-- The writes to the registers; those of a pipe begin with its number.
pub data Action : Type 0 where
  clear_status : (pipe mask : ℕ) → Action
  enable_interrupt : (pipe mask : ℕ) → Action
  disable_interrupt : (pipe mask : ℕ) → Action
  set_token : (pipe : ℕ) → PipeToken → Action
  write_fifo : (pipe : ℕ) → List ℕ → Action
  in_request_defined : (pipe count : ℕ) → Action
  in_request_continous : (pipe : ℕ) → Action
  reset_assert : (pipe : ℕ) → Action
  reset_deassert : (pipe : ℕ) → Action
  enable_pipe : (pipe : ℕ) → Action
  disable_pipe : (pipe : ℕ) → Action
  set_configuration : (pipe cfg : ℕ) → Action
  set_addr : (pipe addr : ℕ) → Action
  global_clear_status : (mask : ℕ) → Action
  global_enable_interrupt : (mask : ℕ) → Action
  global_disable_interrupt : (mask : ℕ) → Action
  unfreeze_clock : Action
  set_host_mode : Action
  enable : Action
  vbus_request_enable : Action
  set_host_speed_normal : Action
  send_reset : Action

-- The registers: what is read from them, and what a write does.
pub record Registers (H : Type 0) : Type 0 where
  pub byte_count : ℕ → H → ℕ
  pub fifo : (pipe index : ℕ) → H → ℕ
  pub pipe_status : ℕ → H → ℕ
  pub interrupt_mask : ℕ → H → ℕ
  pub configuration : ℕ → H → ℕ
  pub global_status : H → ℕ
  pub write : Action → H → H

-- `struct usbhc`, the URBs and the memory of their buffers, and the static of
-- usbhc_pick_interrupted_pipe.
pub record Usbhc (H : Type 0) : Type 0 where
  pub pipes : List UsbPipe
  pub urb_at : Ptr → UrbBlock
  pub memory : Bytes
  pub pipe_start : ℕ
  pub registers : H

-- The functions that the layer above gives: of an URB, of the root hub, and of a frame.
pub record Callbacks (H : Type 0) : Type 0 where
  pub urb_done : Ptr → Cmd (Usbhc H) (Unit {0})
  pub root_hub : RootHubEvent → Cmd (Usbhc H) (Unit {0})
  pub sof : Cmd (Usbhc H) (Unit {0})

-- A pipe out of the array is a fault.
unfoldable pub pointed : {H : Type 0} → Option UsbPipe → Cmd (Usbhc H) UsbPipe
pointed none = λ s. fault
pointed (some p) = pure p

unfoldable pub load_pipe : {H : Type 0} → (n : ℕ) → Cmd (Usbhc H) UsbPipe
load_pipe n s = pointed (get_elem? s.pipes n) s

unfoldable pub store_pipe : {H : Type 0} → (n : ℕ) → UsbPipe → Cmd (Usbhc H) (Unit {0})
store_pipe n p s = ok (tt, record s { pipes = set s.pipes n p })

unfoldable pub set_pipe_state : {H : Type 0} → (n : ℕ) → PipeState → Cmd (Usbhc H) (Unit {0})
set_pipe_state n state = do p ← load_pipe n; store_pipe n (record p { state = state })

unfoldable pub load_urb : {H : Type 0} → Ptr → Cmd (Usbhc H) UrbBlock
load_urb u s = ok (s.urb_at u, s)

unfoldable pub store_urb : {H : Type 0} → Ptr → UrbBlock → Cmd (Usbhc H) (Unit {0})
store_urb u v s = ok (tt, record s { urb_at = λ a. if a == u then v else s.urb_at a })

module _ {H : Type 0} (registers : Registers H) where
  unfoldable pub act : Action → Cmd (Usbhc H) (Unit {0})
  act a s = ok (tt, record s { registers = registers.write a s.registers })

  unfoldable pub read_register : (H → ℕ) → Cmd (Usbhc H) ℕ
  read_register f s = ok (f s.registers, s)

-- Masks of the interrupts of a pipe, and of the controller.
abbrev pub usbhw_rxin : ℕ
usbhw_rxin = 2 ^ 0

abbrev pub usbhw_txout : ℕ
usbhw_txout = 2 ^ 1

abbrev pub usbhw_txsetup : ℕ
usbhw_txsetup = 2 ^ 2

abbrev pub usbhw_shortpkt : ℕ
usbhw_shortpkt = 2 ^ 7

abbrev pub usbhw_fifo_ctrl : ℕ
usbhw_fifo_ctrl = 2 ^ 14

abbrev pub usbhw_pfreeze : ℕ
usbhw_pfreeze = 2 ^ 17
