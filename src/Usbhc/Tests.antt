-- ===== src/Usbhc/Tests.antt =====
-- kernel/src/drivers/usbhc.c: runs on two pipes, with registers that keep what they are.
use operating_system_cortex.Base.{
  ◌>>◌, ok, set, ℕ, ◌+◌, ◌≡◌, refl, true, [], ◌∷◌, some, pure, Returns, arith,
}
use operating_system_cortex.Usb.Requests.{ok_status}
use operating_system_cortex.Usbhc.{
  idle, load_pipe, pointed, store_pipe, free, in_stage, PipeConfig, UsbPipe, UrbBlock, Registers,
  Usbhc, Callbacks,
}
use operating_system_cortex.Usbhc.Transfers.{
  is_state, start_if_empty, usbhc_in, usbhc_submit_urb, usbhc_end_urb, start_first,
}
use operating_system_cortex.Usbhc.Pipes.{usbhc_pick_interrupted_pipe, usbhc_size_to_pipe_size}
use operating_system_cortex.Usbhc.Receive.{Fetched, usbhc_in-Fetched}
use operating_system_cortex.Usbhc.Queue.{ended, usbhc_submit_urb-usbhc_end_urb}
use operating_system_cortex.Usbhc.Pick.{Picked, around, usbhc_pick_interrupted_pipe-Picked}
use operating_system_cortex.Usbhc.Sizes.{Smallest, usbhc_size_to_pipe_size-Smallest}

abbrev registers : Registers ℕ
registers = record {
  byte_count = λ n h. 8;
  fifo = λ n i h. 100 + i;
  pipe_status = λ n h. 1;
  interrupt_mask = λ n h. 1;
  configuration = λ n h. 0;
  global_status = λ h. 0x100;
  write = λ a h. h + 1;
}

abbrev callbacks : Callbacks ℕ
callbacks = record { urb_done = λ u. pure tt; root_hub = λ e. pure tt; sof = pure tt }

abbrev config : PipeConfig
config = record {
  dev_addr = 0;
  ep_addr = 0;
  size = 64;
  frequency = 0;
  banks = 1;
  bank_switch = 0;
  type = 0;
}

abbrev control_pipe : UsbPipe
control_pipe = record {
  num = 0;
  urb_list = 500 ∷ [];
  state = in_stage;
  type = 0;
  ep_size = 64;
  config = config;
}

abbrev urb : UrbBlock
urb = record {
  flags = 1;
  setup_buffer = 1000;
  transfer_buffer = 2000;
  transfer_length = 10;
  acctual_length = 4;
  status = ok_status;
}

abbrev controller : Usbhc ℕ
controller = record {
  pipes = control_pipe ∷ record control_pipe { num = 1; urb_list = []; state = free } ∷ [];
  urb_at = λ u. urb;
  memory = λ a. 0;
  pipe_start = 7;
  registers = 0;
}

-- Of eight bytes six have room.
usbhc_in-Fetched_example :
    Returns
      (λ short t. Fetched registers 0 500 2004 0 6 urb controller t × (short ≡ true))
      (usbhc_in registers callbacks 0 500 controller)
usbhc_in-Fetched_example =
    usbhc_in-Fetched registers callbacks 0 500 control_pipe urb controller refl refl (omega arith)
      (omega arith)

usbhc_pick_interrupted_pipe-Picked_example :
    Returns
      (λ pipe t. Picked 5 7 pipe × (t.pipe_start ≡ around 7 1))
      (usbhc_pick_interrupted_pipe 5 controller)
usbhc_pick_interrupted_pipe-Picked_example =
    usbhc_pick_interrupted_pipe-Picked 5 7 2 controller refl (omega arith) (omega arith) refl

usbhc_size_to_pipe_size-Smallest_example :
    (pipe_size : ℕ) × (usbhc_size_to_pipe_size 33 ≡ some pipe_size) × Smallest 33 pipe_size
usbhc_size_to_pipe_size-Smallest_example =
    usbhc_size_to_pipe_size-Smallest 33 (omega arith) (omega arith)

-- A callback that submits its URB again.
abbrev again : Callbacks ℕ
again = record callbacks { urb_done = λ u. usbhc_submit_urb registers callbacks u 0 }

abbrev both_again : Usbhc ℕ
both_again =
    let s = ended 0 control_pipe 500 ok_status (600 ∷ []) controller in
    record s {
      pipes = set s.pipes 0 (record control_pipe { state = idle; urb_list = 600 ∷ 500 ∷ [] });
    }

submitted_again :
    again.urb_done 500 (ended 0 control_pipe 500 ok_status (600 ∷ []) controller)
    ≡ ok (tt, both_again)
unfolding usbhc_submit_urb load_pipe pointed store_pipe start_if_empty
submitted_again = refl

usbhc_submit_urb-usbhc_end_urb_example :
    (usbhc_submit_urb registers again 600 0 >> usbhc_end_urb registers again 500 0 ok_status)
      controller
    ≡ start_first registers again (600 ∷ 500 ∷ []) 0 both_again
unfolding is_state
usbhc_submit_urb-usbhc_end_urb_example =
    usbhc_submit_urb-usbhc_end_urb registers again 0 control_pipe
      (record control_pipe { state = idle; urb_list = 600 ∷ 500 ∷ [] }) 500 600 [] ok_status
      controller both_again refl refl refl submitted_again refl
