-- ===== src/Usbhc/Transfers.antt =====
-- kernel/src/drivers/usbhc.c: the transfer of an URB, from its start over the interrupts of its pipe
-- to its end. Printing is left out.
use operating_system_cortex.Base.{
  ℕ, zero, suc, ◌+◌, Bool, true, false, ◌==◌, leb, not, if◌then◌else◌, List, [], ◌∷◌, ◌++◌, Cmd, ok,
  fault, pure, stop, ◌>>=◌, ◌>>◌, u32, test_bit,
}
use operating_system_cortex.Dlist.{Ptr}
use operating_system_cortex.Usb.Requests.{UrbStatus, ok_status}
use operating_system_cortex.Usbhc.{
  PipeState, free, claimed, idle, ctrl_out, zlp_in, zlp_out, in_stage, out_stage, status_stage,
  error_stage, setup, in_token, out_token, clear_status, enable_interrupt, disable_interrupt,
  set_token, write_fifo, in_request_defined, in_request_continous, reset_assert, reset_deassert,
  Registers, Usbhc, Callbacks, load_pipe, store_pipe, set_pipe_state, load_urb, store_urb, act,
  read_register, usbhw_rxin, usbhw_txout, usbhw_txsetup, usbhw_shortpkt, usbhw_fifo_ctrl,
  usbhw_pfreeze,
}

unfoldable pub is_state : PipeState → PipeState → Bool
is_state idle idle = true
is_state ctrl_out ctrl_out = true
is_state zlp_in zlp_in = true
is_state zlp_out zlp_out = true
is_state claimed claimed = true
is_state free free = true
is_state in_stage in_stage = true
is_state out_stage out_stage = true
is_state status_stage status_stage = true
is_state error_stage error_stage = true
is_state s t = false

-- `list_get_entry(pipe->urb_list.next, ...)`
unfoldable pub first_urb : {H : Type 0} → List Ptr → Cmd (Usbhc H) Ptr
first_urb [] = λ s. fault
first_urb (u ∷ us) = pure u

-- `list_delete_node`
unfoldable pub remove_urb : Ptr → List Ptr → List Ptr
remove_urb u [] = []
remove_urb u (v ∷ vs) = let rest = remove_urb u vs in if u == v then vs else v ∷ rest

unfoldable pub store_received : {H : Type 0} → (dest byte : ℕ) → Cmd (Usbhc H) (Unit {0})
store_received dest byte s =
    ok (tt, record s { memory = λ a. if a == dest then byte else s.memory a })

unfoldable pub load_setup : {H : Type 0} → (count : ℕ) → Ptr → Cmd (Usbhc H) (List ℕ)
load_setup zero p = pure []
load_setup (suc count) p = do bytes ← load_setup count (suc p); λ s. pure (s.memory p ∷ bytes) s

module _ {H : Type 0} (registers : Registers H) (callbacks : Callbacks H) where
  -- The loop of usbhc_in.
  unfoldable pub receive_bytes :
      (count n : ℕ) → (u dest : Ptr) → (index : ℕ) → Cmd (Usbhc H) (Unit {0})
  receive_bytes zero n u dest index = pure tt
  receive_bytes (suc count) n u dest index = do
    byte ← read_register registers (registers.fifo n index)
    store_received dest byte
    urb ← load_urb u
    store_urb u (record urb { acctual_length = u32 (urb.acctual_length + 1) })
    if u32 (urb.acctual_length + 1) == urb.transfer_length
        then pure tt
        else receive_bytes count n u (suc dest) (suc index)

  unfoldable pub usbhc_in : (n : ℕ) → (u : Ptr) → Cmd (Usbhc H) Bool
  usbhc_in n u = do
    p ← load_pipe n
    fifo_count ← read_register registers (registers.byte_count p.num)
    urb ← load_urb u
    receive_bytes fifo_count p.num u (urb.transfer_buffer + urb.acctual_length) 0
    act registers (disable_interrupt p.num usbhw_fifo_ctrl)
    pure (not (fifo_count == p.ep_size))

  -- The answer is 0 while the FIFO is not empty, which no caller reads.
  unfoldable pub usbhc_setup_out : (n : ℕ) → (setup_buffer : Ptr) → Cmd (Usbhc H) (Unit {0})
  usbhc_setup_out n setup_buffer = do
    p ← load_pipe n
    fifo_count ← read_register registers (registers.byte_count p.num)
    bytes ← load_setup 8 setup_buffer
    if not (fifo_count == 0) then pure tt else (do
      act registers (clear_status p.num usbhw_txsetup)
      act registers (set_token p.num setup)
      act registers (write_fifo p.num bytes)
      act registers (enable_interrupt p.num usbhw_txsetup)
      act registers (disable_interrupt p.num (usbhw_pfreeze + usbhw_fifo_ctrl)))

  unfoldable pub usbhc_control_status_out : (n : ℕ) → Cmd (Usbhc H) (Unit {0})
  usbhc_control_status_out n = do
    p ← load_pipe n
    fifo_count ← read_register registers (registers.byte_count p.num)
    if not (fifo_count == 0) then stop else (do
      act registers (clear_status p.num usbhw_txout)
      act registers (set_token p.num out_token)
      act registers (enable_interrupt p.num usbhw_txout)
      act registers (disable_interrupt p.num (usbhw_fifo_ctrl + usbhw_pfreeze)))

  unfoldable pub usbhc_send_in : (n : ℕ) → Cmd (Usbhc H) (Unit {0})
  usbhc_send_in n = do
    p ← load_pipe n
    act registers (clear_status p.num (usbhw_rxin + usbhw_shortpkt))
    act registers (in_request_defined p.num 1)
    act registers (set_token p.num in_token)
    act registers (enable_interrupt p.num usbhw_rxin)
    act registers (disable_interrupt p.num (usbhw_fifo_ctrl + usbhw_pfreeze))

  unfoldable pub start_interrupt_in : (n : ℕ) → Cmd (Usbhc H) (Unit {0})
  start_interrupt_in n = do
    p ← load_pipe n
    act registers (reset_assert p.num)
    act registers (reset_deassert p.num)
    set_pipe_state n in_stage
    act registers (in_request_continous p.num)
    act registers (disable_interrupt p.num usbhw_pfreeze)
    act registers (enable_interrupt p.num 0xFF)

  -- Bit 0 of the flags is URB_FLAGS_SETUP, and bit 3 URB_FLAGS_INTERRUPT_IN.
  unfoldable pub usbhc_start_urb : (u : Ptr) → (n : ℕ) → Cmd (Usbhc H) (Unit {0})
  usbhc_start_urb u n = do
    urb ← load_urb u
    store_urb u (record urb { acctual_length = 0 })
    if test_bit urb.flags 0
        then (do set_pipe_state n ctrl_out; usbhc_setup_out n urb.setup_buffer)
        else if test_bit urb.flags 3
        then start_interrupt_in n
        else pure tt

  unfoldable pub set_urb_status : (u : Ptr) → UrbStatus → Cmd (Usbhc H) (Unit {0})
  set_urb_status u result = do urb ← load_urb u; store_urb u (record urb { status = result })

  unfoldable pub start_first : List Ptr → ℕ → Cmd (Usbhc H) (Unit {0})
  start_first [] n = pure tt
  start_first (u ∷ us) n = usbhc_start_urb u n

  -- The next URB of the queue, if the callback has not started one.
  unfoldable pub start_next : (n : ℕ) → Cmd (Usbhc H) (Unit {0})
  start_next n = do
    p ← load_pipe n
    if is_state p.state idle then start_first p.urb_list n else pure tt

  unfoldable pub usbhc_end_urb : (u : Ptr) → (n : ℕ) → UrbStatus → Cmd (Usbhc H) (Unit {0})
  usbhc_end_urb u n result = do
    urb ← load_urb u
    if test_bit urb.flags 3 then (do set_urb_status u result; callbacks.urb_done u) else (do
      p ← load_pipe n
      store_pipe n (record p { state = idle; urb_list = remove_urb u p.urb_list })
      set_urb_status u result
      callbacks.urb_done u
      start_next n)

  unfoldable pub usbhc_abort_transfer : (n : ℕ) → Cmd (Usbhc H) (Unit {0})
  usbhc_abort_transfer n = do
    p ← load_pipe n
    act registers (reset_assert p.num)
    act registers (reset_deassert p.num)

  -- usbhc_out only prints.
  unfoldable pub usbhc_out : (n : ℕ) → (u : Ptr) → Cmd (Usbhc H) (Unit {0})
  usbhc_out n u = pure tt

  unfoldable pub data_stage : ℕ → List ℕ → Ptr → ℕ → Cmd (Usbhc H) (Unit {0})
  data_stage zero req_type u n = do set_pipe_state n zlp_in; usbhc_send_in n
  data_stage (suc length) [] u n = pure tt
  data_stage (suc length) (req_type ∷ bytes) u n =
      if test_bit req_type 7
      then (do set_pipe_state n in_stage; usbhc_send_in n)
      else (do set_pipe_state n out_stage; usbhc_out n u)

  -- `(req_type & USB_HOST_TO_DEVICE) == USB_HOST_TO_DEVICE` holds for every byte.
  unfoldable pub usbhc_pipe_setup_sent : (n : ℕ) → Cmd (Usbhc H) (Unit {0})
  usbhc_pipe_setup_sent n = do
    p ← load_pipe n
    if not (is_state p.state ctrl_out) then stop else (do
      act registers (clear_status p.num usbhw_txsetup)
      u ← first_urb p.urb_list
      urb ← load_urb u
      req_type ← load_setup 1 urb.setup_buffer
      data_stage urb.transfer_length req_type u n)

  -- A short packet ends the data, after a status stage on a control pipe (type 0).
  unfoldable pub short_packet : (u : Ptr) → (n : ℕ) → Cmd (Usbhc H) (Unit {0})
  short_packet u n = do
    p ← load_pipe n
    act registers (disable_interrupt p.num usbhw_rxin)
    if p.type == 0
        then (do set_pipe_state n zlp_out; usbhc_control_status_out n)
        else usbhc_end_urb u n ok_status

  unfoldable pub receive_data : (u : Ptr) → (n : ℕ) → Cmd (Usbhc H) (Unit {0})
  receive_data u n = do
    short_pkt ← usbhc_in n u
    urb ← load_urb u
    if short_pkt
        then short_packet u n
        else if leb urb.transfer_length urb.acctual_length
        then usbhc_end_urb u n ok_status
        else usbhc_send_in n

  unfoldable pub usbhc_pipe_receive_in : (n : ℕ) → Cmd (Usbhc H) (Unit {0})
  usbhc_pipe_receive_in n = do
    p ← load_pipe n
    act registers (clear_status p.num (usbhw_rxin + usbhw_shortpkt))
    u ← first_urb p.urb_list
    if is_state p.state zlp_in then usbhc_end_urb u n ok_status else receive_data u n

  unfoldable pub usbhc_transmit_out : (n : ℕ) → Cmd (Usbhc H) (Unit {0})
  usbhc_transmit_out n = do
    p ← load_pipe n
    act registers (clear_status p.num usbhw_txout)
    if is_state p.state zlp_out
        then (do
          u ← first_urb p.urb_list
          act registers (enable_interrupt p.num (usbhw_pfreeze + usbhw_fifo_ctrl))
          act registers (in_request_defined p.num 1)
          usbhc_end_urb u n ok_status)
        else pure tt

  unfoldable pub start_if_empty : List Ptr → Ptr → ℕ → Cmd (Usbhc H) (Unit {0})
  start_if_empty [] u n = usbhc_start_urb u n
  start_if_empty (v ∷ vs) u n = pure tt

  unfoldable pub usbhc_submit_urb : (u : Ptr) → (n : ℕ) → Cmd (Usbhc H) (Unit {0})
  usbhc_submit_urb u n = do
    p ← load_pipe n
    store_pipe n (record p { urb_list = p.urb_list ++ (u ∷ []) })
    start_if_empty p.urb_list u n

  unfoldable pub usbhc_cancel_urb : (u : Ptr) → (n : ℕ) → Cmd (Usbhc H) (Unit {0})
  usbhc_cancel_urb u n = do
    p ← load_pipe n
    store_pipe n (record p { urb_list = remove_urb u p.urb_list })
