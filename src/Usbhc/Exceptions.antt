-- ===== src/Usbhc/Exceptions.antt =====
-- kernel/src/drivers/usbhc.c: the interrupt handlers of the root hub and of the pipes, and the start of
-- the driver. Printing is left out.
use operating_system_cortex.Base.{
  ℕ, zero, suc, ◌+◌, ◌/◌, ◌%◌, ◌^◌, ◌==◌, not, ◌||◌, if◌then◌else◌, List, [], Cmd, ok, hang, pure,
  stop, ◌>>=◌, ◌>>◌, test_bit,
}
use operating_system_cortex.Usb.Enumeration.{connection, reset_sent}
use operating_system_cortex.Usbhc.{
  free, UsbPipe, clear_status, reset_assert, reset_deassert, disable_pipe, set_configuration,
  global_clear_status, global_enable_interrupt, global_disable_interrupt, unfreeze_clock,
  set_host_mode, enable, vbus_request_enable, set_host_speed_normal, send_reset, Registers, Usbhc,
  Callbacks, load_pipe, store_pipe, set_pipe_state, act, read_register,
}
use operating_system_cortex.Usbhc.Transfers.{
  usbhc_pipe_setup_sent, usbhc_pipe_receive_in, usbhc_transmit_out,
}
use operating_system_cortex.Usbhc.Pipes.{usbhc_pick_interrupted_pipe}

module _ {H : Type 0} (registers : Registers H) (callbacks : Callbacks H) where
  -- A handler that runs where a bit of the status is set.
  unfoldable pub on_bit : (isr bit : ℕ) → Cmd (Usbhc H) (Unit {0}) → Cmd (Usbhc H) (Unit {0})
  on_bit isr bit handler = if test_bit isr bit then handler else pure tt

  unfoldable pub usbhc_pipe_init : (n : ℕ) → Cmd (Usbhc H) (Unit {0})
  usbhc_pipe_init n = do
    p ← load_pipe n
    store_pipe n (record p { urb_list = []; state = free })
    act registers (set_configuration p.num 0)
    act registers (reset_assert p.num)
    act registers (reset_deassert p.num)
    act registers (disable_pipe p.num)

  unfoldable pub usbhc_pipe_soft_reset : (n : ℕ) → Cmd (Usbhc H) (Unit {0})
  usbhc_pipe_soft_reset n = set_pipe_state n free

  unfoldable pub usbhc_early_init : Cmd (Usbhc H) (Unit {0})
  usbhc_early_init = do
    act registers unfreeze_clock
    act registers set_host_mode
    act registers enable

  -- The loop over the pipes from `n` on.
  unfoldable pub init_pipes : (left n : ℕ) → Cmd (Usbhc H) (Unit {0})
  init_pipes zero n = pure tt
  init_pipes (suc left) n = do
    p ← load_pipe n
    store_pipe n (record p { num = n })
    usbhc_pipe_init n
    init_pipes left (suc n)

  -- The allocator of the URBs and the callbacks are set up elsewhere.
  unfoldable pub usbhc_init : List UsbPipe → (pipe_count : ℕ) → Cmd (Usbhc H) (Unit {0})
  usbhc_init pipes pipe_count = do
    usbhc_early_init
    act registers (global_disable_interrupt 0xFFFFFFFF)
    act registers (global_clear_status 0xFFFFFFFF)
    act registers vbus_request_enable
    λ s. ok (tt, record s { pipes = pipes })
    init_pipes pipe_count 0
    act registers (global_clear_status (2 ^ 0 + 2 ^ 6))
    act registers (global_enable_interrupt (2 ^ 0 + 2 ^ 6))

  unfoldable pub usbhc_send_reset : Cmd (Usbhc H) (Unit {0})
  usbhc_send_reset = do act registers set_host_speed_normal; act registers send_reset

  unfoldable pub usbhc_naked : (n : ℕ) → Cmd (Usbhc H) (Unit {0})
  usbhc_naked n = do p ← load_pipe n; act registers (clear_status p.num (2 ^ 4))

  unfoldable pub usbhc_root_hub_connect : Cmd (Usbhc H) (Unit {0})
  usbhc_root_hub_connect = do
    act registers (global_clear_status (2 ^ 0))
    act registers (global_disable_interrupt (2 ^ 0))
    act registers (global_clear_status (2 ^ 2 + 2 ^ 1 + 2 ^ 5))
    act registers (global_enable_interrupt (2 ^ 2 + 2 ^ 1 + 2 ^ 5))
    callbacks.root_hub connection

  unfoldable pub usbhc_root_hub_disconnect : Cmd (Usbhc H) (Unit {0})
  usbhc_root_hub_disconnect = act registers (global_disable_interrupt (2 ^ 1))

  unfoldable pub usbhc_root_hub_reset : Cmd (Usbhc H) (Unit {0})
  usbhc_root_hub_reset = do
    act registers (global_clear_status (2 ^ 2))
    act registers (global_disable_interrupt (2 ^ 2))
    callbacks.root_hub reset_sent

  -- A wakeup ends in an empty loop.
  unfoldable pub usbhc_root_hub_exception : (isr : ℕ) → Cmd (Usbhc H) (Unit {0})
  usbhc_root_hub_exception isr = do
    on_bit isr 0 usbhc_root_hub_connect
    on_bit isr 1 usbhc_root_hub_disconnect
    on_bit isr 6 (λ s. hang)
    on_bit isr 2 usbhc_root_hub_reset

  -- An error panics; the masked handlers need the bit in the mask, too.
  unfoldable pub usbhc_pipe_exception : (isr : ℕ) → Cmd (Usbhc H) (Unit {0})
  usbhc_pipe_exception isr = do
    n ← usbhc_pick_interrupted_pipe (isr / 2 ^ 8 % 2 ^ 10)
    act registers (global_clear_status (2 ^ (n + 8)))
    pipe_isr ← read_register registers (registers.pipe_status n)
    pipe_imr ← read_register registers (registers.interrupt_mask n)
    load_pipe n
    on_bit pipe_isr 3 stop
    on_bit pipe_isr 4 (usbhc_naked n)
    on_bit pipe_isr 2 (usbhc_pipe_setup_sent registers callbacks n)
    on_bit pipe_isr 0 (on_bit pipe_imr 0 (usbhc_pipe_receive_in registers callbacks n))
    on_bit pipe_isr 1 (on_bit pipe_imr 1 (usbhc_transmit_out registers callbacks n))

  unfoldable pub usbhc_sof_exception : Cmd (Usbhc H) (Unit {0})
  usbhc_sof_exception = do act registers (global_clear_status (2 ^ 5)); callbacks.sof

  unfoldable pub usb_exception : Cmd (Usbhc H) (Unit {0})
  usb_exception = do
    isr ← read_register registers registers.global_status
    on_bit isr 5 usbhc_sof_exception
    if not (isr / 2 ^ 8 % 2 ^ 10 == 0) then usbhc_pipe_exception isr else pure tt
    if not (isr % 2 ^ 5 == 0) || test_bit isr 6 then usbhc_root_hub_exception isr else pure tt
    act registers (global_clear_status 0xFFFFFFFF)
