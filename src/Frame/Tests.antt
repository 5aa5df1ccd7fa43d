-- ===== src/Frame/Tests.antt =====
-- Frames on a bus that has just been initialised.
use operating_system_cortex.Base.{
  ℕ, ◌≡◌, refl, false, [], ◌∷◌, ◌++◌, replicate, length-replicate, arith, ok, fault, bind, inl,
}
use operating_system_cortex.Frame.{Bus, state_idle, receive, usart0_handler, timer0_ch0_handler}
use operating_system_cortex.Frame.Receive.{frame_start, frame_with, judged, receive-judged}
use operating_system_cortex.Frame.Accept.{
  encode, Accepted, timer0_ch0_handler-receive, receive-overrun,
}
use operating_system_cortex.Frame.Invariant.{IsBus, Keeps, usart0_handler-IsBus}
use operating_system_cortex.Frame.Exception.{
  KernelBus, stay_in_bootloader, stay_and_reset, kernel_switch_state, usart0_exception,
}
use operating_system_cortex.Frame.Kernel.{usart0_exception-usart0_handler}

abbrev start : Bus
start = record {
  bus_state = state_idle;
  frame = record { cmd = 0; size = 0; payload = replicate 512 0; fcs = 0 };
  frame_index = 0;
  frame_received = 0;
  timer = false;
  sent = [];
}

start-IsBus : IsBus start
start-IsBus = record { timed = refl; room = length-replicate {A = ℕ} 512 0; index_ok = tt }

abbrev kernel : KernelBus
kernel = record { bus = start; boot_signature = replicate 32 0; resets = 0 }

receive-judged_example :
    receive (frame_with 2 (7 ∷ 8 ∷ []) 0 0x55) start ≡ ok (judged start 2 (7 ∷ 8 ∷ []) 0 0x55)
receive-judged_example =
    receive-judged start 2 7 (8 ∷ []) 0 0x55 refl (length-replicate {A = ℕ} 512 0) (omega arith)

timer0_ch0_handler-receive_example :
    (b' : Bus) × (receive (encode 2 (7 ∷ 8 ∷ [])) (timer0_ch0_handler start) ≡ ok b')
    × Accepted start 2 (7 ∷ 8 ∷ []) b'
timer0_ch0_handler-receive_example =
    timer0_ch0_handler-receive start 2 7 (8 ∷ []) (length-replicate {A = ℕ} 512 0) (omega arith)

receive-overrun_example : receive (frame_start 2 600 ++ replicate 512 1 ++ 9 ∷ []) start ≡ fault
receive-overrun_example =
    receive-overrun start 2 600 (replicate 512 1) 9 refl (length-replicate {A = ℕ} 512 0)
      (length-replicate {A = ℕ} 512 1) (omega arith) (omega arith)

usart0_handler-IsBus_example : Keeps (usart0_handler 0xAA start)
usart0_handler-IsBus_example = usart0_handler-IsBus start 0xAA start-IsBus (omega arith)

usart0_exception-usart0_handler_example :
    usart0_exception 0xAA kernel
    ≡ bind (usart0_handler 0xAA kernel.bus) (λ b. ok (record kernel { bus = b }))
usart0_exception-usart0_handler_example =
    usart0_exception-usart0_handler 0xAA kernel (inl (λ e. omega (arith, e)))

-- A zero byte on the idle bus writes the signature and resets.
exception_zero :
    usart0_exception 0 kernel
    ≡ ok (record kernel { boot_signature = stay_in_bootloader ++ replicate 16 0; resets = 1 })
unfolding usart0_exception stay_and_reset kernel_switch_state
exception_zero = refl
