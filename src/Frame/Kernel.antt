-- ===== src/Frame/Kernel.antt =====
-- The kernel's receive handler beside the bootloader's.
use operating_system_cortex.Base.{
  ℕ, ◌≡◌, ◌≢◌, refl, Bool, true, false, Bool-cases, ne→==_false, ◌==◌, if◌then◌else◌, ok, bind,
  arith, inl, inr, ◌⊎◌,
}
use operating_system_cortex.Frame.{
  Bus, BusState, state_idle, state_cmd, state_size, state_payload, state_fcs, state_end,
  switch_state, finish_frame, send_response, timeout_reload, timeout_stop, is_idle, usart0_handler,
}
use operating_system_cortex.Frame.Exception.{
  KernelBus, kernel_timeout_stop, kernel_timeout_reload, kernel_send_response, kernel_end_frame,
  kernel_switch_state, stay_and_reset, usart0_exception,
}

if_same : {A : Type 0} (c : Bool) (x : A) → (if c then x else x) ≡ x
if_same true x = refl
if_same false x = refl

kernel_end_frame-finish_frame : (byte : ℕ) (b : Bus) → kernel_end_frame byte b ≡ finish_frame byte b
unfolding kernel_end_frame finish_frame kernel_send_response send_response
kernel_end_frame-finish_frame byte b = ground arith

kernel_switch_state-switch_state :
    (s : BusState) (byte : ℕ) (b : Bus) → kernel_switch_state s byte b ≡ switch_state s byte b
unfolding kernel_switch_state switch_state kernel_timeout_stop timeout_stop kernel_timeout_reload
    timeout_reload
kernel_switch_state-switch_state state_idle byte b = refl
kernel_switch_state-switch_state state_cmd byte b = refl
kernel_switch_state-switch_state state_size byte b = refl
kernel_switch_state-switch_state state_payload byte b = refl
kernel_switch_state-switch_state state_fcs byte b = refl
kernel_switch_state-switch_state state_end byte b = rw (kernel_end_frame-finish_frame byte b) refl

-- On a byte that is not zero, and on any byte inside a frame, the kernel's handler does to the bus
-- what the bootloader's does, and leaves the boot signature and asks for no reset.
pub usart0_exception-usart0_handler :
    (byte : ℕ) (k : KernelBus)
    → (byte ≢ 0) ⊎ (is_idle k.bus.bus_state ≡ false)
    → usart0_exception byte k ≡ bind (usart0_handler byte k.bus) (λ b. ok (record k { bus = b }))
unfolding usart0_exception usart0_handler timeout_reload kernel_timeout_reload stay_and_reset
usart0_exception-usart0_handler byte k (inl ne) =
    rw (ne→==_false byte 0 ne, if_same, kernel_switch_state-switch_state) refl
usart0_exception-usart0_handler byte k (inr e) = elim (Bool-cases (byte == 0)) [
  | inl z ↦ rw (z, e, e, kernel_switch_state-switch_state) refl
  | inr z ↦ rw (z, e, e, kernel_switch_state-switch_state) refl
]
