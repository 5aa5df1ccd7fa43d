-- ===== src/Frame/Exception.antt =====
-- kernel/src/kernel/bootloader.c: the kernel's receive handler, with its own copy of the frame state
-- machine. Its globals are those of the bootloader's frame.c, with the signature by which the
-- bootloader is told to stay. What is printed for people is left out.
use operating_system_cortex.Base.{
  ℕ, ◌+◌, ◌*◌, ◌^◌, true, false, ◌&&◌, ◌==◌, ltb, leb, if◌then◌else◌, List, [], ◌∷◌, ◌++◌, length,
  set, take, drop, u16, u32, bit_or, Run, ok, fault, bind,
}
use operating_system_cortex.Crc.{crc_calculate}
use operating_system_cortex.Frame.{
  Bus, BusState, state_idle, state_cmd, state_size, state_payload, state_fcs, state_end,
  frame_bytes, is_idle, start_byte, end_byte, polynomial, max_payload_size, resp_error,
  resp_fcs_error, resp_frame_error,
}

-- `resets` counts the resets that were asked for.
pub record KernelBus : Type 0 where
  pub bus : Bus
  pub boot_signature : List ℕ
  pub resets : ℕ

-- "StayInBootloader"
abbrev pub stay_in_bootloader : List ℕ
stay_in_bootloader =
    0x53 ∷ 0x74 ∷ 0x61 ∷ 0x79 ∷ 0x49 ∷ 0x6E ∷ 0x42 ∷ 0x6F ∷ 0x6F ∷ 0x74 ∷ 0x6C ∷ 0x6F ∷ 0x61 ∷ 0x64
    ∷ 0x65 ∷ 0x72 ∷ []

unfoldable pub kernel_timeout_stop : Bus → Bus
kernel_timeout_stop b = record b { timer = false }

unfoldable pub kernel_timeout_reload : Bus → Bus
kernel_timeout_reload b = record b { timer = true }

unfoldable pub kernel_send_response : (error_code : ℕ) → Bus → Bus
kernel_send_response error_code b = record b { frame_received = 0; sent = error_code ∷ b.sent }

-- The check of `STATE_END`, of the first size + 3 bytes of the struct, which must lie in it.
unfoldable pub kernel_end_frame : (byte : ℕ) → Bus → Run Bus
kernel_end_frame byte b =
    if byte == end_byte
    then if leb (b.frame.size + 3) (length (frame_bytes b.frame))
      then (let fcs = crc_calculate (take (b.frame.size + 3) (frame_bytes b.frame)) polynomial in
          if fcs == b.frame.fcs
          then ok (record b { frame_received = 1 })
          else ok (kernel_send_response (bit_or resp_error resp_fcs_error) b))
      else fault
    else ok (kernel_send_response (bit_or resp_error resp_frame_error) b)

-- The `switch` of the handler. A write behind the payload's end is a fault.
unfoldable pub kernel_switch_state : BusState → (byte : ℕ) → Bus → Run Bus
kernel_switch_state state_idle byte b =
    if byte == start_byte
    then ok (kernel_timeout_reload (record b { bus_state = state_cmd }))
    else ok b
kernel_switch_state state_cmd byte b = ok (record b {
  frame = record (b.frame) { cmd = byte; size = 0 };
  bus_state = state_size;
  frame_index = 0;
})
kernel_switch_state state_size byte b =
    let size = u16 (bit_or b.frame.size (byte * 2 ^ (8 * b.frame_index))) in
    let frame_index = u32 (b.frame_index + 1) in
    if leb 2 frame_index
    then ok (record b {
      frame = record (b.frame) { size = size };
      bus_state = state_payload;
      frame_index = 0;
    })
    else ok (record b { frame = record (b.frame) { size = size }; frame_index = frame_index })
kernel_switch_state state_payload byte b =
    if ltb b.frame_index max_payload_size
    then (let stored = record b {
      frame = record (b.frame) { payload = set b.frame.payload b.frame_index byte };
      frame_index = u32 (b.frame_index + 1);
    } in
        if leb b.frame.size stored.frame_index
        then ok (record stored { bus_state = state_fcs })
        else ok stored)
    else fault
kernel_switch_state state_fcs byte b =
    ok (record b { frame = record (b.frame) { fcs = byte }; bus_state = state_end })
kernel_switch_state state_end byte b =
    bind (kernel_end_frame byte b)
      (λ b'. ok (kernel_timeout_stop (record b' { bus_state = state_idle })))

-- A zero byte on the idle bus: the signature is written and the processor is told to reset.
unfoldable pub stay_and_reset : (byte : ℕ) → KernelBus → KernelBus
stay_and_reset byte k =
    if (byte == 0) && is_idle k.bus.bus_state
    then record k {
      boot_signature = stay_in_bootloader ++ drop 16 k.boot_signature;
      resets = k.resets + 1;
    }
    else k

-- `usart0_exception`, for the byte that `serial_read` gives.
unfoldable pub usart0_exception : (byte : ℕ) → KernelBus → Run KernelBus
usart0_exception byte k =
    let bus = if is_idle k.bus.bus_state then k.bus else kernel_timeout_reload k.bus in
    let k₁ = stay_and_reset byte (record k { bus = bus }) in
    bind (kernel_switch_state bus.bus_state byte bus) (λ b. ok (record k₁ { bus = b }))
