-- ===== src/Frame.antt =====
-- bootloader/src/frame.c: the frames by which the host sends the kernel image; the kernel's own state
-- machine is in Frame/Exception. The timer is the one that ends an unfinished frame
-- after a second; what is printed for people is left out.
pub mod Payload
pub mod Receive
pub mod Accept
pub mod Invariant
pub mod Exception
pub mod Kernel
pub mod Tests
use operating_system_cortex.Base.{
  ℕ, ◌+◌, ◌*◌, ◌/◌, ◌%◌, ◌^◌, ◌≡◌, Bool, true, false, ◌==◌, ltb, leb, if◌then◌else◌, List, [], ◌∷◌,
  ◌++◌, length, set, take, u8, u16, u32, bit_or, Run, Cmd, ok, fault, bind, pure, continue, ◌>>=◌,
  ◌>>◌,
}
use operating_system_cortex.Crc.{crc_calculate}

-- START_BYTE, END_BYTE and POLYNOMIAL
abbrev pub start_byte : ℕ
start_byte = 0xAA

abbrev pub end_byte : ℕ
end_byte = 0x55

abbrev pub polynomial : ℕ
polynomial = 0xB2

-- MAX_PAYLOAD_SIZE
abbrev pub max_payload_size : ℕ
max_payload_size = 512

-- RESP_OK, RESP_ERROR, RESP_FCS_ERROR and RESP_FRAME_ERROR
abbrev pub resp_ok : ℕ
resp_ok = 0

abbrev pub resp_error : ℕ
resp_error = 1

abbrev pub resp_fcs_error : ℕ
resp_fcs_error = 2 ^ 4

abbrev pub resp_frame_error : ℕ
resp_frame_error = 2 ^ 6

-- `enum bus_states`
pub data BusState : Type 0 where
  state_idle state_cmd state_size state_payload state_fcs state_end : BusState

-- `struct frame`: `payload` has MAX_PAYLOAD_SIZE bytes
pub record Frame : Type 0 where
  pub cmd : ℕ
  pub size : ℕ
  pub payload : List ℕ
  pub fcs : ℕ

-- The globals of frame.c, with the timer (does it run?) and the responses sent, the last one first.
pub record Bus : Type 0 where
  pub bus_state : BusState
  pub frame : Frame
  pub frame_index : ℕ
  pub frame_received : ℕ
  pub timer : Bool
  pub sent : List ℕ

-- The bytes of the packed struct in memory.
abbrev pub frame_bytes : Frame → List ℕ
frame_bytes f = f.cmd ∷ f.size % 256 ∷ f.size / 256 ∷ f.payload ++ f.fcs ∷ []

abbrev pub is_idle : BusState → Bool
is_idle state_idle = true
is_idle _ = false

unfoldable pub timeout_stop : Bus → Bus
timeout_stop b = record b { timer = false }

unfoldable pub timeout_reload : Bus → Bus
timeout_reload b = record b { timer = true }

unfoldable pub send_response : (error_code : ℕ) → Bus → Bus
send_response error_code b = record b { frame_received = 0; sent = error_code ∷ b.sent }

unfoldable pub check_new_frame : Bus → ℕ
check_new_frame b = if b.frame_received == 0 then 0 else 1

-- `STATE_END`: the frame check sequence is computed from the first size + 3 bytes of the struct,
-- which must lie in it.
unfoldable pub finish_frame : (byte : ℕ) → Bus → Run Bus
finish_frame byte b =
    if byte == end_byte
    then if ltb (length (frame_bytes b.frame)) (b.frame.size + 3)
      then fault
      else if crc_calculate (take (b.frame.size + 3) (frame_bytes b.frame)) polynomial
          == b.frame.fcs
      then ok (record b { frame_received = 1 })
      else ok (send_response (bit_or resp_error resp_fcs_error) b)
    else ok (send_response (bit_or resp_error resp_frame_error) b)

-- The `switch` of the receive handler. A write behind the payload's end is a fault.
unfoldable pub switch_state : BusState → (byte : ℕ) → Bus → Run Bus
switch_state state_idle byte b =
    if byte == start_byte then ok (timeout_reload (record b { bus_state = state_cmd })) else ok b
switch_state state_cmd byte b = ok (record b {
  frame = record (b.frame) { cmd = byte; size = 0 };
  bus_state = state_size;
  frame_index = 0;
})
switch_state state_size byte b =
    let size = u16 (bit_or b.frame.size (byte * 2 ^ (8 * b.frame_index))) in
    let index = u32 (b.frame_index + 1) in
    let b' = record b { frame = record (b.frame) { size = size }; frame_index = index } in
    if leb 2 index then ok (record b' { bus_state = state_payload; frame_index = 0 }) else ok b'
switch_state state_payload byte b =
    let index = u32 (b.frame_index + 1) in
    let payload = set b.frame.payload b.frame_index byte in
    let b' = record b { frame = record (b.frame) { payload = payload }; frame_index = index } in
    if ltb b.frame_index max_payload_size
    then (if leb b.frame.size index then ok (record b' { bus_state = state_fcs }) else ok b')
    else fault
switch_state state_fcs byte b =
    ok (record b { frame = record (b.frame) { fcs = byte }; bus_state = state_end })
switch_state state_end byte b =
    bind (finish_frame byte b) (λ b'. ok (timeout_stop (record b' { bus_state = state_idle })))

-- The timer is reloaded by each byte of a frame.
abbrev pub reload_in_frame : Bus → Bus
reload_in_frame b = if is_idle b.bus_state then b else timeout_reload b

-- `usart0_handler` of the bootloader, for the byte that `serial_read` gives.
unfoldable pub usart0_handler : (byte : ℕ) → Bus → Run Bus
usart0_handler byte b =
    let b₁ = reload_in_frame b in
    let b₂ =
      if is_idle b₁.bus_state then (if byte == 0 then send_response resp_ok b₁ else b₁) else b₁ in
    switch_state b₂.bus_state byte b₂

-- The bytes that come in, one interrupt for each.
unfoldable pub receive : List ℕ → Bus → Run Bus
receive [] b = ok b
receive (x ∷ xs) b = bind (usart0_handler x b) (receive xs)

-- `timer0_ch0_handler`
unfoldable pub timer0_ch0_handler : Bus → Bus
timer0_ch0_handler b = record (timeout_stop b) { bus_state = state_idle }
