-- ===== src/Frame/Receive.antt =====
-- What the state machine makes of the bytes of a frame.
use operating_system_cortex.Base.{
  ℕ, suc, ◌+◌, ◌*◌, ◌/◌, ◌%◌, ◌^◌, ◌≤◌, ◌<◌, ◌≡◌, refl, ap, true, false, ◌==◌, ltb, le→ltb_false,
  if◌then◌else◌, List, [], ◌∷◌, ◌++◌, append_assoc, length, length-append, take, drop, arith, u16,
  bit_or, bit_or-byte, zero-bit_or, ok, Bool-cases, inl, inr,
}
use operating_system_cortex.Crc.{crc_calculate}
use operating_system_cortex.Frame.{
  Bus, state_idle, state_fcs, start_byte, end_byte, polynomial, timeout_stop, timeout_reload,
  send_response, finish_frame, switch_state, usart0_handler, receive,
}
use operating_system_cortex.Base.{◌∙◌}
use operating_system_cortex.Frame.{state_cmd, state_size}
use operating_system_cortex.Frame.Payload.{in_payload, fill_all}

-- The bus after the start byte, and after the command with the size and the index so far.
unfoldable after_start : Bus → Bus
after_start b = record b { bus_state = state_cmd; timer = true }

unfoldable after_cmd : Bus → (cmd size index : ℕ) → Bus
after_cmd b cmd size index = record b {
  bus_state = state_size;
  frame = record (b.frame) { cmd = cmd; size = size };
  frame_index = index;
  timer = true;
}

-- The bytes in front of a payload of `n` bytes.
abbrev pub frame_start : (cmd n : ℕ) → List ℕ
frame_start cmd n = start_byte ∷ cmd ∷ n % 256 ∷ n / 256 ∷ []

two_bytes :
    (n : ℕ) → n < 2 ^ 16 → u16 (bit_or (u16 (bit_or 0 (n % 256 * 2 ^ 0))) (n / 256 * 2 ^ 8)) ≡ n
two_bytes n small = rw (first, bit_or-byte (n % 256) (n / 256) (omega arith)) (omega arith)
  where
    first : bit_or 0 (n % 256 * 2 ^ 0) % 2 ^ 16 ≡ n % 256
    first = omega (arith, zero-bit_or (n % 256 * 2 ^ 0))

receive_step :
    (x : ℕ) (xs : List ℕ) (b b' : Bus)
    → usart0_handler x b ≡ ok b'
    → receive (x ∷ xs) b ≡ receive xs b'
unfolding receive
receive_step x xs b b' e = rw e refl

step_start : (b : Bus) → b.bus_state ≡ state_idle → usart0_handler start_byte b ≡ ok (after_start b)
unfolding usart0_handler switch_state timeout_reload after_start
step_start b at = rw at refl

step_cmd : (b : Bus) (cmd : ℕ) → usart0_handler cmd (after_start b) ≡ ok (after_cmd b cmd 0 0)
unfolding usart0_handler switch_state timeout_reload after_start after_cmd
step_cmd b cmd = refl

step_low :
    (b : Bus) (cmd n : ℕ)
    → usart0_handler (n % 256) (after_cmd b cmd 0 0)
      ≡ ok (after_cmd b cmd (u16 (bit_or 0 (n % 256 * 2 ^ 0))) 1)
unfolding usart0_handler switch_state timeout_reload after_cmd
step_low b cmd n = refl

step_high :
    (b : Bus) (cmd n : ℕ)
    → n < 2 ^ 16
    → usart0_handler (n / 256) (after_cmd b cmd (u16 (bit_or 0 (n % 256 * 2 ^ 0))) 1)
      ≡ ok (
          in_payload
            (record b { frame = record (b.frame) { cmd = cmd; size = n } })
            []
            b.frame.payload)
unfolding usart0_handler switch_state timeout_reload after_cmd in_payload
step_high b cmd n small = rw (two_bytes n small) refl

-- They set the command and the size.
pub receive-frame_start :
    (b : Bus) (cmd n : ℕ) (tail : List ℕ)
    → b.bus_state ≡ state_idle
    → n < 2 ^ 16
    → receive (frame_start cmd n ++ tail) b
      ≡ receive tail (
          in_payload
            (record b { frame = record (b.frame) { cmd = cmd; size = n } })
            []
            b.frame.payload)
receive-frame_start b cmd n tail at small =
    receive_step start_byte (cmd ∷ n % 256 ∷ n / 256 ∷ tail) b _ (step_start b at)
    ∙ receive_step cmd (n % 256 ∷ n / 256 ∷ tail) _ _ (step_cmd b cmd)
    ∙ receive_step (n % 256) (n / 256 ∷ tail) _ _ (step_low b cmd n)
    ∙ receive_step (n / 256) tail _ _ (step_high b cmd n small)

pub take-length : (xs ys : List ℕ) → take (length xs) (xs ++ ys) ≡ xs
take-length [] ys = refl
take-length (x ∷ xs) ys = ap (λ (zs : List ℕ). x ∷ zs) (take-length xs ys)

-- A frame on the bus, with any check sequence and any last byte.
abbrev pub frame_with : (cmd : ℕ) (payload : List ℕ) (fcs last : ℕ) → List ℕ
frame_with cmd payload fcs last = frame_start cmd (length payload) ++ payload ++ fcs ∷ last ∷ []

-- The check sequence that belongs to a frame.
abbrev pub fcs_of : (cmd : ℕ) (payload : List ℕ) → ℕ
fcs_of cmd payload =
    crc_calculate (cmd ∷ length payload % 256 ∷ length payload / 256 ∷ payload) polynomial

-- The bus when all bytes of the frame are in, and idle again.
abbrev pub filled : Bus → (cmd : ℕ) (payload : List ℕ) (fcs : ℕ) → Bus
filled b cmd payload fcs = record b {
  bus_state = state_idle;
  frame = record {
    cmd = cmd;
    size = length payload;
    payload = payload ++ drop (length payload) b.frame.payload;
    fcs = fcs;
  };
  frame_index = length payload;
  timer = false;
}

-- What is made of it.
abbrev pub judged : Bus → (cmd : ℕ) (payload : List ℕ) (fcs last : ℕ) → Bus
judged b cmd payload fcs last =
    if last == end_byte
    then if fcs_of cmd payload == fcs
      then record (filled b cmd payload fcs) { frame_received = 1 }
      else record (filled b cmd payload fcs) { frame_received = 0; sent = 0x11 ∷ b.sent }
    else record (filled b cmd payload fcs) { frame_received = 0; sent = 0x41 ∷ b.sent }

-- The last two bytes.
receive-last :
    (b : Bus) (payload : List ℕ) (fcs last : ℕ)
    → length payload ≤ 512
    → length b.frame.payload ≡ 512
    → b.frame.size ≡ length payload
    → receive
        (fcs ∷ last ∷ [])
        (record (in_payload b payload (drop (length payload) b.frame.payload)) {
          bus_state = state_fcs;
        })
      ≡ ok (judged b b.frame.cmd payload fcs last)
unfolding receive usart0_handler switch_state in_payload timeout_reload finish_frame timeout_stop
    send_response
receive-last b payload fcs last fits room size = elim (Bool-cases (last == end_byte)) [
  | inr e ↦ rw (size, e) refl
  | inl e ↦ elim (Bool-cases (fcs_of b.frame.cmd payload == fcs)) [
    | inl f ↦ rw (size, e, long, plus, covered, f) refl
    | inr f ↦ rw (size, e, long, plus, covered, f) refl
  ]
]
  where
    plus : length payload + 3 ≡ suc (suc (suc (length payload)))
    plus = omega arith

    covered :
        take (length payload) ((payload ++ drop (length payload) b.frame.payload) ++ fcs ∷ [])
        ≡ payload
    covered =
        rw append_assoc (take-length payload (drop (length payload) b.frame.payload ++ fcs ∷ []))

    long :
        ltb
          (suc
            (suc (suc (length ((payload ++ drop (length payload) b.frame.payload) ++ fcs ∷ [])))))
          (length payload + 3)
        ≡ false
    long = le→ltb_false _ _ (
        omega (
          arith,
          length-append (payload ++ drop (length payload) b.frame.payload) (fcs ∷ []),
          length-append payload (drop (length payload) b.frame.payload),
        ))

-- A frame with a payload of 1 to 512 bytes, received on the idle bus, is stored and accepted if its
-- last byte is the end byte and its check sequence is right. If not, the host gets an error
-- response, with the bit of a wrong check sequence or of a wrong last byte, and the frame is not
-- marked as received. The bus is idle again, with its timer stopped.
pub receive-judged :
    (b : Bus) (cmd x : ℕ) (rest : List ℕ) (fcs last : ℕ)
    → b.bus_state ≡ state_idle
    → length b.frame.payload ≡ 512
    → suc (length rest) ≤ 512
    → receive (frame_with cmd (x ∷ rest) fcs last) b ≡ ok (judged b cmd (x ∷ rest) fcs last)
receive-judged b cmd x rest fcs last at room small =
    rw
      (
        receive-frame_start b cmd (suc (length rest)) (x ∷ rest ++ fcs ∷ last ∷ []) at
            (omega arith),
        fill_all (record b { frame = record (b.frame) { cmd = cmd; size = suc (length rest) } }) []
            x rest b.frame.payload (fcs ∷ last ∷ []) (omega arith) (omega arith) small,
      )
      (receive-last (record b { frame = record (b.frame) { cmd = cmd; size = suc (length rest) } })
        (x ∷ rest) fcs last small room refl)
