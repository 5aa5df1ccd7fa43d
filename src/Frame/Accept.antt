-- ===== src/Frame/Accept.antt =====
-- Frames that the host sends, and a frame that is too long.
use operating_system_cortex.Base.{
  ℕ, zero, suc, ◌^◌, ◌≤◌, ◌<◌, ◌≡◌, refl, ◌∙◌, ==_self, List, [], ◌∷◌, ◌++◌, length, take, arith,
  ok, fault, drop, le→ltb_false,
}
use operating_system_cortex.Frame.{
  Bus, state_idle, end_byte, receive, check_new_frame, timer0_ch0_handler, timeout_stop,
  usart0_handler, switch_state, timeout_reload,
}
use operating_system_cortex.Frame.Payload.{fill, in_payload}
use operating_system_cortex.Frame.Receive.{
  frame_start, frame_with, fcs_of, filled, receive-judged, receive-frame_start, take-length,
}

-- The frame that the host sends for a command and its payload.
abbrev pub encode : (cmd : ℕ) (payload : List ℕ) → List ℕ
encode cmd payload = frame_with cmd payload (fcs_of cmd payload) end_byte

-- The command and the payload can be read from the frame, and no response was sent.
pub record Accepted (b : Bus) (cmd : ℕ) (payload : List ℕ) (b' : Bus) : Type 0 where
  pub new_frame : check_new_frame b' ≡ 1
  pub cmd_same : b'.frame.cmd ≡ cmd
  pub payload_same : take b'.frame.size b'.frame.payload ≡ payload
  pub quiet : b'.sent ≡ b.sent
  pub idle_again : b'.bus_state ≡ state_idle

pub receive-encode :
    (b : Bus) (cmd x : ℕ) (rest : List ℕ)
    → b.bus_state ≡ state_idle
    → length b.frame.payload ≡ 512
    → suc (length rest) ≤ 512
    → (b' : Bus) × (receive (encode cmd (x ∷ rest)) b ≡ ok b') × Accepted b cmd (x ∷ rest) b'
unfolding check_new_frame
receive-encode b cmd x rest at room small = (
  record (filled b cmd (x ∷ rest) (fcs_of cmd (x ∷ rest))) { frame_received = 1 },
  receive-judged b cmd x rest (fcs_of cmd (x ∷ rest)) end_byte at room small
      ∙ rw (==_self (fcs_of cmd (x ∷ rest))) refl,
  record {
    new_frame = refl;
    cmd_same = refl;
    payload_same = take-length (x ∷ rest) (drop (suc (length rest)) b.frame.payload);
    quiet = refl;
    idle_again = refl;
  },
)

-- After a timeout the next frame is accepted, whatever part of a frame came before it.
pub timer0_ch0_handler-receive :
    (b : Bus) (cmd x : ℕ) (rest : List ℕ)
    → length b.frame.payload ≡ 512
    → suc (length rest) ≤ 512
    → (b' : Bus) × (receive (encode cmd (x ∷ rest)) (timer0_ch0_handler b) ≡ ok b')
      × Accepted b cmd (x ∷ rest) b'
unfolding timer0_ch0_handler timeout_stop
timer0_ch0_handler-receive b cmd x rest room small =
    let (b', e, a) = receive-encode (timer0_ch0_handler b) cmd x rest refl room small in
    (
      b',
      e,
      record {
        new_frame = a.new_frame;
        cmd_same = a.cmd_same;
        payload_same = a.payload_same;
        quiet = a.quiet;
        idle_again = a.idle_again;
      },
    )

drop_all : (xs : List ℕ) (n : ℕ) → length xs ≡ n → drop n xs ≡ []
drop_all [] zero h = refl
drop_all [] (suc n) h = refl
drop_all (x ∷ xs) zero h = absurd (omega (arith, h))
drop_all (x ∷ xs) (suc n) h = drop_all xs n (omega (arith, h))

overrun :
    (b : Bus) (done : List ℕ) (x : ℕ)
    → 512 ≤ length done
    → usart0_handler x (in_payload b done []) ≡ fault
unfolding usart0_handler switch_state in_payload timeout_reload
overrun b done x long = rw (le→ltb_false (length done) 512 long) refl

-- A frame whose size field says more than 512, up to 65535, is received until its payload has 512
-- bytes; the next byte is written behind the end of the payload. No test of the size stops it.
pub receive-overrun :
    (b : Bus) (cmd size : ℕ) (payload : List ℕ) (next : ℕ)
    → b.bus_state ≡ state_idle
    → length b.frame.payload ≡ 512
    → length payload ≡ 512
    → 512 < size
    → size < 2 ^ 16
    → receive (frame_start cmd size ++ payload ++ next ∷ []) b ≡ fault
unfolding receive
receive-overrun b cmd size payload next at room full large small =
    rw
      (
        receive-frame_start b cmd size (payload ++ next ∷ []) at small,
        fill (record b { frame = record (b.frame) { cmd = cmd; size = size } }) [] payload
            b.frame.payload (next ∷ []) (omega arith) (omega arith) (omega arith),
        full,
        drop_all b.frame.payload 512 room,
        overrun (record b { frame = record (b.frame) { cmd = cmd; size = size } }) payload next
            (omega arith),
      )
      refl
