-- ===== src/Frame/Invariant.antt =====
-- The invariant of the receive handler.
use operating_system_cortex.Base.{
  ℕ, ◌+◌, ◌≤◌, ◌<◌, ◌≡◌, refl, ◌∙◌, true, false, not, ◌==◌, ltb, leb, lt→ltb, le→ltb_false, ==→eq,
  Bool-cases, inl, inr, [], ◌∷◌, length, length-append, length-set, take, arith, Run, ok, u32,
}
use Prim.Native.Nat.{max}
use operating_system_cortex.Crc.{crc_calculate}
use operating_system_cortex.Frame.{
  Bus, BusState, state_idle, state_cmd, state_size, state_payload, state_fcs, state_end, start_byte,
  end_byte, polynomial, frame_bytes, is_idle, timeout_stop, timeout_reload, send_response,
  finish_frame, switch_state, usart0_handler,
}

-- The bounds of the index in each state.
abbrev pub IndexOk : BusState → (size index : ℕ) → Type 0
IndexOk state_size size index = index < 2
IndexOk state_payload size index = index < max 1 size
IndexOk _ size index = Unit {0}

-- The timer runs exactly while a frame is coming in, the payload has its 512 bytes, and the index
-- is in its bounds.
pub record IsBus (b : Bus) : Type 0 where
  pub timed : b.timer ≡ not (is_idle b.bus_state)
  pub room : length b.frame.payload ≡ 512
  pub index_ok : IndexOk b.bus_state b.frame.size b.frame_index

-- The run gives a bus that keeps the invariant.
abbrev pub Keeps : Run Bus → Type 0
Keeps r = (b' : Bus) × (r ≡ ok b') × IsBus b'

keeps : {b : Bus} → IsBus b → Keeps (ok b)
keeps {b} is = (b, refl, is)

-- While the size is at most 512, the receive handler writes inside the payload, and keeps the
-- invariant, on any byte in any state.
pub usart0_handler-IsBus :
    (b : Bus) (byte : ℕ) → IsBus b → b.frame.size ≤ 512 → Keeps (usart0_handler byte b)
unfolding usart0_handler switch_state timeout_reload timeout_stop finish_frame send_response
usart0_handler-IsBus b byte is small = go b.bus_state refl
  where
    long : ltb (length (frame_bytes b.frame)) (b.frame.size + 3) ≡ false
    long =
        le→ltb_false _ _ (omega (arith, length-append b.frame.payload (b.frame.fcs ∷ []), is.room))

    inside : b.bus_state ≡ state_payload → ltb b.frame_index 512 ≡ true
    inside e = lt→ltb b.frame_index 512 (omega (arith, rw e at is.index_ok))

    go : (s : BusState) → b.bus_state ≡ s → Keeps (usart0_handler byte b)
    go state_idle e = elim (Bool-cases (byte == start_byte)) [
      | inl s ↦
          rw (e, ==→eq byte start_byte s)
            (keeps (record { timed = refl; room = is.room; index_ok = tt }))
      | inr n ↦ elim (Bool-cases (byte == 0)) [
        | inl z ↦
            rw (e, z, n)
              (keeps (record { timed = rw e at is.timed; room = is.room; index_ok = tt }))
        | inr z ↦
            rw (e, z, n)
              (keeps (record { timed = rw e at is.timed; room = is.room; index_ok = tt }))
      ]
    ]
    go state_cmd e = rw e (keeps (record { timed = refl; room = is.room; index_ok = omega arith }))
    go state_size e = elim (Bool-cases (leb 2 (u32 (b.frame_index + 1)))) [
      | inl l ↦ rw (e, l) (keeps (record { timed = refl; room = is.room; index_ok = ground arith }))
      | inr l ↦ rw (e, l) (keeps (record { timed = refl; room = is.room; index_ok = ground arith }))
    ]
    go state_payload e = elim (Bool-cases (leb b.frame.size (u32 (b.frame_index + 1)))) [
      | inl l ↦
          rw (e, inside e, l)
            (keeps (record {
              timed = refl;
              room = length-set b.frame.payload b.frame_index byte ∙ is.room;
              index_ok = tt;
            }))
      | inr l ↦
          rw (e, inside e, l)
            (keeps (record {
              timed = refl;
              room = length-set b.frame.payload b.frame_index byte ∙ is.room;
              index_ok = ground arith;
            }))
    ]
    go state_fcs e = rw e (keeps (record { timed = refl; room = is.room; index_ok = tt }))
    go state_end e = elim (Bool-cases (byte == end_byte)) [
      | inr n ↦ rw (e, n) (keeps (record { timed = refl; room = is.room; index_ok = tt }))
      | inl y ↦
          elim (Bool-cases (
            crc_calculate (take (b.frame.size + 3) (frame_bytes b.frame)) polynomial
            == b.frame.fcs)) [
              | inl f ↦
                  rw (e, y, long, f)
                    (keeps (record { timed = refl; room = is.room; index_ok = tt }))
              | inr f ↦
                  rw (e, y, long, f)
                    (keeps (record { timed = refl; room = is.room; index_ok = tt }))
            ]
    ]
