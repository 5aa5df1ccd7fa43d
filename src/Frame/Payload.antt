-- ===== src/Frame/Payload.antt =====
-- The payload of a frame as its bytes come in.
use operating_system_cortex.Base.{
  ℕ, suc, ◌+◌, ◌%◌, ◌^◌, ◌≤◌, ◌<◌, ◌≡◌, refl, ap, true, false, leb, lt→ltb, if◌then◌else◌, List, [],
  ◌∷◌, ◌++◌, append_assoc, append-nil, length, length-append, set, drop, arith, ok, Bool-cases, inl,
  inr,
}
use operating_system_cortex.Frame.{
  Bus, state_payload, state_fcs, timeout_reload, switch_state, usart0_handler, receive,
}

set-middle :
    (xs : List ℕ) (y : ℕ) (ys : List ℕ) (v : ℕ) → set (xs ++ y ∷ ys) (length xs) v ≡ xs ++ v ∷ ys
set-middle [] y ys v = refl
set-middle (x ∷ xs) y ys v = ap (λ (zs : List ℕ). x ∷ zs) (set-middle xs y ys v)

-- In the payload: the bytes `done` are there, and `old` lies behind them.
unfoldable pub in_payload : Bus → (done old : List ℕ) → Bus
in_payload b done old = record b {
  bus_state = state_payload;
  frame = record (b.frame) { payload = done ++ old };
  frame_index = length done;
  timer = true;
}

module _ (b : Bus) (x : ℕ) (done : List ℕ) (o : ℕ) (old : List ℕ) where
  payload_step :
      length done < 512
      → usart0_handler x (in_payload b done (o ∷ old))
        ≡ ok (
            if leb b.frame.size (suc (length done))
            then record (in_payload b (done ++ x ∷ []) old) { bus_state = state_fcs }
            else in_payload b (done ++ x ∷ []) old)
  unfolding usart0_handler switch_state in_payload timeout_reload
  payload_step h =
      rw
        (
          lt→ltb (length done) 512 h,
          index,
          set-middle done o old x,
          append_assoc done (x ∷ []) old,
          length-append done (x ∷ []),
          count,
        )
        (elim (Bool-cases (leb b.frame.size (suc (length done)))) [
          | inl e ↦ rw e refl
          | inr e ↦ rw e refl
        ])
    where
      index : (length done + 1) % 2 ^ 32 ≡ suc (length done)
      index = omega arith

      count : length done + 1 ≡ suc (length done)
      count = omega arith

-- As long as the size is not reached, the payload goes on.
pub fill :
    (b : Bus) (done rest old tail : List ℕ)
    → length done + length rest < b.frame.size
    → length rest ≤ length old
    → length done + length rest ≤ 512
    → receive (rest ++ tail) (in_payload b done old)
      ≡ receive tail (in_payload b (done ++ rest) (drop (length rest) old))
unfolding receive
fill b done [] old tail more fits small = rw (append-nil done) refl
fill b done (x ∷ rest) [] tail more fits small = absurd (omega arith)
fill b done (x ∷ rest) (o ∷ old) tail more fits small =
    rw (payload_step b x done o old (omega arith), goes_on, ← append_assoc done (x ∷ []) rest)
      (fill b (done ++ x ∷ []) rest old tail (omega (arith, length-append done (x ∷ [])))
        (omega arith) (omega (arith, length-append done (x ∷ []))))
  where
    goes_on : leb b.frame.size (suc (length done)) ≡ false
    goes_on = ground arith

-- The bytes of the payload are stored, one after the other, and end it.
pub fill_all :
    (b : Bus) (done : List ℕ) (x : ℕ) (rest old tail : List ℕ)
    → b.frame.size ≡ length done + suc (length rest)
    → suc (length rest) ≤ length old
    → b.frame.size ≤ 512
    → receive (x ∷ rest ++ tail) (in_payload b done old)
      ≡ receive tail (record (in_payload b (done ++ x ∷ rest) (drop (suc (length rest)) old)) {
        bus_state = state_fcs;
      })
unfolding receive
fill_all b done x rest [] tail size fits small = absurd (omega arith)
fill_all b done x [] (o ∷ old) tail size fits small =
    rw (payload_step b x done o old (omega arith), ends) refl
  where
    ends : leb b.frame.size (suc (length done)) ≡ true
    ends = ground arith
fill_all b done x (y ∷ rest) (o ∷ old) tail size fits small =
    rw (payload_step b x done o old (omega arith), goes_on, ← append_assoc done (x ∷ []) (y ∷ rest))
      (fill_all b (done ++ x ∷ []) y rest old tail
        (omega (arith, length-append done (x ∷ []), size)) (omega arith) small)
  where
    goes_on : leb b.frame.size (suc (length done)) ≡ false
    goes_on = ground arith
