-- ===== src/Usbhc/Receive.antt =====
-- What an IN transfer writes to memory.
use operating_system_cortex.Base.{
  ℕ, zero, suc, ◌+◌, ◌-◌, ◌^◌, ◌<◌, ◌≤◌, ◌≡◌, ◌≢◌, inl, inr, refl, ◌∙◌, ap, min, true, false, ◌==◌,
  ==_self, ==→eq, ==_false→ne, ne→==_false, Bool-cases, not, if◌then◌else◌, Run, ok, Returns,
  returns, bind-Returns, u32, arith, some, get_elem?,
}
use operating_system_cortex.Dlist.{Ptr}
use operating_system_cortex.Usbhc.{
  UsbPipe, UrbBlock, Registers, Usbhc, Callbacks, pointed, load_pipe, load_urb, store_urb, act,
  read_register,
}
use operating_system_cortex.Usbhc.Transfers.{store_received, receive_bytes, usbhc_in}

abbrev pub counted : UrbBlock → (k : ℕ) → UrbBlock
counted urb k = record urb { acctual_length = urb.acctual_length + k }

-- `k` bytes of the FIFO, from `index`, lie at `dest`; the URB counts them, and nothing else changes.
pub record Fetched {H : Type 0} (registers : Registers H) (n : ℕ) (u dest : Ptr) (index k : ℕ)
    (urb : UrbBlock) (s t : Usbhc H) : Type 0 where
  pub urb_counts : t.urb_at u ≡ counted urb k
  pub fetched : (i : ℕ) → i < k → t.memory (dest + i) ≡ registers.fifo n (index + i) s.registers
  pub below : (a : Ptr) → a < dest → t.memory a ≡ s.memory a
  pub above : (a : Ptr) → dest + k ≤ a → t.memory a ≡ s.memory a
  pub other_urbs : (a : Ptr) → a ≢ u → t.urb_at a ≡ s.urb_at a
  pub same_pipes : t.pipes ≡ s.pipes

-- The state after one byte.
abbrev one_byte :
    {H : Type 0}
    → Registers H
    → (n : ℕ) → (u dest : Ptr) → (index : ℕ) → UrbBlock
    → Usbhc H
    → Usbhc H
one_byte registers n u dest index urb s = record s {
  memory = λ a. if a == dest then registers.fifo n index s.registers else s.memory a;
  urb_at = λ a.
      if a == u then record urb { acctual_length = u32 (urb.acctual_length + 1) } else s.urb_at a;
}

module _ {H : Type 0} (registers : Registers H) (callbacks : Callbacks H) where
  -- The last byte, and a byte with more behind it.
  receive_bytes-last :
      (count n : ℕ) (u dest : Ptr) (index : ℕ) (s : Usbhc H) (urb : UrbBlock)
      → s.urb_at u ≡ urb
      → (u32 (urb.acctual_length + 1) == urb.transfer_length) ≡ true
      → receive_bytes registers callbacks (suc count) n u dest index s
        ≡ ok (tt, one_byte registers n u dest index urb s)
  unfolding receive_bytes read_register store_received load_urb store_urb
  receive_bytes-last count n u dest index s urb e l = rw (e, l) refl

  receive_bytes-more :
      (count n : ℕ) (u dest : Ptr) (index : ℕ) (s : Usbhc H) (urb : UrbBlock)
      → s.urb_at u ≡ urb
      → (u32 (urb.acctual_length + 1) == urb.transfer_length) ≡ false
      → receive_bytes registers callbacks (suc count) n u dest index s
        ≡ receive_bytes registers callbacks count n u
            (suc dest)
            (suc index)
            (one_byte registers n u dest index urb s)
  unfolding receive_bytes read_register store_received load_urb store_urb
  receive_bytes-more count n u dest index s urb e l = rw (e, l) refl

  one_byte-memory :
      (n : ℕ) (u dest : Ptr) (index k : ℕ) (urb : UrbBlock) (s t : Usbhc H)
      → Fetched registers n u
          (suc dest)
          (suc index)
          k
          (counted urb 1)
          (one_byte registers n u dest index urb s)
          t
      → (i : ℕ) → i < suc k
      → t.memory (dest + i) ≡ registers.fifo n (index + i) s.registers
  one_byte-memory n u dest index k urb s t f zero h =
      ap t.memory (omega arith)
      ∙ f.below dest (omega arith)
      ∙ rw (==_self dest) (ap (λ j. registers.fifo n j s.registers) (omega arith))
  one_byte-memory n u dest index k urb s t f (suc i) h =
      ap t.memory (omega arith)
      ∙ f.fetched i (omega arith)
      ∙ ap (λ j. registers.fifo n j s.registers) (omega arith)

  one_byte-Fetched :
      (n : ℕ) (u dest : Ptr) (index k : ℕ) (urb : UrbBlock) (s t : Usbhc H)
      → urb.acctual_length + 1 < 2 ^ 32
      → Fetched registers n u
          (suc dest)
          (suc index)
          k
          (counted urb 1)
          (one_byte registers n u dest index urb s)
          t
      → Fetched registers n u dest index (suc k) urb s t
  one_byte-Fetched n u dest index k urb s t b f = record {
    urb_counts = f.urb_counts ∙ ap (λ m. record urb { acctual_length = m }) (omega arith);
    fetched = one_byte-memory n u dest index k urb s t f;
    below = λ a h. f.below a (omega arith) ∙ rw (ne→==_false a dest (omega arith)) refl;
    above = λ a h. f.above a (omega arith) ∙ rw (ne→==_false a dest (omega arith)) refl;
    other_urbs = λ a h. f.other_urbs a h ∙ rw (ne→==_false a u h) refl;
    same_pipes = f.same_pipes;
  }

  no_byte-Fetched :
      (n : ℕ) (u dest : Ptr) (index k : ℕ) (urb : UrbBlock) (s : Usbhc H)
      → s.urb_at u ≡ urb
      → k ≡ 0
      → Fetched registers n u dest index k urb s s
  no_byte-Fetched n u dest index k urb s e z = record {
    urb_counts = e ∙ ap (λ m. record urb { acctual_length = m }) (omega arith);
    fetched = λ i h. absurd (omega arith);
    below = λ a h. refl;
    above = λ a h. refl;
    other_urbs = λ a h. refl;
    same_pipes = refl;
  }

  resized :
      (n : ℕ) (u dest : Ptr) (index k m : ℕ) (urb : UrbBlock) (s t : Usbhc H)
      → m ≡ k
      → Fetched registers n u dest index k urb s t
      → Fetched registers n u dest index m urb s t
  resized n u dest index k m urb s t e f = rw e f

  counted_one :
      (n : ℕ) (u dest : Ptr) (index : ℕ) (s : Usbhc H) (urb : UrbBlock)
      → urb.acctual_length + 1 < 2 ^ 32
      → Usbhc.urb_at (one_byte registers n u dest index urb s) u ≡ counted urb 1
  counted_one n u dest index s urb b =
      rw (==_self u) (ap (λ m. record urb { acctual_length = m }) (omega arith))

  returned :
      (count n : ℕ) (u dest : Ptr) (index : ℕ) (s : Usbhc H) (urb : UrbBlock)
      → urb.acctual_length + 1 < urb.transfer_length
      → urb.transfer_length < 2 ^ 32
      → {r : Run (Unit {0} × Usbhc H)}
      → Returns
          (λ _ t.
            Fetched registers n u
              (suc dest)
              (suc index)
              (min count (urb.transfer_length - (urb.acctual_length + 1)))
              (counted urb 1)
              (one_byte registers n u dest index urb s)
              t)
          r
      → Returns
          (λ _ t.
            Fetched registers n u dest index
              (min (suc count) (urb.transfer_length - urb.acctual_length))
              urb
              s
              t)
          r
  returned count n u dest index s urb l b (returns a t e f) = returns a t e (
      resized n u dest index _ _ urb s t (omega arith)
        (one_byte-Fetched n u dest index _ urb s t (omega arith) f))

  pub receive_bytes-Fetched :
      (count n : ℕ) (u dest : Ptr) (index : ℕ) (s : Usbhc H) (urb : UrbBlock)
      → s.urb_at u ≡ urb
      → urb.acctual_length < urb.transfer_length
      → urb.transfer_length < 2 ^ 32
      → Returns
          (λ _ t.
            Fetched registers n u dest index
              (min count (urb.transfer_length - urb.acctual_length))
              urb
              s
              t)
          (receive_bytes registers callbacks count n u dest index s)
  unfolding receive_bytes
  receive_bytes-Fetched zero n u dest index s urb e l b =
      returns tt s refl (no_byte-Fetched n u dest index _ urb s e (omega arith))
  receive_bytes-Fetched (suc count) n u dest index s urb e l b =
      let next = one_byte registers n u dest index urb s in
      elim (Bool-cases (u32 (urb.acctual_length + 1) == urb.transfer_length)) [
        | inl c ↦ returns tt next (receive_bytes-last count n u dest index s urb e c) (
            resized n u dest index 1 _ urb s next (omega (arith, ==→eq _ _ c)) (
              one_byte-Fetched n u dest index 0 urb s next (omega arith) (
                no_byte-Fetched n u (suc dest) (suc index) 0 (counted urb 1) next
                  (counted_one n u dest index s urb (omega arith)) refl)))
        | inr c ↦ rw (receive_bytes-more count n u dest index s urb e c) (
            returned count n u dest index s urb (omega (arith, ==_false→ne _ _ c)) b (
              receive_bytes-Fetched count n u (suc dest) (suc index) next (counted urb 1)
                (counted_one n u dest index s urb (omega arith)) (omega (arith, ==_false→ne _ _ c))
                b))
      ]

  -- A write to the registers is not among what is fetched.
  Fetched-record :
      {n : ℕ} {u dest : Ptr} {index k : ℕ} {urb : UrbBlock} {s t : Usbhc H} {h : H}
      → Fetched registers n u dest index k urb s t
      → Fetched registers n u dest index k urb s (record t { registers = h })
  Fetched-record f = record {
    urb_counts = f.urb_counts;
    fetched = f.fetched;
    below = f.below;
    above = f.above;
    other_urbs = f.other_urbs;
    same_pipes = f.same_pipes;
  }

  -- While an URB has room, usbhc_in copies the bytes of the FIFO, or as many as there is room for,
  -- behind the bytes that the URB has and counts them; no other byte of memory, URB or pipe
  -- changes, so it never writes behind the transfer's length; and it answers whether the packet is
  -- short. The pipe is one of the array and the length is of 32 bits.
  pub usbhc_in-Fetched :
      (n : ℕ) (u : Ptr) (p : UsbPipe) (urb : UrbBlock) (s : Usbhc H)
      → get_elem? s.pipes n ≡ some p
      → s.urb_at u ≡ urb
      → urb.acctual_length < urb.transfer_length
      → urb.transfer_length < 2 ^ 32
      → let count = registers.byte_count p.num s.registers in
        Returns
          (λ short t.
            Fetched registers p.num u
              (urb.transfer_buffer + urb.acctual_length)
              0
              (min count (urb.transfer_length - urb.acctual_length))
              urb
              s
              t
            × (short ≡ not (count == p.ep_size)))
          (usbhc_in registers callbacks n u s)
  unfolding usbhc_in load_pipe pointed read_register load_urb act
  usbhc_in-Fetched n u p urb s h e l b =
      rw (h, e)
        (bind-Returns
          (receive_bytes-Fetched (registers.byte_count p.num s.registers) p.num u
            (urb.transfer_buffer + urb.acctual_length) 0 s urb e l b)
          (λ _ t f. returns _ _ refl (Fetched-record f, refl)))
