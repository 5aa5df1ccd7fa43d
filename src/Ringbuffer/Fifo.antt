-- ===== src/Ringbuffer/Fifo.antt =====
-- The ring buffer as a queue of bytes.
use operating_system_cortex.Base.{
  ℕ, zero, suc, ◌+◌, ◌-◌, ◌≤◌, ◌<◌, ◌^◌, ◌≡◌, ◌≢◌, refl, ap, ◌∙◌, false, ◌==◌, leb, ==_self,
  ne→==_false, if◌then◌else◌, Bool-cases, inl, inr, List, [], ◌∷◌, ◌++◌, arith, head_or, drop,
  length, u32, ok, Returns, returns,
}
use operating_system_cortex.Dlist.{Ptr}
use operating_system_cortex.Ringbuffer.{Ringbuffer, store_byte, ringbuffer_add, ringbuffer_read}

-- The pointers lie in the buffer.
pub record IsRing (rb : Ringbuffer) : Type 0 where
  pub read_in : (rb.buffer_start ≤ rb.read_ptr) × (rb.read_ptr < rb.buffer_end)
  pub write_in : (rb.buffer_start ≤ rb.write_ptr) × (rb.write_ptr < rb.buffer_end)
  pub word : rb.buffer_end < 2 ^ 32

-- The address behind `p`, around the ring.
abbrev pub after : (start end p : Ptr) → Ptr
after start end p = if p + 1 == end then start else p + 1

-- The number of bytes from `p` up to `q`, around the ring.
abbrev pub distance : (start end p q : Ptr) → ℕ
distance start end p q = if leb p q then q - p else end - p + (q - start)

-- So many bytes from `p` on, around the ring.
unfoldable pub cells : (start end : Ptr) → (Ptr → ℕ) → ℕ → Ptr → List ℕ
cells start end bytes zero p = []
cells start end bytes (suc n) p = bytes p ∷ cells start end bytes n (after start end p)

-- The bytes that were added and not read.
abbrev pub contents : Ringbuffer → List ℕ
contents rb =
    cells rb.buffer_start rb.buffer_end rb.bytes
      (distance rb.buffer_start rb.buffer_end rb.read_ptr rb.write_ptr) rb.read_ptr

module _ (start end : Ptr) where
  distance-after :
      (p q n : ℕ)
      → (start ≤ p) × (p < end)
      → (start ≤ q) × (q < end)
      → distance start end p q ≡ suc n
      → distance start end (after start end p) q ≡ n
  distance-after p q n hp hq e = ground arith

  after-distance :
      (p q : ℕ)
      → (start ≤ p) × (p < end)
      → (start ≤ q) × (q < end)
      → suc (distance start end p q) < end - start
      → distance start end p (after start end q) ≡ suc (distance start end p q)
  after-distance p q hp hq room = ground arith

  distance-zero : (p q : ℕ) → (start ≤ q) × (q < end) → p < end → distance start end p q ≡ 0 → p ≡ q
  distance-zero p q hq hp e = ground arith

  after-in :
      (p : ℕ) → (start ≤ p) × (p < end) → (start ≤ after start end p) × (after start end p < end)
  after-in p hp = ground arith

  store_byte_other : (b : Ptr → ℕ) (w x a : ℕ) → a ≢ w → store_byte b w x a ≡ b a
  unfolding store_byte
  store_byte_other b w x a ne = rw (ne→==_false a w ne) refl

  store_byte_self : (b : Ptr → ℕ) (w x : ℕ) → store_byte b w x w ≡ x
  unfolding store_byte
  store_byte_self b w x = rw (==_self w) refl

  cells-store_byte :
      (b : Ptr → ℕ) (w x n p : ℕ)
      → (start ≤ p) × (p < end)
      → (start ≤ w) × (w < end)
      → distance start end p w ≡ n
      → cells start end (store_byte b w x) (suc n) p ≡ cells start end b n p ++ x ∷ []
  unfolding cells
  cells-store_byte b w x zero p hp hw e =
      ap (λ (y : ℕ). y ∷ [])
        (ap (store_byte b w x) (distance-zero p w hw hp.1 e) ∙ store_byte_self b w x)
  cells-store_byte b w x (suc n) p hp hw e = rw (store_byte_other b w x p ne) (
      ap (λ (ys : List ℕ). b p ∷ ys)
        (cells-store_byte b w x n (after start end p) (after-in p hp) hw
          (distance-after p w n hp hw e)))
    where
      ne : p ≢ w
      ne same = ground (arith, e, same)

-- `ringbuffer_add` puts a byte behind the contents, if after it one place of the buffer is free.
pub ringbuffer_add-contents :
    (rb : Ringbuffer) (byte : ℕ)
    → IsRing rb
    → suc (distance rb.buffer_start rb.buffer_end rb.read_ptr rb.write_ptr)
      < rb.buffer_end - rb.buffer_start
    → Returns
        (λ _ rb'. IsRing rb' × (contents rb' ≡ contents rb ++ byte ∷ []))
        (ringbuffer_add byte rb)
unfolding ringbuffer_add
ringbuffer_add-contents rb byte is room = returns tt rb' run (
  record {
    read_in = is.read_in;
    write_in = after-in rb.buffer_start rb.buffer_end rb.write_ptr is.write_in;
    word = is.word;
  },
  rw
      (after-distance rb.buffer_start rb.buffer_end rb.read_ptr rb.write_ptr is.read_in is.write_in
        room)
      (cells-store_byte rb.buffer_start rb.buffer_end rb.bytes rb.write_ptr byte _ rb.read_ptr
        is.read_in is.write_in refl),
)
  where
    rb' : Ringbuffer
    rb' = record rb {
      bytes = store_byte rb.bytes rb.write_ptr byte;
      write_ptr = after rb.buffer_start rb.buffer_end rb.write_ptr;
    }

    word_ok : u32 (rb.write_ptr + 1) ≡ rb.write_ptr + 1
    word_ok = omega (arith, is.write_in.1, is.word)

    not_full : (rb.write_ptr + 1 == rb.read_ptr) ≡ false
    not_full = ground (arith, room)

    run : ringbuffer_add byte rb ≡ ok (tt, rb')
    run =
        rw (word_ok, not_full)
          (elim (Bool-cases (rb.write_ptr + 1 == rb.buffer_end)) [
            | inl e ↦ rw e refl
            | inr e ↦ rw e refl
          ])

nil≢cons : {x : ℕ} {xs : List ℕ} → [] ≢ x ∷ xs
nil≢cons e = omega (arith, ap (length {A = ℕ}) e)

-- `ringbuffer_read` takes the first byte of the contents off and returns it.
pub ringbuffer_read-contents :
    (rb : Ringbuffer) (x : ℕ) (xs : List ℕ)
    → IsRing rb
    → contents rb ≡ x ∷ xs
    → Returns (λ y rb'. (y ≡ x) × IsRing rb' × (contents rb' ≡ xs)) (ringbuffer_read rb)
unfolding ringbuffer_read cells
ringbuffer_read-contents rb x xs is e =
    go (distance rb.buffer_start rb.buffer_end rb.read_ptr rb.write_ptr) refl
  where
    rb' : Ringbuffer
    rb' = record rb { read_ptr = after rb.buffer_start rb.buffer_end rb.read_ptr }

    word_ok : u32 (rb.read_ptr + 1) ≡ rb.read_ptr + 1
    word_ok = omega (arith, is.read_in.1, is.word)

    run :
        (rb.read_ptr == rb.write_ptr) ≡ false → ringbuffer_read rb ≡ ok (rb.bytes rb.read_ptr, rb')
    run ne = rw (word_ok, ne) refl

    go :
        (n : ℕ)
        → distance rb.buffer_start rb.buffer_end rb.read_ptr rb.write_ptr ≡ n
        → Returns (λ y rb'. (y ≡ x) × IsRing rb' × (contents rb' ≡ xs)) (ringbuffer_read rb)
    go zero d = absurd (nil≢cons (rw d at e))
    go (suc n) d =
        let e' : cells rb.buffer_start rb.buffer_end rb.bytes (suc n) rb.read_ptr ≡ x ∷ xs =
          rw d at e in
        returns (rb.bytes rb.read_ptr) rb' (run (ground (arith, d))) (
          ap (λ (l : List ℕ). head_or l 0) e',
          record {
            read_in = after-in rb.buffer_start rb.buffer_end rb.read_ptr is.read_in;
            write_in = is.write_in;
            word = is.word;
          },
          rw
              (distance-after rb.buffer_start rb.buffer_end rb.read_ptr rb.write_ptr n is.read_in
                is.write_in d)
              (ap (drop 1) e'),
        )
