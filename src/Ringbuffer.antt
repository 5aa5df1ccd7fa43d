-- ===== src/Ringbuffer.antt =====
-- kernel/src/generic/ringbuffer.c: a ring of bytes between two addresses.
pub mod Fifo
pub mod Tests
use operating_system_cortex.Base.{
  ℕ, zero, suc, ◌+◌, ◌≡◌, Bool, true, false, ◌==◌, if◌then◌else◌, List, [], ◌∷◌, u32, Run, Cmd, ok,
  panic, bind,
}
use operating_system_cortex.Dlist.{Ptr}

-- `struct ringbuffer`, with the memory of the bytes
pub record Ringbuffer : Type 0 where
  pub buffer_start : Ptr
  pub buffer_end : Ptr
  pub read_ptr : Ptr
  pub write_ptr : Ptr
  pub bytes : Ptr → ℕ

unfoldable pub ringbuffer_init : (buffer : Ptr) → (size : ℕ) → Ringbuffer → Ringbuffer
ringbuffer_init buffer size rb = record rb {
  buffer_start = buffer;
  buffer_end = u32 (buffer + size);
  read_ptr = buffer;
  write_ptr = buffer;
}

unfoldable pub store_byte : (Ptr → ℕ) → Ptr → ℕ → Ptr → ℕ
store_byte bytes p x a = if a == p then x else bytes a

unfoldable pub ringbuffer_add : (byte : ℕ) → Cmd Ringbuffer (Unit {0})
ringbuffer_add byte rb =
    let write_ptr = u32 (rb.write_ptr + 1) in
    let rb' = record rb { bytes = store_byte rb.bytes rb.write_ptr byte; write_ptr = write_ptr } in
    if write_ptr == rb.read_ptr
    then panic
    else ok
        (tt, if write_ptr == rb.buffer_end then record rb' { write_ptr = rb.buffer_start } else rb')

unfoldable pub ringbuffer_read : Cmd Ringbuffer ℕ
ringbuffer_read rb =
    if rb.read_ptr == rb.write_ptr
    then ok (0, rb)
    else let read_ptr = u32 (rb.read_ptr + 1) in
      ok (
        rb.bytes rb.read_ptr,
        record rb { read_ptr = if read_ptr == rb.buffer_end then rb.buffer_start else read_ptr },
      )

-- The bytes that are read, in order, where the code stores them at `data` and counts them. The read
-- pointer is not taken back to the start.
unfoldable pub ringbuffer_read_mult : (size : ℕ) → Cmd Ringbuffer (List ℕ)
ringbuffer_read_mult zero rb = ok ([], rb)
ringbuffer_read_mult (suc size) rb =
    let rest = ringbuffer_read_mult size (record rb { read_ptr = u32 (rb.read_ptr + 1) }) in
    if rb.read_ptr == rb.write_ptr
    then ok ([], rb)
    else bind rest (λ (xs, rb'). ok (rb.bytes rb.read_ptr ∷ xs, rb'))
