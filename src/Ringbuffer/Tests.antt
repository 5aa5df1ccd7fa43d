-- ===== src/Ringbuffer/Tests.antt =====
-- A ring of four bytes whose contents go around its end.
use operating_system_cortex.Base.{◌≡◌, refl, [], ◌∷◌, ◌++◌, arith, Returns}
use operating_system_cortex.Ringbuffer.{Ringbuffer, ringbuffer_add, ringbuffer_read}
use operating_system_cortex.Ringbuffer.Fifo.{
  IsRing, contents, cells, ringbuffer_add-contents, ringbuffer_read-contents,
}

abbrev ring : Ringbuffer
ring = record { buffer_start = 10; buffer_end = 14; read_ptr = 13; write_ptr = 11; bytes = λ a. a }

ring-IsRing : IsRing ring
ring-IsRing = record {
  read_in = (omega arith, omega arith);
  write_in = (omega arith, omega arith);
  word = omega arith;
}

ring-contents : contents ring ≡ 13 ∷ 10 ∷ []
unfolding cells
ring-contents = refl

ringbuffer_add-contents_example :
    Returns (λ _ rb'. IsRing rb' × (contents rb' ≡ contents ring ++ 7 ∷ [])) (ringbuffer_add 7 ring)
ringbuffer_add-contents_example = ringbuffer_add-contents ring 7 ring-IsRing (omega arith)

ringbuffer_read-contents_example :
    Returns (λ y rb'. (y ≡ 13) × IsRing rb' × (contents rb' ≡ 10 ∷ [])) (ringbuffer_read ring)
ringbuffer_read-contents_example =
    ringbuffer_read-contents ring 13 (10 ∷ []) ring-IsRing ring-contents
