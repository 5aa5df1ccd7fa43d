-- ===== src/Bytes/Tests.antt =====
-- Copying three bytes down by one.
use operating_system_cortex.Base.{ℕ, ◌+◌, ◌≤◌, ◌<◌, ◌≡◌, ◌⊎◌, inl, arith}
use operating_system_cortex.Dlist.{Ptr}
use operating_system_cortex.Bytes.{Bytes, memory_copy, memory_copy-copies}

abbrev bytes : Bytes
bytes a = a

memory_copy-copies_example :
    ((i : ℕ) → i < 3 → memory_copy 11 10 3 bytes (10 + i) ≡ 11 + i)
    × ((a : Ptr) → (a < 10) ⊎ (10 + 3 ≤ a) → memory_copy 11 10 3 bytes a ≡ a)
memory_copy-copies_example = memory_copy-copies 11 10 3 bytes (inl (omega arith))
