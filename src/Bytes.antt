-- ===== src/Bytes.antt =====
-- kernel/src/generic/memory.c: copying, comparing and filling bytes, and strings. The same
-- functions are in bootloader/src/generic/memory.c. Addresses and lengths are numbers that do not wrap.
pub mod Tests
use operating_system_cortex.Base.{
  ℕ, zero, suc, ◌+◌, ◌≤◌, ◌<◌, ◌≡◌, ◌≢◌, refl, sym, ap, ◌∙◌, Bool, true, false, ◌==◌, ==_self,
  ne→==_false, ==→eq, ==_false→ne, if◌then◌else◌, Bool-cases, inl, inr, ◌⊎◌, arith, Run, Cmd, ok,
  hang, Returns, returns,
}
use operating_system_cortex.Dlist.{Ptr}

-- The bytes of memory.
abbrev pub Bytes : Type 0
Bytes = Ptr → ℕ

unfoldable pub write_byte : Bytes → Ptr → ℕ → Bytes
write_byte m p x a = if a == p then x else m a

unfoldable pub memory_copy : (src dest : Ptr) → (size : ℕ) → Bytes → Bytes
memory_copy src dest zero m = m
memory_copy src dest (suc size) m =
    memory_copy (src + 1) (dest + 1) size (write_byte m dest (m src))

unfoldable pub memory_compare : (src1 src2 : Ptr) → (size : ℕ) → Bytes → ℕ
memory_compare src1 src2 zero m = 1
memory_compare src1 src2 (suc size) m =
    let rest = memory_compare (src1 + 1) (src2 + 1) size m in if m src1 == m src2 then rest else 0

unfoldable pub memory_fill : (dest : Ptr) → (fill size : ℕ) → Bytes → Bytes
memory_fill dest fill zero m = m
memory_fill dest fill (suc size) m = memory_fill (dest + 1) fill size (write_byte m dest fill)

-- The loop of `string_len`, on fuel.
unfoldable pub string_len : (fuel : ℕ) → (src : Ptr) → Cmd Bytes ℕ
string_len zero src m = hang
string_len (suc fuel) src m =
    let rest = string_len fuel (src + 1) m in
    if m src == 0 then ok (0, m) else elim rest [ ok (n, m') ↦ ok (suc n, m') | _ ↦ hang ]

unfoldable pub string_copy : (fuel : ℕ) → (src dest : Ptr) → Cmd Bytes (Unit {0})
string_copy zero src dest m = hang
string_copy (suc fuel) src dest m =
    let rest = string_copy fuel (src + 1) (dest + 1) (write_byte m dest (m src)) in
    if m src == 0 then ok (tt, write_byte m dest (m src)) else rest

write_byte_self : (m : Bytes) (p : Ptr) (x : ℕ) → write_byte m p x p ≡ x
unfolding write_byte
write_byte_self m p x = rw (==_self p) refl

write_byte_other : (m : Bytes) (p : Ptr) (x a : ℕ) → a ≢ p → write_byte m p x a ≡ m a
unfolding write_byte
write_byte_other m p x a ne = rw (ne→==_false a p ne) refl

memory_copy_outside :
    (src dest size : ℕ) (m : Bytes) (a : Ptr)
    → (a < dest) ⊎ (dest + size ≤ a)
    → memory_copy src dest size m a ≡ m a
unfolding memory_copy
memory_copy_outside src dest zero m a out = refl
memory_copy_outside src dest (suc size) m a (inl h) =
    memory_copy_outside (src + 1) (dest + 1) size _ a (inl (omega arith))
    ∙ write_byte_other m dest _ a (λ e. omega (arith, h, e))
memory_copy_outside src dest (suc size) m a (inr h) =
    memory_copy_outside (src + 1) (dest + 1) size _ a (inr (omega arith))
    ∙ write_byte_other m dest _ a (λ e. omega (arith, h, e))

plus_zero : (a : ℕ) → a + 0 ≡ a
plus_zero a = omega arith

plus_suc : (a i : ℕ) → a + suc i ≡ a + 1 + i
plus_suc a i = omega arith

memory_copy_inside :
    (src dest size : ℕ) (m : Bytes)
    → (dest ≤ src) ⊎ (src + size ≤ dest)
    → (i : ℕ) → i < size
    → memory_copy src dest size m (dest + i) ≡ m (src + i)
unfolding memory_copy
memory_copy_inside src dest zero m apart i h = absurd (omega arith)
memory_copy_inside src dest (suc size) m apart zero h =
    rw (plus_zero dest, plus_zero src)
      (memory_copy_outside (src + 1) (dest + 1) size _ dest (inl (omega arith))
        ∙ write_byte_self m dest (m src))
memory_copy_inside src dest (suc size) m apart (suc i) h =
    rw (plus_suc dest i, plus_suc src i)
      (memory_copy_inside (src + 1) (dest + 1) size _ (still_apart apart) i (omega arith)
        ∙ write_byte_other m dest _ (src + 1 + i) (other apart))
  where
    still_apart :
        (dest ≤ src) ⊎ (src + suc size ≤ dest) → (dest + 1 ≤ src + 1) ⊎ (src + 1 + size ≤ dest + 1)
    still_apart (inl h) = inl (omega arith)
    still_apart (inr h) = inr (omega arith)

    other : (dest ≤ src) ⊎ (src + suc size ≤ dest) → src + 1 + i ≢ dest
    other (inl below) e = omega (arith, e, below)
    other (inr above) e = omega (arith, e, above, h)

-- `memory_copy` makes the bytes at `dest` those that were at `src` and changes no other byte, if the
-- destination does not begin inside the source, behind its first byte.
pub memory_copy-copies :
    (src dest size : ℕ) (m : Bytes)
    → (dest ≤ src) ⊎ (src + size ≤ dest)
    → ((i : ℕ) → i < size → memory_copy src dest size m (dest + i) ≡ m (src + i))
      × ((a : Ptr) → (a < dest) ⊎ (dest + size ≤ a) → memory_copy src dest size m a ≡ m a)
memory_copy-copies src dest size m apart =
    (memory_copy_inside src dest size m apart, memory_copy_outside src dest size m)
