-- ===== src/Usb/Addresses.antt =====
-- The addresses that usbc_new_address gives out.
use operating_system_cortex.Base.{
  ℕ, zero, suc, ◌+◌, ◌<◌, ◌≤◌, ◌≡◌, ◌⊎◌, inl, inr, refl, sym, true, false, ◌||◌, ◌==◌, Bool-cases,
  Returns, returns, test_bit, test_bit-set_bit, arith,
}
use operating_system_cortex.Usb.Requests.{
  UsbCore, new_address_from, set_addresses, usbc_new_address,
}

-- Below `end` the lowest free address is `address`, and it alone is taken now; or there is none.
pub data NewAddress (start end before address after : ℕ) : Type 0 where
  full :
      ((i : ℕ) → start ≤ i → i < end → test_bit before i ≡ true)
      → address ≡ 0
      → after ≡ before
      → NewAddress start end before address after
  taken :
      start ≤ address
      → address < end
      → test_bit before address ≡ false
      → ((i : ℕ) → start ≤ i → i < address → test_bit before i ≡ true)
      → ((i : ℕ) → test_bit after i ≡ ((address == i) || test_bit before i))
      → NewAddress start end before address after

lt_or_eq : (a b : ℕ) → a ≤ b → (suc a ≤ b) ⊎ (a ≡ b)
lt_or_eq a b h = ground arith

next_end : (a b : ℕ) → a + suc b ≡ suc a + b
next_end a b = omega arith

from_next :
    (P : ℕ → Type 0) (start : ℕ)
    → P start
    → (end : ℕ) → ((i : ℕ) → suc start ≤ i → i < end → P i)
    → (i : ℕ) → start ≤ i
    → i < end
    → P i
from_next P start p end f i h k = elim (lt_or_eq start i h) [
  | inl l ↦ f i l k
  | inr e ↦ rw (sym e) p
]

widened :
    (start end before address after : ℕ)
    → test_bit before start ≡ true
    → NewAddress (suc start) end before address after
    → NewAddress start end before address after
widened start end before address after b (full f z e) =
    full (from_next (λ i. test_bit before i ≡ true) start b end f) z e
widened start end before address after b (taken l u free f g) =
    taken (omega arith) u free (from_next (λ i. test_bit before i ≡ true) start b address f) g

new_address_from-NewAddress :
    (left start bitmask : ℕ)
    → let new = new_address_from left start bitmask in
      NewAddress start (start + left) bitmask new.0 new.1
unfolding new_address_from
new_address_from-NewAddress zero start bitmask = full (λ i l u. absurd (omega arith)) refl refl
new_address_from-NewAddress (suc left) start bitmask = elim (Bool-cases (test_bit bitmask start)) [
  | inl e ↦ rw e (
      widened start (start + suc left) bitmask _ _ e
        (rw (next_end start left) (new_address_from-NewAddress left (suc start) bitmask)))
  | inr e ↦ rw e (
      taken (omega arith) (omega arith) e (λ i l u. absurd (omega arith))
        (test_bit-set_bit bitmask start))
]

-- usbc_new_address returns the lowest address of 1 to 9 that is not taken, and marks it and no
-- other; if all are taken it returns 0 and marks none.
pub usbc_new_address-NewAddress :
    (s : UsbCore)
    → Returns
        (λ address t. NewAddress 1 10 s.dev_addr_bm address t.dev_addr_bm)
        (usbc_new_address s)
unfolding usbc_new_address set_addresses
usbc_new_address-NewAddress s =
    returns (new_address_from 9 1 s.dev_addr_bm).0 _ refl
      (new_address_from-NewAddress 9 1 s.dev_addr_bm)
