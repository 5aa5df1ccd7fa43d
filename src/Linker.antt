-- ===== src/Linker.antt =====
-- kernel/src/kernel/dynamic_linker.c: the relocation of an application, on words of memory by their
-- addresses. Starting the thread of the application is left out.
pub mod Relocation
pub mod Tests
use operating_system_cortex.Base.{
  ℕ, zero, suc, ◌+◌, ◌*◌, ◌%◌, ◌^◌, ◌<◌, ◌≤◌, ◌≡◌, ◌≢◌, ◌⊎◌, inl, inr, refl, sym, ap, ◌∙◌, Bool,
  true, false, ◌==◌, ==_self, ne→==_false, if◌then◌else◌, arith, u32, Run, ok, hang, bind,
}
use operating_system_cortex.Dlist.{Ptr}

-- Memory, by the addresses of its words.
abbrev pub Words : Type 0
Words = Ptr → ℕ

-- `struct app_info`, the words at the start of a binary that the linker reads
abbrev pub got_start : (binary : Ptr) → Words → ℕ
got_start binary m = m (binary + 12)

abbrev pub got_end : (binary : Ptr) → Words → ℕ
got_end binary m = m (binary + 16)

abbrev pub plt_start : (binary : Ptr) → Words → ℕ
plt_start binary m = m (binary + 20)

abbrev pub plt_end : (binary : Ptr) → Words → ℕ
plt_end binary m = m (binary + 24)

unfoldable pub write_word : (p : Ptr) → (value : ℕ) → Words → Words
write_word p value m = λ a. if a == p then value else m a

-- A loop of the linker, on fuel.
unfoldable pub relocate : (fuel : ℕ) → (binary p end : Ptr) → Words → Run Words
relocate zero binary p end m = hang
relocate (suc fuel) binary p end m =
    let rest = relocate fuel binary (u32 (p + 4)) end (write_word p (u32 (m p + binary)) m) in
    if p == end then ok m else rest

unfoldable pub dynamic_linker : (fuel : ℕ) → (binary : Ptr) → Words → Run Words
dynamic_linker fuel binary m =
    bind
      (relocate fuel binary (u32 (binary + got_start binary m)) (u32 (binary + got_end binary m)) m)
      (λ m.
        relocate fuel binary (u32 (binary + plt_start binary m)) (u32 (binary + plt_end binary m))
          m)
