-- ===== src/Boot/Hash.antt =====
-- The hash of the kernel: what bootloader/src/bootloader.c stores is verified at the next boot.
use operating_system_cortex.Base.{
  ℕ, zero, suc, ◌+◌, ◌*◌, ◌/◌, ◌%◌, ◌^◌, ◌<◌, ◌≤◌, ◌≡◌, ◌⊎◌, inr, refl, sym, ap, ◌∙◌, true, false,
  ◌==◌, leb, lt→ltb, ==_self, arith, sub32, ok, Returns, returns,
}
use operating_system_cortex.Dlist.{Ptr}
use operating_system_cortex.Bytes.{Bytes}
use operating_system_cortex.Boot.{
  Controller, Engine, Boot, has_error, has_hash_error, bootloader_base, kernel_base, padded,
  hash_bytes, read_word, verify_bytes, flash_erase_write,
}
use operating_system_cortex.Boot.Commands.{
  hash_sector, hash256_generate, load_hash, store_kernel_hash, verify_kernel_hash,
}

-- What is relied on from the flash controller: the erase-write command for a page of the bootloader
-- puts the latched bytes there, without error, and changes no other byte.
pub record IsFlash {F : Type 0} (controller : Controller F) : Type 0 where
  pub error_free :
      (page : ℕ) (buffer : Bytes) (f : F)
      → page < 32
      → has_error
          (controller.command
            (0x5A000000 + page % 2 ^ 16 * 2 ^ 8 + 3)
            (controller.latch (bootloader_base + 512 * page) buffer f)).0
        ≡ false
  pub written :
      (page : ℕ) (buffer : Bytes) (f : F)
      → page < 32
      → (i : ℕ) → i < 512
      → controller.contents
          (controller.command
            (0x5A000000 + page % 2 ^ 16 * 2 ^ 8 + 3)
            (controller.latch (bootloader_base + 512 * page) buffer f)).1
          (bootloader_base + 512 * page + i)
        ≡ buffer i
  pub kept :
      (page : ℕ) (buffer : Bytes) (f : F)
      → page < 32
      → (a : Ptr) → (a < bootloader_base + 512 * page) ⊎ (bootloader_base + 512 * page + 512 ≤ a)
      → controller.contents
          (controller.command
            (0x5A000000 + page % 2 ^ 16 * 2 ^ 8 + 3)
            (controller.latch (bootloader_base + 512 * page) buffer f)).1
          a
        ≡ controller.contents f a

-- The engine reports no error, and the digest depends only on the bytes from its start on.
pub record IsEngine (engine : Engine) : Type 0 where
  pub error_free : (m : Bytes) (start n : ℕ) → has_hash_error (engine.status m start n) ≡ false
  pub from_start :
      (m m' : Bytes) (start n i : ℕ)
      → ((a : Ptr) → start ≤ a → m a ≡ m' a)
      → engine.digest_of m start n i ≡ engine.digest_of m' start n i

verify_bytes-true :
    (count : ℕ) (m : Bytes) (a : Ptr) (buffer : Bytes) (i : ℕ)
    → ((k : ℕ) → k < count → m (a + k) ≡ buffer (i + k))
    → verify_bytes count m a buffer i ≡ true
unfolding verify_bytes
verify_bytes-true zero m a buffer i same = refl
verify_bytes-true (suc count) m a buffer i same =
    rw (head, ==_self (buffer i), verify_bytes-true count m (a + 1) buffer (i + 1) tail) refl
  where
    plus_zero : (x : ℕ) → x + 0 ≡ x
    plus_zero x = omega arith

    plus_one : (x k : ℕ) → x + suc k ≡ x + 1 + k
    plus_one x k = omega arith

    head : m a ≡ buffer i
    head = sym (ap m (plus_zero a)) ∙ same 0 (omega arith) ∙ ap buffer (plus_zero i)

    tail : (k : ℕ) → k < count → m (a + 1 + k) ≡ buffer (i + 1 + k)
    tail k h = sym (ap m (plus_one a k)) ∙ same (suc k) (omega arith) ∙ ap buffer (plus_one i k)

module _ {F : Type 0} (controller : Controller F) (engine : Engine) (flash : IsFlash controller)
    (is_engine : IsEngine engine) where
  abbrev pub erase_written : (page : ℕ) → (buffer : Bytes) → F → F
  erase_written page buffer f =
      (controller.command (0x5A000000 + page % 2 ^ 16 * 2 ^ 8 + 3)
        (controller.latch (bootloader_base + 512 * page) buffer f)).1

  flash_erase_write-true :
      (page : ℕ) (buffer : Bytes) (f : F)
      → page < 32
      → flash_erase_write controller page buffer f ≡ (true, erase_written page buffer f)
  unfolding flash_erase_write
  flash_erase_write-true page buffer f small =
      rw
        (
          few,
          flash.error_free page buffer f small,
          verify_bytes-true 512 (controller.contents (erase_written page buffer f))
              (bootloader_base + 512 * page) buffer 0
              (λ k h. flash.written page buffer f small k h ∙ ap buffer (zero_plus k)),
        )
        refl
    where
      few : leb 32 page ≡ false
      few = ground (arith, small)

      zero_plus : (k : ℕ) → k ≡ 0 + k
      zero_plus k = omega arith

  -- The buffer with the digest of the kernel.
  abbrev hash_page : Boot F → Bytes
  hash_page b =
      padded
        (hash_bytes
          (engine.digest_of (controller.contents b.flash) kernel_base
            (sub32 (b.kernel_total_size / 32) 1))
          b.kernel_total_size)
        36

  abbrev hash_loaded : Boot F → Boot F
  hash_loaded b = record b {
    digest =
        engine.digest_of (controller.contents b.flash) kernel_base
          (sub32 (b.kernel_total_size / 32) 1);
    hash_size = b.kernel_total_size;
    flash_buffer = hash_page b;
  }

  abbrev hash_stored : Boot F → Boot F
  hash_stored b = record (hash_loaded b) { flash = erase_written 30 (hash_page b) b.flash }

  in_sector :
      (b : Boot F) (i : ℕ)
      → i < 512
      → controller.contents (erase_written 30 (hash_page b) b.flash) (hash_sector + i)
        ≡ hash_page b i
  in_sector b i h = flash.written 30 (hash_page b) b.flash (omega arith) i h

  load_hash-ok : (b : Boot F) → load_hash controller engine b ≡ ok (tt, hash_loaded b)
  unfolding load_hash hash256_generate
  load_hash-ok b =
      rw
        (is_engine.error_free (controller.contents b.flash) kernel_base
          (sub32 (b.kernel_total_size / 32) 1))
        refl

  store_kernel_hash-true :
      (b : Boot F) → store_kernel_hash controller engine b ≡ ok (true, hash_stored b)
  unfolding store_kernel_hash
  store_kernel_hash-true b =
      rw
        (
          load_hash-ok b,
          flash_erase_write-true 30 (hash_page b) b.flash (omega arith),
          verify_bytes-true 512 (controller.contents (erase_written 30 (hash_page b) b.flash))
              hash_sector (hash_page b) 0 (λ k h. in_sector b k h ∙ ap (hash_page b) (zero_plus k)),
        )
        refl
    where
      zero_plus : (k : ℕ) → k ≡ 0 + k
      zero_plus k = omega arith

  abbrev contents_after : Boot F → Bytes
  contents_after b = controller.contents (erase_written 30 (hash_page b) b.flash)

  abbrev digest_after : Boot F → Bytes
  digest_after b =
      engine.digest_of (contents_after b) kernel_base (sub32 (b.kernel_total_size / 32) 1)

  -- The size that the sector holds.
  size_stored :
      (b : Boot F)
      → b.kernel_total_size < 2 ^ 32
      → read_word (contents_after b) (hash_sector + 32) ≡ b.kernel_total_size
  unfolding padded hash_bytes
  size_stored b small = omega (
    arith,
    small,
    in_sector b 32 (omega arith),
    in_sector b 33 (omega arith),
    in_sector b 34 (omega arith),
    in_sector b 35 (omega arith),
  )

  digest_stored :
      (b : Boot F) (i : ℕ) → i < 32 → contents_after b (hash_sector + i) ≡ digest_after b i
  unfolding padded hash_bytes
  digest_stored b i h =
      in_sector b i (omega (arith, h)) ∙ rw (lt→ltb i 32 h, lt→ltb i 36 (omega (arith, h))) same
    where
      same :
          engine.digest_of
            (controller.contents b.flash)
            kernel_base
            (sub32 (b.kernel_total_size / 32) 1)
            i
          ≡ digest_after b i
      same = is_engine.from_start _ _ kernel_base _ i (λ a low.
          sym (flash.kept 30 (hash_page b) b.flash (omega arith) a (inr (omega (arith, low)))))

  -- While the flash controller and the hash engine report no error, storing the hash of a kernel
  -- succeeds, and the check at the next boot accepts it, whatever the kernel is, for a size above 32
  -- bytes and below 0xFFFFFFFF.
  pub verify_kernel_hash-store_kernel_hash :
      (b : Boot F)
      → 32 < b.kernel_total_size
      → b.kernel_total_size < 0xFFFFFFFF
      → Returns
          (λ stored b'.
            (stored ≡ true)
            × Returns (λ accepted _. accepted ≡ true) (verify_kernel_hash controller engine b'))
          (store_kernel_hash controller engine b)
  unfolding verify_kernel_hash hash256_generate
  verify_kernel_hash-store_kernel_hash b large small =
      returns true (hash_stored b) (store_kernel_hash-true b)
        (refl, returns true (record (hash_stored b) { digest = digest_after b }) run refl)
    where
      not_zero : (b.kernel_total_size == 0) ≡ false
      not_zero = ground arith

      not_all_ones : (b.kernel_total_size == 0xFFFFFFFF) ≡ false
      not_all_ones = ground arith

      zero_plus : (k : ℕ) → k ≡ 0 + k
      zero_plus k = omega arith

      run :
          verify_kernel_hash controller engine (hash_stored b)
          ≡ ok (true, record (hash_stored b) { digest = digest_after b })
      run =
          rw
            (
              size_stored b (omega arith),
              not_zero,
              not_all_ones,
              is_engine.error_free (contents_after b) kernel_base
                  (sub32 (b.kernel_total_size / 32) 1),
              verify_bytes-true 32 (contents_after b) hash_sector (digest_after b) 0
                  (λ k h. digest_stored b k h ∙ ap (digest_after b) (zero_plus k)),
            )
            refl
