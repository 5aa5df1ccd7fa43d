-- ===== src/Boot/Tests.antt =====
-- A flash memory that executes the erase-write command, and an engine whose digest are the first bytes
-- of the kernel.
use operating_system_cortex.Base.{
  ℕ, ◌+◌, ◌-◌, ◌*◌, ◌/◌, ◌%◌, ◌^◌, ◌<◌, ◌≤◌, ◌≡◌, ◌⊎◌, inl, inr, refl, ap, true, false, ltb, leb,
  ◌&&◌, if◌then◌else◌, [], arith, Returns,
}
use operating_system_cortex.Dlist.{Ptr}
use operating_system_cortex.Bytes.{Bytes}
use operating_system_cortex.Frame.{state_idle}
use operating_system_cortex.Boot.{Controller, Engine, Boot, bootloader_base}
use operating_system_cortex.Boot.Commands.{store_kernel_hash, verify_kernel_hash}
use operating_system_cortex.Boot.Hash.{IsFlash, IsEngine, verify_kernel_hash-store_kernel_hash}

record FlashMemory : Type 0 where
  bytes : Bytes
  latched : Bytes

abbrev write_page : (t : Ptr) → (page m : Bytes) → Bytes
write_page t page m a = if leb t a && ltb a (t + 512) then page (a - t) else m a

abbrev page_of : (fcr : ℕ) → ℕ
page_of fcr = fcr / 2 ^ 8 % 2 ^ 16

abbrev controller : Controller FlashMemory
controller = record {
  contents = λ f. f.bytes;
  latch = λ address page f. record f { latched = page };
  command = λ fcr f.
      (1, record f { bytes = write_page (bootloader_base + 512 * page_of fcr) f.latched f.bytes });
}

page_of-fcr : (page : ℕ) → page < 32 → page_of (0x5A000000 + page % 2 ^ 16 * 2 ^ 8 + 3) ≡ page
page_of-fcr page h = omega (arith, h)

write_page_inside : (t i : ℕ) (page m : Bytes) → i < 512 → write_page t page m (t + i) ≡ page i
write_page_inside t i page m h = rw (inside) (ap page offset)
  where
    inside : (leb t (t + i) && ltb (t + i) (t + 512)) ≡ true
    inside = ground (arith, h)

    offset : t + i - t ≡ i
    offset = omega arith

write_page_outside :
    (t a : ℕ) (page m : Bytes) → (a < t) ⊎ (t + 512 ≤ a) → write_page t page m a ≡ m a
write_page_outside t a page m (inl h) = ground (arith, h)
write_page_outside t a page m (inr h) = ground (arith, h)

controller-IsFlash : IsFlash controller
controller-IsFlash = record {
  error_free = λ page buffer f h. refl;
  written = λ page buffer f h i l.
      rw (page_of-fcr page h) (write_page_inside (bootloader_base + 512 * page) i buffer f.bytes l);
  kept = λ page buffer f h a out.
      rw (page_of-fcr page h)
        (write_page_outside (bootloader_base + 512 * page) a buffer f.bytes out);
}

abbrev engine : Engine
engine = record { digest_of = λ m start n i. m (start + i); status = λ m start n. 1 }

engine-IsEngine : IsEngine engine
engine-IsEngine = record {
  error_free = λ m start n. refl;
  from_start = λ m m' start n i same. same (start + i) (omega arith);
}

abbrev boot : Boot FlashMemory
boot = record {
  kernel_total_size = 8192;
  kernel_page = 0;
  flash_buffer = λ i. 0;
  boot_signature = λ i. 0;
  digest = λ i. 0;
  hash_size = 0;
  flash = record { bytes = λ a. a % 251; latched = λ i. 0 };
  bus = record {
    bus_state = state_idle;
    frame = record { cmd = 5; size = 0; payload = []; fcs = 0 };
    frame_index = 0;
    frame_received = 1;
    timer = false;
    sent = [];
  };
}

verify_kernel_hash-store_kernel_hash_example :
    Returns
      (λ stored b'.
        (stored ≡ true)
        × Returns (λ accepted _. accepted ≡ true) (verify_kernel_hash controller engine b'))
      (store_kernel_hash controller engine boot)
verify_kernel_hash-store_kernel_hash_example =
    verify_kernel_hash-store_kernel_hash controller engine controller-IsFlash engine-IsEngine boot
      (omega arith) (omega arith)
