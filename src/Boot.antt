-- ===== src/Boot.antt =====
-- bootloader/src/bootloader.c and bootloader/src/drivers/flash.c: the commands that erase, write and
-- check the kernel in flash, and the command loop of bootloader/src/main.c. The flash controller and the
-- hash engine are hardware, and interfaces here; waiting until they are ready is left out.
pub mod Commands
pub mod Hash
pub mod Tests
use operating_system_cortex.Base.{
  ℕ, zero, suc, ◌+◌, ◌-◌, ◌*◌, ◌/◌, ◌%◌, ◌^◌, Bool, true, false, ◌==◌, ltb, leb, ◌&&◌, ◌||◌, not,
  if◌then◌else◌, List, [], ◌∷◌, get_or, u8, u16, u32, sub32, bit_or, Run, Cmd, ok, panic, pure,
  stop, ◌>>=◌, ◌>>◌, bind, continue,
}
use operating_system_cortex.Dlist.{Ptr}
use operating_system_cortex.Bytes.{Bytes, memory_compare}
use operating_system_cortex.Frame.{Bus, Frame, send_response, check_new_frame, resp_ok, resp_error}

-- The flash memory with its controller: the bytes that the processor reads, a page written to the
-- latch buffer at an address, and a write of FCR, which gives the status read from FSR at its end.
pub record Controller (F : Type 0) : Type 0 where
  pub contents : F → Bytes
  pub latch : (address : Ptr) → (page : Bytes) → F → F
  pub command : (fcr : ℕ) → F → ℕ × F

-- The hash engine: the digest of `blocks` + 1 blocks from `start` on, and the status read from ISR
-- at the end.
pub record Engine : Type 0 where
  pub digest_of : Bytes → (start blocks : ℕ) → Bytes
  pub status : Bytes → (start blocks : ℕ) → ℕ

-- The globals of bootloader.c and frame.c.
pub record Boot (F : Type 0) : Type 0 where
  pub kernel_total_size : ℕ
  pub kernel_page : ℕ
  pub flash_buffer : Bytes
  pub boot_signature : Bytes
  pub digest : Bytes
  pub hash_size : ℕ
  pub flash : F
  pub bus : Bus

-- RESP_FLASH_ERROR and the commands
abbrev pub resp_flash_error : ℕ
resp_flash_error = 2 ^ 3

abbrev pub bootloader_base : Ptr
bootloader_base = 0x00400000

abbrev pub kernel_base : Ptr
kernel_base = 0x00404000

-- `status & 0b1110`
abbrev pub has_error : (status : ℕ) → Bool
has_error status = not (status / 2 % 8 == 0)

-- `status & ((1 << 24) | (0b1111 << 8))`
abbrev pub has_hash_error : (status : ℕ) → Bool
has_hash_error status = not (status / 2 ^ 24 % 2 == 0) || not (status / 2 ^ 8 % 16 == 0)

abbrev pub round_up : (n d : ℕ) → ℕ
round_up n d = if n % d == 0 then n / d else n / d + 1

-- The first four bytes of a payload.
unfoldable pub payload_word : (bytes : Bytes) → ℕ
payload_word bytes =
    bit_or (bit_or (bit_or (bit_or 0 (bytes 0)) (bytes 1 * 2 ^ 8)) (bytes 2 * 2 ^ 16))
      (bytes 3 * 2 ^ 24)

-- The data with 0xFF behind its end.
unfoldable pub padded : (bytes : Bytes) → (size : ℕ) → Bytes
padded bytes size = λ i. if ltb i size then bytes i else 0xFF

-- `struct hash` in memory
unfoldable pub hash_bytes : (digest : Bytes) → (size : ℕ) → Bytes
hash_bytes digest size = λ i. if ltb i 32 then digest i else u8 (size / 256 ^ (i - 32))

-- A word that the processor reads.
abbrev pub read_word : Bytes → Ptr → ℕ
read_word m p = m p + m (p + 1) * 2 ^ 8 + m (p + 2) * 2 ^ 16 + m (p + 3) * 2 ^ 24

-- Do so many bytes at an address equal those of a buffer?
unfoldable pub verify_bytes : (count : ℕ) → Bytes → (a : Ptr) → (buffer : Bytes) → (i : ℕ) → Bool
verify_bytes zero m a buffer i = true
verify_bytes (suc count) m a buffer i =
    let rest = verify_bytes count m (a + 1) buffer (i + 1) in
    if m a == buffer i then rest else false

-- The boot signature "StayInBootloader"
abbrev pub boot_trigger : List ℕ
boot_trigger =
    0x53 ∷ 0x74 ∷ 0x61 ∷ 0x79 ∷ 0x49 ∷ 0x6E ∷ 0x42 ∷ 0x6F ∷ 0x6F ∷ 0x74 ∷ 0x6C ∷ 0x6F ∷ 0x61 ∷ 0x64
    ∷ 0x65 ∷ 0x72 ∷ []

module _ {F : Type 0} (controller : Controller F) where
  -- The pages of the two first sectors of 8 KiB.
  unfoldable pub flash_erase_write : (page : ℕ) → (buffer : Bytes) → F → Bool × F
  flash_erase_write page buffer f =
      if leb 32 page
      then (false, f)
      else let (status, f') =
          controller.command (0x5A000000 + page % 2 ^ 16 * 2 ^ 8 + 3)
            (controller.latch (bootloader_base + 512 * page) buffer f) in
        if has_error status
        then (false, f')
        else (verify_bytes 512 (controller.contents f') (bootloader_base + 512 * page) buffer 0, f')

  unfoldable pub flash_write_image_page : (page : ℕ) → (buffer : Bytes) → F → Bool × F
  flash_write_image_page page buffer f =
      let (status, f') =
        controller.command (0x5A000000 + (page + 32) % 2 ^ 8 * 2 ^ 8 + 1)
          (controller.latch (kernel_base + page * 512) buffer f) in
      if has_error status
      then (false, f')
      else (verify_bytes 512 (controller.contents f') (kernel_base + page * 512) buffer 0, f')

  -- The loop of `flash_erase_image`: false if a command fails.
  unfoldable pub erase_from : (count : ℕ) → (sect_8k_base : ℕ) → F → Bool × F
  erase_from zero base f = (true, f)
  erase_from (suc count) base f =
      let (status, f') =
        controller.command (0x5A000000 + (u16 (base / 16 * 16) + 2) * 2 ^ 8 + 7) f in
      let rest = erase_from count (base + 16) f' in if has_error status then (false, f') else rest

  unfoldable pub flash_erase_image : (size : ℕ) → F → ℕ × F
  flash_erase_image size f =
      let sect_8k = round_up (round_up size 512) 16 in
      let (done, f') = erase_from sect_8k 32 f in (if done then u32 (sect_8k * 8192) else 0, f')

  abbrev pub on_flash : {A : Type 0} → (F → A × F) → Cmd (Boot F) A
  on_flash op b = let (a, f) = op b.flash in ok (a, record b { flash = f })
