-- ===== src/Boot/Commands.antt =====
-- bootloader/src/bootloader.c: the commands, and the loop of bootloader/src/main.c that executes the
-- frames; the reset, the light and what is printed are left out.
use operating_system_cortex.Base.{
  ℕ, ◌+◌, ◌*◌, ◌/◌, Bool, true, false, ◌==◌, ltb, ◌&&◌, ◌||◌, not, if◌then◌else◌, List, [], ◌∷◌,
  get_or, u32, sub32, bit_or, Cmd, ok, panic, bind, pure, stop, ◌>>=◌, ◌>>◌,
}
use operating_system_cortex.Dlist.{Ptr}
use operating_system_cortex.Bytes.{Bytes}
use operating_system_cortex.Frame.{send_response, check_new_frame, resp_ok, resp_error}
use operating_system_cortex.Boot.{
  Controller, Engine, Boot, has_hash_error, resp_flash_error, bootloader_base, kernel_base,
  payload_word, padded, hash_bytes, read_word, verify_bytes, boot_trigger, flash_erase_write,
  flash_write_image_page, flash_erase_image, on_flash,
}

-- The sector with the hash
abbrev pub hash_sector : Ptr
hash_sector = bootloader_base + 512 * 30

-- The fields of `struct image_info` that are compared, in their order in memory from the third word on.
abbrev pub info_fields : List ℕ
info_fields = 0x00400000 ∷ 0x4000 ∷ 0x00403E00 ∷ 0x00404000 ∷ 0x1FC000 ∷ 0x00404000 ∷ []

unfoldable pub info_matches : List ℕ → Bytes → (a : Ptr) → Bool
info_matches [] m a = true
info_matches (x ∷ xs) m a = (read_word m a == x) && info_matches xs m (a + 4)

unfoldable pub signature_matches : List ℕ → Bytes → (i : ℕ) → Bool
signature_matches [] m i = true
signature_matches (c ∷ cs) m i =
    let rest = signature_matches cs m (i + 1) in if m i == c then rest else false

module _ {F : Type 0} (controller : Controller F) (engine : Engine) where
  unfoldable pub update : (Boot F → Boot F) → Cmd (Boot F) (Unit {0})
  update f b = ok (tt, f b)

  unfoldable pub clear_boot_signature : Boot F → Boot F
  clear_boot_signature b = record b {
    boot_signature = λ i. if ltb i 32 then 0x00 else b.boot_signature i;
  }

  unfoldable pub check_boot_signature : Boot F → Bool
  check_boot_signature b = signature_matches boot_trigger b.boot_signature 0

  unfoldable pub check_info_match : Boot F → Bool
  check_info_match b = info_matches info_fields (controller.contents b.flash) (kernel_base + 8)

  unfoldable pub erase_kernel_image : (bytes : Bytes) → Cmd (Boot F) Bool
  erase_kernel_image bytes = do
    flash_status ← on_flash controller (flash_erase_image controller (payload_word bytes))
    if flash_status == 0
        then pure false
        else do update (λ b. record b { kernel_total_size = flash_status }); pure true

  -- The page is written from the data, and compared with the padded buffer.
  unfoldable pub write_bootloader_page : (bytes : Bytes) → (size page : ℕ) → Cmd (Boot F) Bool
  write_bootloader_page bytes size page = do
    update (λ b. record b { flash_buffer = padded bytes size })
    written ← on_flash controller (flash_erase_write controller page bytes)
    if not written then stop else λ b.
        if verify_bytes 512 (controller.contents b.flash) (bootloader_base + page * 512)
          b.flash_buffer 0
        then ok (true, b)
        else panic

  unfoldable pub write_kernel_page : (bytes : Bytes) → (size page : ℕ) → Cmd (Boot F) Bool
  write_kernel_page bytes size page = do
    update (λ b. record b { flash_buffer = padded bytes size })
    written ← on_flash controller (flash_write_image_page controller page (padded bytes size))
    if not written then stop else λ b.
        if verify_bytes 512 (controller.contents b.flash) (kernel_base + 512 * page) b.flash_buffer
          0
        then ok (true, b)
        else panic

  -- `hash256_generate` on the kernel, into the digest of `kernel_hash`.
  unfoldable pub hash256_generate : (size : ℕ) → Cmd (Boot F) (Unit {0})
  hash256_generate size b =
      let blocks = sub32 (size / 32) 1 in
      if has_hash_error (engine.status (controller.contents b.flash) kernel_base blocks)
      then panic
      else ok (
        tt,
        record b { digest = engine.digest_of (controller.contents b.flash) kernel_base blocks },
      )

  unfoldable pub load_hash : Cmd (Boot F) (Unit {0})
  load_hash b = bind (hash256_generate b.kernel_total_size b) (λ (u, h). ok (
    tt,
    record h {
      hash_size = h.kernel_total_size;
      flash_buffer = padded (hash_bytes h.digest h.kernel_total_size) 36;
    },
  ))

  unfoldable pub store_kernel_hash : Cmd (Boot F) Bool
  store_kernel_hash = do
    load_hash
    b ← (λ b. ok (b, b))
    written ← on_flash controller (flash_erase_write controller 30 b.flash_buffer)
    if not written then pure false else λ b.
        ok (verify_bytes 512 (controller.contents b.flash) hash_sector b.flash_buffer 0, b)

  unfoldable pub verify_kernel_hash : Cmd (Boot F) Bool
  verify_kernel_hash b =
      let size = read_word (controller.contents b.flash) (hash_sector + 32) in
      if (size == 0) || (size == 0xFFFFFFFF)
      then ok (false, b)
      else bind (hash256_generate size b) (λ (u, b').
        ok (verify_bytes 32 (controller.contents b'.flash) hash_sector b'.digest 0, b'))

  unfoldable pub set_flash_write_offset : (bytes : Bytes) → Boot F → Boot F
  set_flash_write_offset bytes b = record b { kernel_page = payload_word bytes }

  -- Is the kernel started, for a boot with or without the button?
  unfoldable pub execute_kernel : (button : Bool) → Cmd (Boot F) Bool
  execute_kernel button b =
      let triggered = check_boot_signature b in
      let b₁ = if triggered then clear_boot_signature b else b in
      if triggered || button
      then ok (false, b₁)
      else bind (verify_kernel_hash b₁) (λ (hash_ok, b₂). ok (check_info_match b₁ && hash_ok, b₂))

  unfoldable pub respond : (error_code : ℕ) → Cmd (Boot F) (Unit {0})
  respond error_code = update (λ b. record b { bus = send_response error_code b.bus })

  abbrev flash_error : ℕ
  flash_error = bit_or resp_error resp_flash_error

  unfoldable pub respond_status : Bool → Cmd (Boot F) (Unit {0})
  respond_status status = respond (if status then resp_ok else flash_error)

  unfoldable pub erase_command : (bytes : Bytes) → Cmd (Boot F) (Unit {0})
  erase_command bytes = do status ← erase_kernel_image bytes; respond_status status

  unfoldable pub write_page_command : (bytes : Bytes) → (size : ℕ) → Cmd (Boot F) (Unit {0})
  write_page_command bytes size = do
    b ← (λ b. ok (b, record b { kernel_page = u32 (b.kernel_page + 1) }))
    status ← write_kernel_page bytes size b.kernel_page
    respond_status status

  unfoldable pub write_last_command : (bytes : Bytes) → (size : ℕ) → Cmd (Boot F) (Unit {0})
  write_last_command bytes size = do
    b ← (λ b. ok (b, b))
    status ← write_kernel_page bytes size b.kernel_page
    if status then pure tt else respond flash_error
    respond resp_ok
    stored ← store_kernel_hash
    if stored then pure tt else stop

  unfoldable pub set_offset_command : (bytes : Bytes) → Cmd (Boot F) (Unit {0})
  set_offset_command bytes = do update (set_flash_write_offset bytes); respond resp_ok

  -- One frame, by its command; another command than these is ignored.
  unfoldable pub execute : (cmd : ℕ) → (bytes : Bytes) → (size : ℕ) → Cmd (Boot F) (Unit {0})
  execute cmd bytes size =
      if cmd == 0x03
      then erase_command bytes
      else if cmd == 0x04
      then write_page_command bytes size
      else if cmd == 0x05
      then write_last_command bytes size
      else if cmd == 0x06
      then set_offset_command bytes
      else if cmd == 0x07
      then respond resp_ok
      else pure tt

  unfoldable pub command_loop_step : Cmd (Boot F) (Unit {0})
  command_loop_step = do
    b ← (λ b. ok (b, b))
    if check_new_frame b.bus == 0
        then pure tt
        else execute b.bus.frame.cmd (λ i. get_or b.bus.frame.payload i 0) b.bus.frame.size
