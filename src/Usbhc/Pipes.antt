-- ===== src/Usbhc/Pipes.antt =====
-- kernel/src/drivers/usbhc.c: claiming and configuring pipes, and the choice of the pipe whose
-- interrupt is handled. Bit 18 of a pipe's status says that its configuration is accepted.
use operating_system_cortex.Base.{
  ℕ, zero, suc, ◌+◌, ◌-◌, ◌*◌, ◌^◌, Bool, true, false, ◌==◌, ltb, leb, not, ◌&&◌, if◌then◌else◌,
  List, [], ◌∷◌, length, Option, none, some, Cmd, ok, pure, ◌>>=◌, ◌>>◌, u32, test_bit, set_bit,
  clear_bit, bit_or,
}
use operating_system_cortex.Usb.Requests.{abort, max_pipes}
use operating_system_cortex.Usbhc.{
  PipeState, free, claimed, idle, PipeConfig, UsbPipe, clear_status, enable_interrupt, reset_assert,
  reset_deassert, enable_pipe, set_configuration, set_addr, global_enable_interrupt, Registers,
  Usbhc, Callbacks, load_pipe, store_pipe, set_pipe_state, act, read_register, usbhw_pfreeze,
}
use operating_system_cortex.Usbhc.Transfers.{
  is_state, first_urb, usbhc_abort_transfer, usbhc_end_urb,
}

-- The rounds of the search, from `pipe` on.
unfoldable pub pick_pipe : (left pipe_mask pipe : ℕ) → ℕ
pick_pipe zero pipe_mask pipe = pipe
pick_pipe (suc left) pipe_mask pipe =
    let rest = pick_pipe left pipe_mask (if leb max_pipes (suc pipe) then 0 else suc pipe) in
    if test_bit pipe_mask pipe then pipe else rest

unfoldable pub usbhc_pick_interrupted_pipe : {H : Type 0} → (pipe_mask : ℕ) → Cmd (Usbhc H) ℕ
usbhc_pick_interrupted_pipe pipe_mask s = ok (
  pick_pipe max_pipes pipe_mask s.pipe_start,
  record s { pipe_start = if leb max_pipes (suc s.pipe_start) then 0 else suc s.pipe_start },
)

-- The first free pipe behind the first `i` ones.
unfoldable pub free_pipe : List UsbPipe → (i : ℕ) → Option ℕ
free_pipe [] i = none
free_pipe (p ∷ ps) i =
    let rest = free_pipe ps (suc i) in if is_state p.state free then some i else rest

unfoldable pub claim : {H : Type 0} → Option ℕ → Cmd (Usbhc H) (Option ℕ)
claim none = pure none
claim (some n) = do set_pipe_state n claimed; pure (some n)

-- NULL is `none`.
unfoldable pub usbhc_request_pipe : {H : Type 0} → Cmd (Usbhc H) (Option ℕ)
usbhc_request_pipe s = claim (free_pipe s.pipes 0) s

-- The loop from bit i - 1 downwards; below bit 0 it ends with i = 2 ^ 32 - 1.
unfoldable pub highest_bit : (i size : ℕ) → ℕ
highest_bit zero size = 2 ^ 32 - 1
highest_bit (suc i) size = let rest = highest_bit i size in if test_bit size i then i else rest

-- For 0 no bit ends the loop, and its index is out of range. `size & (num - 1)` is whether a bit below the highest one is set.
unfoldable pub usbhc_size_to_pipe_size : (size : ℕ) → Option ℕ
usbhc_size_to_pipe_size size =
    let i = highest_bit 32 size in
    let j = if size == 2 ^ i then i else suc i in
    if size == 0 then none else if leb 3 j && leb j 10 then some (j - 3) else none

module _ {H : Type 0} (registers : Registers H) (callbacks : Callbacks H) where
  -- The configuration is written without and with the bit that allocates.
  unfoldable pub write_configuration : (num cfg : ℕ) → Cmd (Usbhc H) (Unit {0})
  write_configuration num cfg = do
    act registers (set_configuration num (clear_bit cfg 1))
    act registers (set_configuration num (set_bit (clear_bit cfg 1) 1))

  unfoldable pub usbhc_alloc_pipe : (n cfg : ℕ) → Cmd (Usbhc H) Bool
  usbhc_alloc_pipe n cfg = do
    p ← load_pipe n
    act registers (enable_pipe p.num)
    act registers (reset_assert p.num)
    act registers (reset_deassert p.num)
    write_configuration p.num cfg
    status ← read_register registers (registers.pipe_status p.num)
    if not (test_bit status 18) then pure false else (do
      act registers (clear_status p.num 0xFF)
      act registers (enable_interrupt p.num (2 ^ 3 + 2 ^ 5 + 2 ^ 6 + 2 ^ 4))
      act registers (global_enable_interrupt (2 ^ (p.num + 8)))
      act registers (enable_interrupt p.num usbhw_pfreeze)
      set_pipe_state n idle
      pure true)

  unfoldable pub is_inactive : PipeState → Bool
  is_inactive free = true
  is_inactive claimed = true
  is_inactive s = false

  unfoldable pub usbhc_pipe_reallocate : (n : ℕ) → Cmd (Usbhc H) Bool
  usbhc_pipe_reallocate n = do
    p ← load_pipe n
    if is_inactive p.state then pure true else (do
      usbhc_abort_transfer registers callbacks n
      cfg ← read_register registers (registers.configuration p.num)
      write_configuration p.num cfg
      status ← read_register registers (registers.pipe_status p.num)
      if not (test_bit status 18) then pure false else (do
        p ← load_pipe n
        u ← first_urb p.urb_list
        usbhc_end_urb registers callbacks u n abort
        pure true))

  -- The pipes from `n` on, `left` of them.
  unfoldable pub reallocate_from : (left n : ℕ) → Cmd (Usbhc H) Bool
  reallocate_from zero n = pure true
  reallocate_from (suc left) n = do
    reallocated ← usbhc_pipe_reallocate n
    if not reallocated then pure false else reallocate_from left (suc n)

  unfoldable pub usbhc_solve_pipe_conflicts : (n : ℕ) → Cmd (Usbhc H) Bool
  usbhc_solve_pipe_conflicts n = do
    p ← load_pipe n
    λ s. reallocate_from (length s.pipes - suc p.num) (suc p.num) s

  unfoldable pub usbhc_set_address : (n addr : ℕ) → Cmd (Usbhc H) (Unit {0})
  usbhc_set_address n addr = do p ← load_pipe n; act registers (set_addr p.num addr)

  -- The fields of the configuration register.
  unfoldable pub cfg_reg : PipeConfig → (size : ℕ) → ℕ
  cfg_reg cfg size = bit_or (u32 (cfg.frequency * 2 ^ 24)) (
      bit_or (cfg.ep_addr * 2 ^ 16) (
        bit_or (cfg.type * 2 ^ 12)
          (bit_or (cfg.bank_switch * 2 ^ 10) (bit_or (size * 2 ^ 4) ((cfg.banks - 1) * 2 ^ 2)))))

  unfoldable pub configure_sized : (n : ℕ) → PipeConfig → Option ℕ → Cmd (Usbhc H) Bool
  configure_sized n cfg none = pure false
  configure_sized n cfg (some size) = if ltb cfg.banks 1 then pure false else (do
    allocated ← usbhc_alloc_pipe n (cfg_reg cfg size)
    if not allocated then pure false else (do
      usbhc_set_address n cfg.dev_addr
      p ← load_pipe n
      store_pipe n (record p { ep_size = cfg.size; config = cfg; state = idle })
      usbhc_solve_pipe_conflicts n
      pure true))

  unfoldable pub usbhc_pipe_configure : (n : ℕ) → PipeConfig → Cmd (Usbhc H) Bool
  usbhc_pipe_configure n cfg = do
    p ← load_pipe n
    if not (p.num == 0) && ltb 64 cfg.size
        then pure false
        else if not (is_state p.state claimed)
        then pure false
        else configure_sized n cfg (usbhc_size_to_pipe_size cfg.size)

  unfoldable pub usbhc_set_ep_size : (n ep_size : ℕ) → Cmd (Usbhc H) (Unit {0})
  usbhc_set_ep_size n ep_size = do p ← load_pipe n; store_pipe n (record p { ep_size = ep_size })
