-- ===== src/Usbhc/Pick.antt =====
-- The pipe whose interrupt is handled, and the pipe that a driver gets.
use operating_system_cortex.Base.{
  ℕ, zero, suc, ◌+◌, ◌-◌, ◌%◌, ◌<◌, ◌≡◌, ◌⊎◌, inl, inr, refl, sym, ◌∙◌, true, false, false≢true,
  leb, Bool-cases, if◌then◌else◌, Returns, returns, test_bit, arith,
}
use operating_system_cortex.Usbhc.{Usbhc}
use operating_system_cortex.Usbhc.Pipes.{pick_pipe, usbhc_pick_interrupted_pipe}

-- The i-th pipe from `start` on, around the ten.
abbrev pub around : (start i : ℕ) → ℕ
around start i = (start + i) % 10

-- The first interrupted pipe from `start` on.
pub record Picked (pipe_mask start pipe : ℕ) : Type 0 where
  pub distance : ℕ
  pub in_reach : distance < 10
  pub at : pipe ≡ around start distance
  pub interrupted : test_bit pipe_mask pipe ≡ true
  pub first : (i : ℕ) → i < distance → test_bit pipe_mask (around start i) ≡ false

next_around :
    (start d : ℕ)
    → (if leb 10 (suc (around start d)) then 0 else suc (around start d)) ≡ around start (suc d)
next_around start d = ground arith

lt_or_eq : (i d : ℕ) → i < suc d → (i < d) ⊎ (i ≡ d)
lt_or_eq i d h = ground arith

none_through :
    (pipe_mask start d : ℕ)
    → ((i : ℕ) → i < d → test_bit pipe_mask (around start i) ≡ false)
    → test_bit pipe_mask (around start d) ≡ false
    → (i : ℕ) → i < suc d
    → test_bit pipe_mask (around start i) ≡ false
none_through pipe_mask start d before at i h = elim (lt_or_eq i d h) [
  | inl l ↦ before i l
  | inr e ↦ rw e at
]

pick_pipe-Picked :
    (left pipe_mask start d : ℕ)
    → d + left ≡ 10
    → ((i : ℕ) → i < d → test_bit pipe_mask (around start i) ≡ false)
    → (j : ℕ) × (j < 10) × (test_bit pipe_mask (around start j) ≡ true)
    → Picked pipe_mask start (pick_pipe left pipe_mask (around start d))
unfolding pick_pipe
pick_pipe-Picked zero pipe_mask start d e none_before some_pipe =
    absurd (false≢true (sym (none_before some_pipe.0 (omega (arith, some_pipe.1))) ∙ some_pipe.2))
pick_pipe-Picked (suc left) pipe_mask start d e none_before some_pipe =
    elim (Bool-cases (test_bit pipe_mask (around start d))) [
      | inl h ↦ rw h (record {
        distance = d;
        in_reach = omega arith;
        at = refl;
        interrupted = h;
        first = none_before;
      })
      | inr h ↦
          rw (h, next_around start d)
            (pick_pipe-Picked left pipe_mask start (suc d) (omega arith)
              (none_through pipe_mask start d none_before h) some_pipe)
    ]

Picked-around :
    (pipe_mask start x y : ℕ)
    → x ≡ y
    → Picked pipe_mask start (pick_pipe 10 pipe_mask y)
    → Picked pipe_mask start (pick_pipe 10 pipe_mask x)
Picked-around pipe_mask start x y e p = rw e p

start_around : (start : ℕ) → start < 10 → start ≡ around start 0
start_around start l = omega arith

reaches : (start j : ℕ) → start < 10 → j < 10 → around start ((j + 10 - start) % 10) ≡ j
reaches start j l k = omega arith

start_next :
    (start : ℕ) → start < 10 → (if leb 10 (suc start) then 0 else suc start) ≡ around start 1
start_next start l = ground arith

-- Where a pipe of 0 to 9 interrupts, the first such pipe from the starting point on, around the
-- ten pipes, is picked, and the next search starts one pipe further, while the starting point is
-- below 10.
pub usbhc_pick_interrupted_pipe-Picked :
    {H : Type 0} (pipe_mask start j : ℕ) (s : Usbhc H)
    → s.pipe_start ≡ start
    → start < 10
    → j < 10
    → test_bit pipe_mask j ≡ true
    → Returns
        (λ pipe t. Picked pipe_mask start pipe × (t.pipe_start ≡ around start 1))
        (usbhc_pick_interrupted_pipe pipe_mask s)
unfolding usbhc_pick_interrupted_pipe
usbhc_pick_interrupted_pipe-Picked pipe_mask start j s e l k h = returns _ _ refl (
  rw e (
      Picked-around pipe_mask start _ _ (start_around start l) (
        pick_pipe-Picked 10 pipe_mask start 0 refl (λ i m. absurd (omega arith))
          ((j + 10 - start) % 10, omega arith, rw (reaches start j l k) h))),
  rw e (start_next start l),
)
