-- ===== src/Sched/Nap.antt =====
-- `thread_sleep`, and the stack of a new thread.
use operating_system_cortex.Base.{
  ℕ, zero, suc, ◌+◌, ◌-◌, ◌*◌, ◌≤◌, ◌<◌, ◌^◌, ◌≡◌, refl, ap, ◌∙◌, ==_self, ne→==_false, List, [],
  ◌∷◌, length, get_elem?, some, u64, Returns, returns, arith,
}
use operating_system_cortex.Dlist.{Ptr, null}
use operating_system_cortex.Sched.{
  sleep_q, Kernel, set_thread, update_thread, get_kernel, put_kernel,
}
use operating_system_cortex.Sched.Core.{get_kernel_tick, reschedule, systick_rvr}
use operating_system_cortex.Sched.View.{View, upd, nodes_of}
use operating_system_cortex.Sched.Pick.{Shows}
use operating_system_cortex.Sched.Sleep.{
  IsLoose, Sleeps, insert_delay, wake_of, scheduler_enqueue_delay-insert_delay,
}
use operating_system_cortex.Sched.Threads.{
  Words, put_word, push_words, stack_frame, stack_setup, thread_sleep,
}

-- The kernel in which the current thread has its tick to wake.
abbrev pub timed : Kernel → (ms : ℕ) → Kernel
timed k ms =
    set_thread k k.curr_thread
      (record (k.table k.curr_thread) { tick_to_wake = u64 (k.tick + u64 (ms * systick_rvr)) })

wake_of-timed :
    (k : Kernel) (ms : ℕ)
    → wake_of (timed k ms) k.curr_thread ≡ u64 (k.tick + u64 (ms * systick_rvr))
unfolding set_thread
wake_of-timed k ms = rw (wake_of, ==_self k.curr_thread) refl

-- `thread_sleep` gives the current thread the tick to wake that lies ms times SYSTICK_RVR behind the
-- kernel's tick, puts it into the sleep queue in front of the first thread that wakes later, and
-- asks for a reschedule; the other lists hold what they held, and the other ticks to wake stay. The thread must be in no list, and fuel above the queue's length is enough.
pub thread_sleep-insert_delay :
    (k : Kernel) (view : View) (fuel ms : ℕ)
    → Shows k view
    → IsLoose k view k.curr_thread
    → suc (length (nodes_of sleep_q (view sleep_q))) < 2 ^ 32
    → length (view sleep_q) < fuel
    → let slept = insert_delay (wake_of (timed k ms)) k.curr_thread (view sleep_q) in
      Returns
        (λ u k'.
          Sleeps (timed k ms) (upd view sleep_q slept) k.curr_thread u k'
          × (k'.reschedule_pending ≡ 1)
          × ((k'.table k.curr_thread).tick_to_wake ≡ u64 (k.tick + u64 (ms * systick_rvr))))
        (thread_sleep fuel ms k)
unfolding thread_sleep get_kernel_tick get_kernel update_thread set_thread reschedule put_kernel
thread_sleep-insert_delay k view fuel ms rep loose small enough =
    elim (scheduler_enqueue_delay-insert_delay (timed k ms) view k.curr_thread fuel rep still small
      enough).0 [
        | returns u k' eq (shows, noted, first, kept) ↦
            returns tt (record k' { reschedule_pending = 1 })
              (rw (ne→==_false k.curr_thread null loose.ne_null, eq) refl)
              (
                (shows, noted, first, kept),
                refl,
                ap (λ (f : Ptr → ℕ). f k.curr_thread) kept ∙ wake_of-timed k ms,
              )
      ]
  where
    still : IsLoose (timed k ms) view k.curr_thread
    still = record { free = loose.free; obj = loose.obj; ne_null = loose.ne_null; new = loose.new }

-- The words from an address down.
abbrev pub WordsDown : Words → Ptr → List ℕ → Type 0
WordsDown w p [] = Unit {0}
WordsDown w p (x ∷ xs) = (w p ≡ x) × WordsDown w (p - 4) xs

push_words-WordsDown :
    (x : ℕ) (xs : List ℕ) (sp : Ptr) (w : Words)
    → 4 * length xs ≤ sp
    → let r = push_words (x ∷ xs) sp w in
      (r.0 ≡ sp - 4 * length xs) × WordsDown r.1 sp (x ∷ xs) × ((a : Ptr) → sp < a → r.1 a ≡ w a)
unfolding push_words put_word
push_words-WordsDown x [] sp w room = (
  omega arith,
  (rw (==_self sp) refl, tt),
  λ a h. rw (ne→==_false a sp (λ e. omega (arith, e, h))) refl,
)
push_words-WordsDown x (y ∷ ys) sp w room =
    let (at, down, above) = push_words-WordsDown y ys (sp - 4) (put_word w sp x) (omega arith) in
    (
      omega (arith, at),
      (above sp (omega arith) ∙ rw (==_self sp) refl, down),
      λ a h. above a (omega arith) ∙ rw (ne→==_false a sp (λ e. omega (arith, e, h))) refl,
    )

-- The registers of a new thread below the address `sp` as the exception return pops them, R0 to R3,
-- R12, LR, PC and xPSR, and below these R11 down to R4.
pub record Stacked (w : Words) (sp thread thread_exit arg : ℕ) : Type 0 where
  pub xpsr : w (sp - 4) ≡ 0x1000000
  pub pc : w (sp - 8) ≡ thread
  pub lr : w (sp - 12) ≡ thread_exit
  pub r12 : w (sp - 16) ≡ 0xCAFECAFE
  pub r3 : w (sp - 20) ≡ 0xCAFECAFE
  pub r2 : w (sp - 24) ≡ 0xCAFECAFE
  pub r1 : w (sp - 28) ≡ 0xCAFECAFE
  pub r0 : w (sp - 32) ≡ arg
  pub r11 : w (sp - 36) ≡ 0xCAFECAFE
  pub r10 : w (sp - 40) ≡ 0xCAFECAFE
  pub r9 : w (sp - 44) ≡ 0xCAFECAFE
  pub r8 : w (sp - 48) ≡ 0xCAFECAFE
  pub r7 : w (sp - 52) ≡ 0xCAFECAFE
  pub r6 : w (sp - 56) ≡ 0xCAFECAFE
  pub r5 : w (sp - 60) ≡ 0xCAFECAFE
  pub r4 : w (sp - 64) ≡ 0xCAFECAFE

WordsDown-at :
    (w : Words) (p : Ptr) (xs : List ℕ) (i : ℕ) (x : ℕ) (a : Ptr)
    → WordsDown w p xs
    → get_elem? xs i ≡ some x
    → a ≡ p - 4 * i
    → w a ≡ x
WordsDown-at w p [] i x a down e at = grind arith
WordsDown-at w p (y ∷ ys) zero x a (first, down) e at = grind arith
WordsDown-at w p (y ∷ ys) (suc i) x a (first, down) e at =
    WordsDown-at w (p - 4) ys i x a down e (omega (arith, at))

stack_frame-Stacked :
    (w : Words) (sp : Ptr) (thread thread_exit arg : ℕ)
    → WordsDown w (sp - 4) (stack_frame thread thread_exit arg)
    → Stacked w sp thread thread_exit arg
stack_frame-Stacked w sp thread thread_exit arg down =
    let word = WordsDown-at w (sp - 4) (stack_frame thread thread_exit arg) in
    record {
      xpsr = word 0 _ _ down refl (omega arith);
      pc = word 1 _ _ down refl (omega arith);
      lr = word 2 _ _ down refl (omega arith);
      r12 = word 3 _ _ down refl (omega arith);
      r3 = word 4 _ _ down refl (omega arith);
      r2 = word 5 _ _ down refl (omega arith);
      r1 = word 6 _ _ down refl (omega arith);
      r0 = word 7 _ _ down refl (omega arith);
      r11 = word 8 _ _ down refl (omega arith);
      r10 = word 9 _ _ down refl (omega arith);
      r9 = word 10 _ _ down refl (omega arith);
      r8 = word 11 _ _ down refl (omega arith);
      r7 = word 12 _ _ down refl (omega arith);
      r6 = word 13 _ _ down refl (omega arith);
      r5 = word 14 _ _ down refl (omega arith);
      r4 = word 15 _ _ down refl (omega arith);
    }

-- `stack_setup` leaves the sixteen registers of a new thread below the top of its stack at the
-- places the exception return and the context switch take them from: xPSR with the Thumb bit, the
-- thread's entry as PC, `thread_exit` as LR, the argument in R0, and 0xCAFECAFE in R1 to R12. It
-- returns the address of the lowest one and writes nothing from the top of the stack on. There must
-- be room for them.
pub stack_setup-Stacked :
    (sp : Ptr) (thread thread_exit arg : ℕ) (w : Words)
    → 64 ≤ sp
    → let r = stack_setup sp thread thread_exit arg w in
      (r.0 ≡ sp - 64) × Stacked r.1 sp thread thread_exit arg × ((a : Ptr) → sp ≤ a → r.1 a ≡ w a)
unfolding stack_setup
stack_setup-Stacked sp thread thread_exit arg w room =
    let pushed = push_words-WordsDown 0x1000000 _ (sp - 4) w (omega arith) in
    (
      pushed.0 ∙ omega arith,
      stack_frame-Stacked _ sp thread thread_exit arg pushed.1,
      λ a h. pushed.2 a (omega (arith, h)),
    )
