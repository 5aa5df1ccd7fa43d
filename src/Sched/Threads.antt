-- ===== src/Sched/Threads.antt =====
-- kernel/src/kernel/thread.c, and the rest of scheduler.c. `pmalloc` and `thread_exit` are
-- arguments: the page allocator's answer to a number of pages, and the address of that function.
-- The name of a thread is left out.
use operating_system_cortex.Base.{
  ℕ, ◌+◌, ◌-◌, ◌*◌, ◌/◌, ◌%◌, ◌==◌, if◌then◌else◌, List, [], ◌∷◌, none, u32, u64, Cmd, ok, bind,
  pure, stop, ◌>>=◌, ◌>>◌,
}
use operating_system_cortex.Dlist
use operating_system_cortex.Dlist.{Ptr, null, Node, put}
use operating_system_cortex.Sched.{
  Class, threads, rq_node, thread_node, Kernel, into_list, read_thread, update_thread, get_kernel,
  put_kernel,
}
use operating_system_cortex.Sched.Classes.{enqueue, block, unblock}
use operating_system_cortex.Sched.Core.{
  get_thread, suspend_scheduler, resume_scheduler, get_kernel_tick, scheduler_enqueue_delay,
  reschedule, systick_rvr, core_scheduler,
}

-- Words of memory.
abbrev pub Words : Type 0
Words = Ptr → ℕ

unfoldable pub put_word : Words → Ptr → ℕ → Words
put_word w p x a = if a == p then x else w a

-- `*stack_pointer-- = x` for each word, but no step down behind the last one.
unfoldable pub push_words : List ℕ → (stack_pointer : Ptr) → Words → Ptr × Words
push_words [] sp w = (sp, w)
push_words (x ∷ []) sp w = (sp, put_word w sp x)
push_words (x ∷ y ∷ xs) sp w = push_words (y ∷ xs) (sp - 4) (put_word w sp x)

abbrev pub unused : ℕ
unused = 0xCAFECAFE

-- The words in the order in which they are stored: xPSR, PC, LR, R12, R3 to R1, R0, R11 to R4.
abbrev pub stack_frame : (thread thread_exit arg : ℕ) → List ℕ
stack_frame thread thread_exit arg =
    0x1000000 ∷ thread ∷ thread_exit ∷ unused ∷ unused ∷ unused ∷ unused ∷ arg ∷ unused ∷ unused
    ∷ unused ∷ unused ∷ unused ∷ unused ∷ unused ∷ unused ∷ []

unfoldable pub stack_setup :
    (stack_pointer : Ptr) → (thread thread_exit arg : ℕ) → Words → Ptr × Words
stack_setup sp thread thread_exit arg w = push_words (stack_frame thread thread_exit arg) (sp - 4) w

-- `struct thread_info`, less the name
pub record ThreadInfo : Type 0 where
  pub stack_size : ℕ
  pub thread : Ptr
  pub arg : Ptr
  pub class : Class
  pub code_addr : Ptr

-- sizeof(struct thread)
abbrev pub thread_size : ℕ
thread_size = 120

-- The kernel with the memory of the stacks and the static counter of `new_thread`.
pub record Creation : Type 0 where
  pub kernel : Kernel
  pub words : Words
  pub tid : ℕ

unfoldable pub page_count : (stack_size : ℕ) → ℕ
page_count stack_size =
    let size = u32 (thread_size + stack_size * 4) in
    if size % 512 == 0 then size / 512 else size / 512 + 1

-- The nodes of a new thread refer to it, and are in no list.
unfoldable pub init_nodes : Ptr → Cmd Kernel (Unit {0})
init_nodes t k = ok (
  tt,
  record k {
    nodes =
        put (put (k.nodes) (rq_node t) (record { prev = null; next = null; obj = t }))
          (thread_node t) (record { prev = null; next = null; obj = t });
  },
)

-- What `new_thread` does to the kernel, for the thread at `t` with the number `tid`.
unfoldable pub add_thread : ThreadInfo → (t : Ptr) → (tid : ℕ) → Cmd Kernel (Unit {0})
add_thread info t tid = do
  suspend_scheduler
  init_nodes t
  update_thread t (λ v. record v { class = info.class; rq_list = none })
  enqueue info.class t
  into_list threads (Dlist.insert_first (thread_node t))
  update_thread t (λ v. record v { tick_to_wake = 0; runtime_curr = 0; runtime_new = 0 })
  update_thread t (λ v. record v { tid = tid; exit_pending = 0; code_addr = info.code_addr })
  resume_scheduler

unfoldable pub new_thread : (pmalloc : ℕ → Ptr) → (thread_exit : Ptr) → ThreadInfo → Cmd Creation ℕ
new_thread pmalloc thread_exit info c =
    let t = pmalloc (page_count info.stack_size) in
    let top = u32 (t + thread_size + info.stack_size * 4 - 4) in
    let stack = stack_setup top info.thread thread_exit info.arg c.words in
    bind (add_thread info t c.tid c.kernel) (λ (_, k).
      ok ((k.table t).tid, record { kernel = k; words = stack.1; tid = u32 (c.tid + 1) }))

-- `thread_exit`, up to its endless loop
unfoldable pub thread_exit : Cmd Kernel (Unit {0})
thread_exit = do k ← get_kernel; update_thread k.curr_thread (λ v. record v { exit_pending = 1 })

unfoldable pub thread_sleep : (fuel ms : ℕ) → Cmd Kernel (Unit {0})
thread_sleep fuel ms = do
  tick ← get_kernel_tick
  k ← get_kernel
  update_thread k.curr_thread (λ v. record v { tick_to_wake = u64 (tick + u64 (ms * systick_rvr)) })
  scheduler_enqueue_delay fuel k.curr_thread
  reschedule

-- `scheduler_block_thread` and `scheduler_unblock_thread`; `preempt` is what the SysTick interrupt
-- does that `reschedule` pends, before the call goes on.
unfoldable pub leave_current :
    (preempt : Cmd Kernel (Unit {0})) → (thread : Ptr) → Cmd Kernel (Unit {0})
leave_current preempt thread = do
  k ← get_kernel
  if thread == k.curr_thread then (do reschedule; preempt) else pure tt
  k ← get_kernel
  if thread == k.curr_thread then stop else pure tt

unfoldable pub scheduler_unblock_thread :
    (preempt : Cmd Kernel (Unit {0})) → (thread : Ptr) → Cmd Kernel (Unit {0})
scheduler_unblock_thread preempt thread = do
  leave_current preempt thread
  v ← read_thread thread
  unblock v.class thread

unfoldable pub scheduler_block_thread :
    (preempt : Cmd Kernel (Unit {0})) → (thread : Ptr) → Cmd Kernel (Unit {0})
scheduler_block_thread preempt thread = do
  leave_current preempt thread
  v ← read_thread thread
  block v.class thread

unfoldable pub thread_block :
    (preempt : Cmd Kernel (Unit {0})) → (fuel tid : ℕ) → Cmd Kernel (Unit {0})
thread_block preempt fuel tid = do th ← get_thread fuel tid; scheduler_block_thread preempt th

unfoldable pub thread_unblock :
    (preempt : Cmd Kernel (Unit {0})) → (fuel tid : ℕ) → Cmd Kernel (Unit {0})
thread_unblock preempt fuel tid = do th ← get_thread fuel tid; scheduler_unblock_thread preempt th

unfoldable pub kill_thread : (fuel tid : ℕ) → Cmd Kernel (Unit {0})
kill_thread fuel tid = do
  suspend_scheduler
  th ← get_thread fuel tid
  if th == null then pure tt else update_thread th (λ v. record v { exit_pending = 1 })
  resume_scheduler

-- `scheduler_start`, up to the start of the timer and the switch to the first thread
unfoldable pub scheduler_start :
    (pmalloc : ℕ → Ptr) → (exit_addr idle_thread : Ptr) → (fuel : ℕ) → Cmd Creation (Unit {0})
scheduler_start pmalloc exit_addr idle_thread fuel c =
    let k = c.kernel in
    let k₁ = record k { scheduler_status = 1; rq = record (k.rq) { tick_to_wake = 0 } } in
    let info : ThreadInfo = record {
      stack_size = 100;
      thread = idle_thread;
      arg = null;
      class = Class.idle;
      code_addr = null;
    } in
    bind (new_thread pmalloc exit_addr info (record c { kernel = k₁ })) (λ (idle_tid, d).
      bind
        ((do
          idle ← get_thread fuel idle_tid
          k ← get_kernel
          put_kernel (record k { rq = record (k.rq) { idle = idle } })
          t ← core_scheduler
          k ← get_kernel
          put_kernel (record k { next_thread = t; curr_thread = t })
          if idle == null then stop else pure tt)
          d.kernel)
        (λ (_, k'). ok (tt, record d { kernel = k' })))
