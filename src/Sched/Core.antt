-- ===== src/Sched/Core.antt =====
-- kernel/src/kernel/scheduler.c: the core scheduler, the sleep queue and the tick.
use operating_system_cortex.Base.{
  ℕ, zero, suc, ◌+◌, ◌*◌, ◌&&◌, ◌||◌, none, some, ◌==◌, ltb, leb, if◌then◌else◌, List, ◌∷◌, [], Cmd,
  hang, pure, stop, ◌>>=◌, ◌>>◌, u64, sub32,
}
use operating_system_cortex.Dlist
use operating_system_cortex.Dlist.{Ptr, null, not_null}
use operating_system_cortex.Sched.{
  Class, real_time, application, background, idle, sleep_q, threads, rq_node, thread_node, Kernel,
  with_list, into_list, read_node, update_thread, read_thread, get_kernel, put_kernel,
}
use operating_system_cortex.Sched.Classes.{pick_thread, enqueue, leave}

-- The classes in the order of their `next` pointers, from `rt_class` on.
abbrev pub class_order : List Class
class_order = real_time ∷ application ∷ background ∷ idle ∷ []

-- The loop of `core_scheduler`.
unfoldable pub pick_from : List Class → Cmd Kernel Ptr
pick_from [] = stop
pick_from (c ∷ cs) = do t ← pick_thread c; if t == null then pick_from cs else pure t

unfoldable pub core_scheduler : Cmd Kernel Ptr
core_scheduler = pick_from class_order

-- The loop of `get_thread`, on fuel.
unfoldable pub get_thread_from : ℕ → (tid : ℕ) → Ptr → Cmd Kernel Ptr
get_thread_from zero tid it = λ _. hang
get_thread_from (suc fuel) tid it = if it == null then pure null else do
  n ← read_node it
  v ← read_thread n.obj
  if v.tid == tid then pure n.obj else get_thread_from fuel tid n.next

unfoldable pub get_thread : ℕ → (tid : ℕ) → Cmd Kernel Ptr
get_thread fuel tid = do k ← get_kernel; get_thread_from fuel tid (k.rq.lists threads).first

abbrev pub put_wake : ℕ → Kernel → Kernel
put_wake w k = record k { rq = record (k.rq) { tick_to_wake = w } }

unfoldable pub tick_to_wake_update : Cmd Kernel (Unit {0})
tick_to_wake_update = do
  k ← get_kernel
  if (k.rq.lists sleep_q).first == null then put_kernel (put_wake 0 k) else do
    n ← read_node (k.rq.lists sleep_q).first
    v ← read_thread n.obj
    put_kernel (put_wake v.tick_to_wake k)

-- The body of the loop for an expired thread `t` at the node `iter`.
unfoldable pub wake_thread : (iter t : Ptr) → Cmd Kernel (Unit {0})
wake_thread iter t = do
  _ ← with_list sleep_q (Dlist.remove iter)
  update_thread t (λ v. record v { rq_list = none })
  v ← read_thread t
  enqueue v.class t
  update_thread t (λ v. record v { tick_to_wake = 0 })

-- The loop of `process_expired_delays`, on fuel; `iter->next` is read after the body.
unfoldable pub expire_from : ℕ → Ptr → Cmd Kernel (Unit {0})
expire_from zero iter = λ _. hang
expire_from (suc fuel) iter = if iter == null then pure tt else do
  k ← get_kernel
  n ← read_node iter
  v ← read_thread n.obj
  if ltb v.tick_to_wake k.tick
      then (do wake_thread iter n.obj; m ← read_node iter; expire_from fuel m.next)
      else pure tt

unfoldable pub process_expired_delays : ℕ → Cmd Kernel (Unit {0})
process_expired_delays fuel = do
  k ← get_kernel
  if leb k.rq.tick_to_wake k.tick && not_null k.rq.tick_to_wake
      then (do expire_from fuel (k.rq.lists sleep_q).first; tick_to_wake_update)
      else pure tt

-- `mm_free(p)`
unfoldable pub free_memory : Ptr → Cmd Kernel (Unit {0})
free_memory p = do k ← get_kernel; put_kernel (record k { freed = p ∷ k.freed })

-- The argument of `scheduler_remove_thread` is not read: it removes `curr_thread`.
unfoldable pub scheduler_remove_thread : Cmd Kernel (Unit {0})
scheduler_remove_thread = do
  k ← get_kernel
  let t = k.curr_thread
  _ ← with_list threads (Dlist.remove (thread_node t))
  v ← read_thread t
  elim v.rq_list [ none ↦ pure tt | some q ↦ leave (some q) t ]
  m ← read_node (rq_node t)
  n ← read_node (thread_node t)
  if (not_null m.next || not_null m.prev) || (not_null n.next || not_null n.prev)
      then stop
      else pure tt
  if not_null v.code_addr then free_memory v.code_addr else pure tt
  free_memory t
  k' ← get_kernel
  put_kernel (record k' { curr_thread = null })

-- The loop of `calculate_runtime`, on fuel.
unfoldable pub runtime_from : ℕ → Ptr → Cmd Kernel (Unit {0})
runtime_from zero iter = λ _. hang
runtime_from (suc fuel) iter = if iter == null then pure tt else do
  n ← read_node iter
  update_thread n.obj (λ v. record v { runtime_curr = v.runtime_new; runtime_new = 0 })
  runtime_from fuel n.next

unfoldable pub calculate_runtime : ℕ → Cmd Kernel (Unit {0})
calculate_runtime fuel = do k ← get_kernel; runtime_from fuel (k.rq.lists threads).first

-- SYSTICK_RVR
abbrev pub systick_rvr : ℕ
systick_rvr = 300000

-- `cvr` is what `systick_get_cvr` reads from the timer.
unfoldable pub get_curr_thread_runtime : (cvr : ℕ) → Cmd Kernel ℕ
get_curr_thread_runtime cvr = do
  k ← get_kernel
  if k.reschedule_pending == 0
      then pure systick_rvr
      else do put_kernel (record k { reschedule_pending = 0 }); pure (sub32 systick_rvr cvr)

-- The statistics of `systick_exception`, once a second.
unfoldable pub update_stats : ℕ → Cmd Kernel (Unit {0})
update_stats fuel = do
  k ← get_kernel
  if leb (systick_rvr * 1000) k.stats_tick
      then (do put_kernel (record k { stats_tick = 0 }); calculate_runtime fuel)
      else pure tt

-- `systick_exception`; `fuel` is that of its loops. The pin, the timer and the pending context
-- switch are left out.
unfoldable pub systick_exception : (fuel cvr : ℕ) → Cmd Kernel (Unit {0})
systick_exception fuel cvr = do
  k ← get_kernel
  if k.scheduler_status == 0 then pure tt else do
    curr_runtime ← get_curr_thread_runtime cvr
    k ← get_kernel
    put_kernel (record k {
      tick = u64 (k.tick + curr_runtime);
      stats_tick = u64 (k.stats_tick + curr_runtime);
    })
    update_thread k.curr_thread (λ v. record v { runtime_new = u64 (v.runtime_new + curr_runtime) })
    update_stats fuel
    process_expired_delays fuel
    v ← read_thread k.curr_thread
    if v.tick_to_wake == 0 then enqueue v.class k.curr_thread else pure tt
    w ← read_thread k.curr_thread
    if not_null w.exit_pending then scheduler_remove_thread else pure tt
    t ← core_scheduler
    k ← get_kernel
    put_kernel (record k { next_thread = t })

-- `systick_set_pending` pends the interrupt.
unfoldable pub reschedule : Cmd Kernel (Unit {0})
reschedule = do k ← get_kernel; put_kernel (record k { reschedule_pending = 1 })

-- The loop of `scheduler_enqueue_delay`, on fuel: `wake` is the thread's tick to wake.
unfoldable pub delay_from : ℕ → (thread wake : ℕ) → (iter : Ptr) → Cmd Kernel (Unit {0})
delay_from zero thread wake iter = λ _. hang
delay_from (suc fuel) thread wake iter =
    if iter == null then into_list sleep_q (Dlist.insert_last (rq_node thread)) else do
      n ← read_node iter
      v ← read_thread n.obj
      if ltb wake v.tick_to_wake
          then into_list sleep_q (Dlist.insert_before (rq_node thread) iter)
          else delay_from fuel thread wake n.next

unfoldable pub scheduler_enqueue_delay : ℕ → (thread : Ptr) → Cmd Kernel (Unit {0})
scheduler_enqueue_delay fuel thread = do
  k ← get_kernel
  v ← read_thread thread
  if (k.rq.lists sleep_q).first == null
      then into_list sleep_q (Dlist.insert_first (rq_node thread))
      else delay_from fuel thread v.tick_to_wake (k.rq.lists sleep_q).first
  update_thread thread (λ v. record v { rq_list = some sleep_q })
  tick_to_wake_update

unfoldable pub suspend_scheduler : Cmd Kernel (Unit {0})
suspend_scheduler = do k ← get_kernel; put_kernel (record k { scheduler_status = 0 })

unfoldable pub resume_scheduler : Cmd Kernel (Unit {0})
resume_scheduler = do k ← get_kernel; put_kernel (record k { scheduler_status = 1 })

unfoldable pub get_kernel_tick : Cmd Kernel ℕ
get_kernel_tick = do k ← get_kernel; pure k.tick

unfoldable pub get_idle_runtime : Cmd Kernel ℕ
get_idle_runtime = do k ← get_kernel; v ← read_thread k.rq.idle; pure v.runtime_curr
