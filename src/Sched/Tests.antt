-- ===== src/Sched/Tests.antt =====
-- The scheduler with a few threads: 100 is ready in the real-time class and 200 in the application
-- class, 300 and 400 sleep, 500 is the idle thread, and 600 is the current one.
use operating_system_cortex.Base.{
  ℕ, ◌≡◌, refl, Bool, true, false, ◌&&◌, not, ◌==◌, if◌then◌else◌, List, [], ◌∷◌, arith, none,
  Returns, mem, u64, ◌+◌, ◌*◌, Bool-cases, inl, inr, ==→eq,
}
use operating_system_cortex.Dlist.{Ptr, Node, Dlist, Heap}
use operating_system_cortex.Dlist.Links.{IsDlist}
use operating_system_cortex.Sched.{
  Class, real_time, application, Queue, app_rq, background_rq, rt_rq, sleep_q, blocked_q, threads,
  Thread, Kernel, same_queue,
}
use operating_system_cortex.Sched.Core.{
  core_scheduler, process_expired_delays, scheduler_enqueue_delay, systick_rvr,
}
use operating_system_cortex.Sched.Threads.{stack_setup, thread_sleep}
use operating_system_cortex.Sched.Nap.{
  timed, thread_sleep-insert_delay, Stacked, stack_setup-Stacked,
}
use operating_system_cortex.Base.{◌≤◌}
use operating_system_cortex.Sched.View.{View, node_of, nodes_of, upd}
use operating_system_cortex.Sched.Pick.{Shows, Picked, next_ready, core_scheduler-next_ready}
use operating_system_cortex.Sched.Sleep.{
  IsLoose, IsSorted, insert_delay, wake_of, Sleeps, scheduler_enqueue_delay-insert_delay,
}
use operating_system_cortex.Sched.Expire.{in_app, Woken, process_expired_delays-Woken}

abbrev node : (prev next obj : Ptr) → Node
node p n o = record { prev = p; next = n; obj = o }

abbrev memory : Heap
memory a =
    if a == 112
    then node 0 0 100
    else if a == 212
    then node 0 0 200
    else if a == 312
    then node 0 412 300
    else if a == 412
    then node 312 0 400
    else if a == 612
    then node 0 0 600
    else node 0 0 0

abbrev thread : (c : Class) (wake tid : ℕ) → Thread
thread c w i = record {
  rq_list = none;
  class = c;
  tick_to_wake = w;
  runtime_curr = 0;
  runtime_new = 0;
  tid = i;
  exit_pending = 0;
  code_addr = 0;
}

abbrev table : Ptr → Thread
table a =
    if a == 300
    then thread application 5 3
    else if a == 400
    then thread real_time 9 4
    else if a == 600
    then thread application 7 6
    else thread real_time 0 1

abbrev lists : Queue → Dlist
lists rt_rq = record { first = 112; last = 112; size = 1 }
lists app_rq = record { first = 212; last = 212; size = 1 }
lists sleep_q = record { first = 312; last = 412; size = 2 }
lists _ = record { first = 0; last = 0; size = 0 }

abbrev kernel : Kernel
kernel = record {
  nodes = memory;
  table = table;
  rq = record { lists = lists; idle = 500; tick_to_wake = 5 };
  curr_thread = 600;
  next_thread = 600;
  scheduler_status = 1;
  tick = 6;
  stats_tick = 0;
  reschedule_pending = 0;
  freed = [];
}

abbrev view : View
view rt_rq = 100 ∷ []
view app_rq = 200 ∷ []
view sleep_q = 300 ∷ 400 ∷ []
view _ = []

-- No node of the one list is in the other.
abbrev pub disjoint : List Ptr → List Ptr → Bool
disjoint [] ys = true
disjoint (x ∷ xs) ys = not (mem x ys) && disjoint xs ys

pub disjoint→not_mem :
    (xs ys : List Ptr) (a : Ptr) → disjoint xs ys ≡ true → mem a xs ≡ true → mem a ys ≡ false
disjoint→not_mem [] ys a d i = ground (arith, i)
disjoint→not_mem (x ∷ xs) ys a d i = elim (Bool-cases (a == x)) [
  | inl e ↦ rw (==→eq a x e) (ground (arith, d))
  | inr e ↦ disjoint→not_mem xs ys a (ground (arith, d)) (rw e at i)
]

lists-apart :
    (p q : Queue)
    → same_queue p q ≡ false
    → disjoint (nodes_of p (view p)) (nodes_of q (view q)) ≡ true
lists-apart p q n = ground arith

holds : (q : Queue) → IsDlist memory (lists q) (nodes_of q (view q))
holds rt_rq = record {
  links = ((λ e. omega (arith, e)), refl, refl, tt);
  distinct = (refl, tt);
  first = refl;
  last = refl;
  size = refl;
}
holds app_rq = record {
  links = ((λ e. omega (arith, e)), refl, refl, tt);
  distinct = (refl, tt);
  first = refl;
  last = refl;
  size = refl;
}
holds sleep_q = record {
  links = ((λ e. omega (arith, e)), refl, refl, ((λ e. omega (arith, e)), refl, refl, tt));
  distinct = (refl, (refl, tt));
  first = refl;
  last = refl;
  size = refl;
}
holds background_rq = record { links = tt; distinct = tt; first = refl; last = refl; size = refl }
holds blocked_q = record { links = tt; distinct = tt; first = refl; last = refl; size = refl }
holds threads = record { links = tt; distinct = tt; first = refl; last = refl; size = refl }

objs : (q : Queue) (t : Ptr) → mem t (view q) ≡ true → ((memory (node_of q t)).obj == t) ≡ true
objs rt_rq t i = elim (Bool-cases (t == 100)) [
  | inl e ↦ rw (==→eq t 100 e) refl
  | inr e ↦ absurd (ground (arith, i, e))
]
objs app_rq t i = elim (Bool-cases (t == 200)) [
  | inl e ↦ rw (==→eq t 200 e) refl
  | inr e ↦ absurd (ground (arith, i, e))
]
objs sleep_q t i = elim (Bool-cases (t == 300)) [
  | inl e ↦ rw (==→eq t 300 e) refl
  | inr n ↦ elim (Bool-cases (t == 400)) [
    | inl e ↦ rw (==→eq t 400 e) refl
    | inr e ↦ absurd (ground (arith, i, e, n))
  ]
]
objs background_rq t i = absurd (ground (arith, i))
objs blocked_q t i = absurd (ground (arith, i))
objs threads t i = absurd (ground (arith, i))

shows : Shows kernel view
shows = record {
  holds = holds;
  objs = λ q t i. ==→eq _ t (objs q t i);
  ne_null = λ q t i e. ground (arith, i, e);
  apart = λ p q a n i.
      disjoint→not_mem (nodes_of p (view p)) (nodes_of q (view q)) a (lists-apart p q n) i;
}

new : (p : Queue) → mem 612 (nodes_of p (view p)) ≡ false
new p = ground arith

loose : IsLoose kernel view 600
loose = record {
  free = record { ne_null = λ e. omega (arith, e); prev = refl; next = refl };
  obj = refl;
  ne_null = λ e. omega (arith, e);
  new = new;
}

core_scheduler-next_ready_example :
    Returns (Picked kernel (next_ready view 500)) (core_scheduler kernel)
core_scheduler-next_ready_example =
    core_scheduler-next_ready kernel view shows (λ e. omega (arith, e))

abbrev slept : List Ptr
slept = insert_delay (wake_of kernel) 600 (view sleep_q)

scheduler_enqueue_delay-insert_delay_example :
    Returns (Sleeps kernel (upd view sleep_q slept) 600) (scheduler_enqueue_delay 3 600 kernel)
    × (IsSorted (wake_of kernel) (view sleep_q) → IsSorted (wake_of kernel) slept)
scheduler_enqueue_delay-insert_delay_example =
    scheduler_enqueue_delay-insert_delay kernel view 600 3 shows loose (omega arith) (omega arith)

process_expired_delays-Woken_example :
    Returns (λ _ k'. Woken kernel view 300 (400 ∷ []) app_rq k') (process_expired_delays 2 kernel)
process_expired_delays-Woken_example =
    process_expired_delays-Woken kernel view 300 (400 ∷ []) app_rq 2 shows refl in_app (omega arith)
      refl (omega arith) (omega arith) (omega arith)

thread_sleep-insert_delay_example :
    let slept = insert_delay (wake_of (timed kernel 2)) 600 (view sleep_q) in
    Returns
      (λ u k'.
        Sleeps (timed kernel 2) (upd view sleep_q slept) 600 u k'
        × (k'.reschedule_pending ≡ 1)
        × ((k'.table 600).tick_to_wake ≡ u64 (kernel.tick + u64 (2 * systick_rvr))))
      (thread_sleep 3 2 kernel)
thread_sleep-insert_delay_example =
    thread_sleep-insert_delay kernel view 3 2 shows loose (omega arith) (omega arith)

stack_setup-Stacked_example :
    let r = stack_setup 1000 77 88 99 (λ _. 0) in
    (r.0 ≡ 936) × Stacked r.1 1000 77 88 99 × ((a : Ptr) → 1000 ≤ a → r.1 a ≡ 0)
stack_setup-Stacked_example = stack_setup-Stacked 1000 77 88 99 (λ _. 0) (omega arith)
