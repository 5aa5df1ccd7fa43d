-- ===== src/Sched/ExitTests.antt =====
-- The current thread 600 exits; it stands behind 200 in the application class's run queue.
use operating_system_cortex.Base.{
  ◌≡◌, refl, true, false, ◌==◌, ==→eq, if◌then◌else◌, Bool-cases, inl, inr, [], ◌∷◌, mem, none,
  arith, panic,
}
use operating_system_cortex.Dlist.{Ptr, Dlist, Heap}
use operating_system_cortex.Dlist.Links.{IsDlist}
use operating_system_cortex.Sched.{
  application, Queue, app_rq, background_rq, rt_rq, sleep_q, blocked_q, threads, Kernel, Thread,
  same_queue,
}
use operating_system_cortex.Sched.Core.{scheduler_remove_thread}
use operating_system_cortex.Sched.View.{View, node_of, nodes_of}
use operating_system_cortex.Sched.Pick.{Shows}
use operating_system_cortex.Sched.Exit.{scheduler_remove_thread-panic}
use operating_system_cortex.Sched.Tests.{disjoint, disjoint→not_mem}

abbrev memory : Heap
memory a =
    if a == 212
    then record { prev = 0; next = 612; obj = 200 }
    else if a == 612
    then record { prev = 212; next = 0; obj = 600 }
    else if a == 624
    then record { prev = 0; next = 0; obj = 600 }
    else record { prev = 0; next = 0; obj = 0 }

abbrev lists : Queue → Dlist
lists app_rq = record { first = 212; last = 612; size = 2 }
lists threads = record { first = 624; last = 624; size = 1 }
lists _ = record { first = 0; last = 0; size = 0 }

abbrev thread : Thread
thread = record {
  rq_list = none;
  class = application;
  tick_to_wake = 0;
  runtime_curr = 0;
  runtime_new = 0;
  tid = 1;
  exit_pending = 1;
  code_addr = 0;
}

abbrev kernel : Kernel
kernel = record {
  nodes = memory;
  table = λ a. thread;
  rq = record { lists = lists; idle = 500; tick_to_wake = 0 };
  curr_thread = 600;
  next_thread = 600;
  scheduler_status = 1;
  tick = 6;
  stats_tick = 0;
  reschedule_pending = 0;
  freed = [];
}

abbrev view : View
view app_rq = 200 ∷ 600 ∷ []
view threads = 600 ∷ []
view _ = []

holds : (q : Queue) → IsDlist memory (lists q) (nodes_of q (view q))
holds app_rq = record {
  links = ((λ e. omega (arith, e)), refl, refl, ((λ e. omega (arith, e)), refl, refl, tt));
  distinct = (refl, (refl, tt));
  first = refl;
  last = refl;
  size = refl;
}
holds threads = record {
  links = ((λ e. omega (arith, e)), refl, refl, tt);
  distinct = (refl, tt);
  first = refl;
  last = refl;
  size = refl;
}
holds rt_rq = record { links = tt; distinct = tt; first = refl; last = refl; size = refl }
holds sleep_q = record { links = tt; distinct = tt; first = refl; last = refl; size = refl }
holds background_rq = record { links = tt; distinct = tt; first = refl; last = refl; size = refl }
holds blocked_q = record { links = tt; distinct = tt; first = refl; last = refl; size = refl }

objs : (q : Queue) (t : Ptr) → mem t (view q) ≡ true → ((memory (node_of q t)).obj == t) ≡ true
objs app_rq t i = elim (Bool-cases (t == 200)) [
  | inl e ↦ rw (==→eq t 200 e) refl
  | inr n ↦ elim (Bool-cases (t == 600)) [
    | inl e ↦ rw (==→eq t 600 e) refl
    | inr e ↦ absurd (ground (arith, i, e, n))
  ]
]
objs threads t i = elim (Bool-cases (t == 600)) [
  | inl e ↦ rw (==→eq t 600 e) refl
  | inr e ↦ absurd (ground (arith, i, e))
]
objs rt_rq t i = absurd (ground (arith, i))
objs sleep_q t i = absurd (ground (arith, i))
objs background_rq t i = absurd (ground (arith, i))
objs blocked_q t i = absurd (ground (arith, i))

lists-apart :
    (p q : Queue)
    → same_queue p q ≡ false
    → disjoint (nodes_of p (view p)) (nodes_of q (view q)) ≡ true
lists-apart p q n = ground arith

shows : Shows kernel view
shows = record {
  holds = holds;
  objs = λ q t i. ==→eq _ t (objs q t i);
  ne_null = λ q t i e. ground (arith, i, e);
  apart = λ p q a n i.
      disjoint→not_mem (nodes_of p (view p)) (nodes_of q (view q)) a (lists-apart p q n) i;
}

scheduler_remove_thread-panic_example : scheduler_remove_thread kernel ≡ panic
scheduler_remove_thread-panic_example =
    scheduler_remove_thread-panic kernel view [] [] app_rq shows refl refl refl
      (λ e. omega (arith, e)) refl (λ e. omega (arith, e))
