-- ===== src/Sched.antt =====
-- The scheduler's state: kernel/src/kernel/scheduler.h and the globals of scheduler.c.
pub mod Classes
pub mod Core
pub mod View
pub mod Pick
pub mod Sleep
pub mod Expire
pub mod Threads
pub mod Nap
pub mod Exit
pub mod ExitTests
pub mod Tests
use operating_system_cortex.Base.{
  ℕ, ◌+◌, ◌≡◌, Bool, true, false, Option, none, some, ◌==◌, if◌then◌else◌, List, ◌∷◌, [], Run, Cmd,
  ok, panic, fault, hang, pure, ◌>>=◌, ◌>>◌, bind, continue,
}
use operating_system_cortex.Dlist.{Ptr, null, Node, Dlist, Heap}

-- `enum sched_class`, which names the scheduling classes too
pub data Class : Type 0 where
  real_time application background idle : Class

-- The lists of `struct rq`.
pub data Queue : Type 0 where
  app_rq background_rq rt_rq sleep_q blocked_q threads : Queue

-- `struct thread`, less its stack and its name. `rq_list` is the list that it points to, if any.
-- The two list nodes lie inside the struct: `rq_node` and `thread_node` give their addresses.
pub record Thread : Type 0 where
  pub rq_list : Option Queue
  pub class : Class
  pub tick_to_wake : ℕ
  pub runtime_curr : ℕ
  pub runtime_new : ℕ
  pub tid : ℕ
  pub exit_pending : ℕ
  pub code_addr : Ptr

-- `&t->rq_node` and `&t->thread_node`
abbrev pub rq_node : Ptr → Ptr
rq_node t = t + 12

abbrev pub thread_node : Ptr → Ptr
thread_node t = t + 24

-- `struct rq`: its lists, the idle thread and the first tick to wake
pub record Rq : Type 0 where
  pub lists : Queue → Dlist
  pub idle : Ptr
  pub tick_to_wake : ℕ

-- The globals of scheduler.c, with the memory of the list nodes and of the threads. `freed` holds
-- the pointers given to `mm_free`, the last one first.
pub record Kernel : Type 0 where
  pub nodes : Heap
  pub table : Ptr → Thread
  pub rq : Rq
  pub curr_thread : Ptr
  pub next_thread : Ptr
  pub scheduler_status : ℕ
  pub tick : ℕ
  pub stats_tick : ℕ
  pub reschedule_pending : ℕ
  pub freed : List Ptr

pub Queue-discrete : Discrete Queue
Queue-discrete = hlevel

abbrev pub same_queue : Queue → Queue → Bool
same_queue app_rq app_rq = true
same_queue background_rq background_rq = true
same_queue rt_rq rt_rq = true
same_queue sleep_q sleep_q = true
same_queue blocked_q blocked_q = true
same_queue threads threads = true
same_queue _ _ = false

unfoldable pub set_list : Kernel → Queue → Dlist → Heap → Kernel
set_list k q l h = record k {
  nodes = h;
  rq = record (k.rq) { lists = λ p. if same_queue p q then l else k.rq.lists p };
}

-- A call of a dlist function with `&cpu_rq.<q>`, which may write the list and the nodes.
unfoldable pub with_list : {A : Type 0} → Queue → (Dlist → Cmd Heap (A × Dlist)) → Cmd Kernel A
with_list q op k = elim (op (k.rq.lists q) k.nodes) [
  | ok ((a, l), h) ↦ ok (a, set_list k q l h)
  | panic ↦ panic
  | fault ↦ fault
  | hang ↦ hang
]

-- The same for an insertion, which returns nothing.
unfoldable pub into_list : Queue → (Dlist → Cmd Heap Dlist) → Cmd Kernel (Unit {0})
into_list q op = with_list q (λ l h. bind (op l h) (λ (l', h'). ok ((tt, l'), h')))

-- `*node`
unfoldable pub read_node : Ptr → Cmd Kernel Node
read_node p k = if p == null then fault else ok (k.nodes p, k)

-- `*thread`
unfoldable pub read_thread : Ptr → Cmd Kernel Thread
read_thread t k = if t == null then fault else ok (k.table t, k)

unfoldable pub set_thread : Kernel → Ptr → Thread → Kernel
set_thread k t v = record k { table = λ a. if a == t then v else k.table a }

-- An assignment to fields of `*thread`.
unfoldable pub update_thread : Ptr → (Thread → Thread) → Cmd Kernel (Unit {0})
update_thread t f k = if t == null then fault else ok (tt, set_thread k t (f (k.table t)))

-- The globals themselves.
unfoldable pub get_kernel : Cmd Kernel Kernel
get_kernel k = ok (k, k)

unfoldable pub put_kernel : Kernel → Cmd Kernel (Unit {0})
put_kernel k _ = ok (tt, k)
