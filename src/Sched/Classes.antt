-- ===== src/Sched/Classes.antt =====
-- The scheduling classes: rt.c, app.c, background.c and idle.c of kernel/src/kernel.
use operating_system_cortex.Base.{
  Bool, false, Option, none, some, ◌==◌, if◌then◌else◌, Cmd, ok, fault, pure, ◌>>=◌, ◌>>◌, bind,
}
use operating_system_cortex.Dlist
use operating_system_cortex.Dlist.{Ptr, null, Node, Dlist, Heap}
use operating_system_cortex.Sched.{
  Class, real_time, application, background, idle, Queue, app_rq, background_rq, rt_rq, blocked_q,
  rq_node, Kernel, same_queue, with_list, into_list, read_node, update_thread, read_thread,
  get_kernel, put_kernel,
}

-- The first thread of a class's run queue, taken off, or NULL.
unfoldable pub pick_first : Queue → Cmd Kernel Ptr
pick_first q = do
  k ← get_kernel
  if (k.rq.lists q).first == null
      then pure null
      else do node ← with_list q Dlist.remove_first; n ← read_node node; pure n.obj

unfoldable pub rt_pick_thread : Cmd Kernel Ptr
rt_pick_thread = do
  k ← get_kernel
  if (k.rq.lists rt_rq).first == null then pure null else do
    node ← with_list rt_rq Dlist.remove_first
    n ← read_node node
    update_thread n.obj (λ t. record t { rq_list = none })
    pure n.obj

unfoldable pub idle_pick_thread : Cmd Kernel Ptr
idle_pick_thread k = ok (k.rq.idle, k)

-- `class->pick_thread(&cpu_rq)`
unfoldable pub pick_thread : Class → Cmd Kernel Ptr
pick_thread real_time = rt_pick_thread
pick_thread application = pick_first app_rq
pick_thread background = pick_first background_rq
pick_thread idle = idle_pick_thread

-- `class->enqueue(thread, &cpu_rq)`: only the real-time class notes the list in the thread.
unfoldable pub enqueue : Class → Ptr → Cmd Kernel (Unit {0})
enqueue real_time t = do
  into_list rt_rq (Dlist.insert_last (rq_node t))
  update_thread t (λ v. record v { rq_list = some rt_rq })
enqueue application t = into_list app_rq (Dlist.insert_last (rq_node t))
enqueue background t = into_list background_rq (Dlist.insert_last (rq_node t))
enqueue idle t = do k ← get_kernel; put_kernel (record k { rq = record (k.rq) { idle = t } })

-- `class->dequeue(thread, &cpu_rq)`
unfoldable pub dequeue : Class → Ptr → Cmd Kernel (Unit {0})
dequeue real_time t = do _ ← with_list rt_rq (Dlist.remove (rq_node t)); pure tt
dequeue application t = do _ ← with_list app_rq (Dlist.remove (rq_node t)); pure tt
dequeue background t = do _ ← with_list background_rq (Dlist.remove (rq_node t)); pure tt
dequeue idle t = pure tt

-- Is the list that the thread is in, by its own note, `blocked_q`?
abbrev pub in_blocked : Option Queue → Bool
in_blocked none = false
in_blocked (some q) = same_queue q blocked_q

-- `dlist_remove(&thread->rq_node, thread->rq_list)`: a NULL list is dereferenced
unfoldable pub leave : Option Queue → Ptr → Cmd Kernel (Unit {0})
leave none t k = fault
leave (some q) t k = bind (with_list q (Dlist.remove (rq_node t)) k) (λ (_, k'). ok (tt, k'))

unfoldable pub rt_block : Ptr → Cmd Kernel (Unit {0})
rt_block t = do
  v ← read_thread t
  if in_blocked v.rq_list then pure tt else do
    leave v.rq_list t
    into_list blocked_q (Dlist.insert_last (rq_node t))
    update_thread t (λ w. record w { rq_list = some blocked_q })

unfoldable pub rt_unblock : Ptr → Cmd Kernel (Unit {0})
rt_unblock t = do
  v ← read_thread t
  if in_blocked v.rq_list
      then (do
        leave v.rq_list t
        update_thread t (λ w. record w { tick_to_wake = 0 })
        into_list rt_rq (Dlist.insert_last (rq_node t))
        update_thread t (λ w. record w { rq_list = some rt_rq }))
      else pure tt

-- `class->block` and `class->unblock`: the other classes leave these pointers NULL, and a call
-- through NULL faults.
unfoldable pub block : Class → Ptr → Cmd Kernel (Unit {0})
block real_time t = rt_block t
block application t = λ _. fault
block background t = λ _. fault
block idle t = λ _. fault

unfoldable pub unblock : Class → Ptr → Cmd Kernel (Unit {0})
unblock real_time t = rt_unblock t
unblock application t = λ _. fault
unblock background t = λ _. fault
unblock idle t = λ _. fault
