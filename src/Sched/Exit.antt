-- ===== src/Sched/Exit.antt =====
-- The removal of an exiting thread that still stands in a run queue.
use operating_system_cortex.Base.{
  ◌≡◌, ◌≢◌, refl, true, false, ◌==◌, ne→==_false, Bool-cases, inl, inr, List, ◌∷◌, ◌++◌, mem, none,
  arith, returns, panic,
}
use operating_system_cortex.Dlist.{Ptr, null, remove}
use operating_system_cortex.Dlist.Remove.{remove-Leaves}
use operating_system_cortex.Sched.{
  Queue, threads, Kernel, same_queue, rq_node, thread_node, set_list, read_node, read_thread,
  get_kernel,
}
use operating_system_cortex.Sched.Core.{scheduler_remove_thread}
use operating_system_cortex.Sched.View.{View, nodes_of, holds_middle, with_list-ok, nodes_of-middle}
use operating_system_cortex.Sched.Pick.{Shows}

-- An exiting thread that does not note its run queue, but stands behind another thread in it, is
-- not taken off that queue, and `scheduler_remove_thread` panics.
pub scheduler_remove_thread-panic :
    (k : Kernel) (view : View) (xs ys : List Ptr) (q : Queue)
    → Shows k view
    → view threads ≡ xs ++ k.curr_thread ∷ ys
    → same_queue q threads ≡ false
    → mem (rq_node k.curr_thread) (nodes_of q (view q)) ≡ true
    → (k.nodes (rq_node k.curr_thread)).prev ≢ null
    → (k.table k.curr_thread).rq_list ≡ none
    → k.curr_thread ≢ null
    → scheduler_remove_thread k ≡ panic
unfolding scheduler_remove_thread get_kernel read_thread read_node set_list
scheduler_remove_thread-panic k view xs ys q rep e other in_q linked unnoted ne =
    elim (remove-Leaves (nodes_of threads xs) (thread_node k.curr_thread) (nodes_of threads ys)
      (holds_middle rep threads xs k.curr_thread ys e)) [
        | returns (node, l) g eq (same, w) ↦
            let kept : g (rq_node k.curr_thread) ≡ k.nodes (rq_node k.curr_thread) =
              w.1 (rq_node k.curr_thread) (λ z. omega (arith, z))
                (rw (e, nodes_of-middle threads xs k.curr_thread ys) at
                  (rep.apart q threads (rq_node k.curr_thread) other in_q)) in
            rw
              (
                with_list-ok threads (remove (thread_node k.curr_thread)) k node l g eq,
                t_ok,
                unnoted,
                rq_ok,
                node_ok,
                kept,
              )
              (elim (Bool-cases ((k.nodes (rq_node k.curr_thread)).next == null)) [
                | inl z ↦ rw (z, prev_ok) refl
                | inr z ↦ rw z refl
              ])
      ]
  where
    t_ok : (k.curr_thread == null) ≡ false
    t_ok = ne→==_false k.curr_thread null ne

    rq_ok : (rq_node k.curr_thread == null) ≡ false
    rq_ok = ne→==_false (rq_node k.curr_thread) null (λ z. omega (arith, z))

    node_ok : (thread_node k.curr_thread == null) ≡ false
    node_ok = ne→==_false (thread_node k.curr_thread) null (λ z. omega (arith, z))

    prev_ok : ((k.nodes (rq_node k.curr_thread)).prev == null) ≡ false
    prev_ok = ne→==_false (k.nodes (rq_node k.curr_thread)).prev null linked
