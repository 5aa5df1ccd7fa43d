-- ===== src/Sched/Pick.antt =====
-- The core scheduler picks from the first class that has a thread.
use operating_system_cortex.Base.{
  ◌≡◌, ◌≢◌, refl, ◌∙◌, false, ◌==◌, List, ◌∷◌, [], arith, none, Returns, returns, ok, ne→==_false,
}
use operating_system_cortex.Dlist.{Ptr, null, remove_first}
use operating_system_cortex.Dlist.Links.{IsDlist}
use operating_system_cortex.Dlist.Remove.{remove_first-Leaves}
use operating_system_cortex.Sched.{
  Queue, app_rq, background_rq, rt_rq, Kernel, set_list, set_thread, with_list, read_node,
  update_thread, get_kernel,
}
use operating_system_cortex.Sched.Classes.{
  pick_first, rt_pick_thread, idle_pick_thread, pick_thread,
}
use operating_system_cortex.Sched.Core.{pick_from, core_scheduler}
use operating_system_cortex.Sched.View.{
  View, node_of, nodes_of, upd, Represents, with_list-ok, Represents-remove,
}

-- The lists of the kernel hold the threads of the view.
abbrev pub Shows : Kernel → View → Type 0
Shows k view = Represents k.nodes k.rq.lists view

-- What `core_scheduler` chooses, and the lists that it leaves.
abbrev pub first_of : View → Queue → List Ptr → Ptr × View → Ptr × View
first_of view q [] rest = rest
first_of view q (t ∷ ts) rest = (t, upd view q ts)

unfoldable pub next_ready : View → (idler : Ptr) → Ptr × View
next_ready view idler = first_of view rt_rq (view rt_rq) (
    first_of view app_rq (view app_rq)
      (first_of view background_rq (view background_rq) (idler, view)))

module _ (k : Kernel) (view : View) (rep : Shows k view) (q : Queue) where
  empty-first : view q ≡ [] → (k.rq.lists q).first ≡ null
  empty-first e = (rep.holds q).first ∙ rw e

  module _ (t : Ptr) (ts : List Ptr) (e : view q ≡ t ∷ ts) where
    cons-IsDlist : IsDlist k.nodes (k.rq.lists q) (node_of q t ∷ nodes_of q ts)
    cons-IsDlist = rw e at (rep.holds q)

    -- The first thread's node is taken off, and refers to the thread.
    pub record Taken (node : Ptr) (k' : Kernel) : Type 0 where
      pub node_ok : (node == null) ≡ false
      pub node_obj : (k'.nodes node).obj ≡ t
      pub shows : Shows k' (upd view q ts)
      pub table : k'.table ≡ k.table
      pub idler : k'.rq.idle ≡ k.rq.idle

    not_empty : ((k.rq.lists q).first == null) ≡ false
    not_empty = rw cons-IsDlist.first (ne→==_false (node_of q t) null cons-IsDlist.links.0)

    take_first : Returns Taken (with_list q remove_first k)
    unfolding set_list
    take_first = elim (remove_first-Leaves (node_of q t) (nodes_of q ts) cons-IsDlist) [
      | returns (node, l) g eq (same, w) ↦
          returns node (set_list k q l g) (with_list-ok q remove_first k node l g eq) (record {
            node_ok = rw same (ne→==_false (node_of q t) null cons-IsDlist.links.0);
            node_obj = rw same (w.2 (node_of q t) ∙ rep.objs q t (rw e (ground arith)));
            shows = Represents-remove rep q [] t ts l g e w;
            table = refl;
            idler = refl;
          })
    ]

-- The choice is made, and the lists hold what is left.
abbrev pub Picked : Kernel → Ptr × View → Ptr → Kernel → Type 0
Picked k (u, view') t k' = (t ≡ u) × Shows k' view' × (k'.rq.idle ≡ k.rq.idle)

module _ (k : Kernel) (view : View) (rep : Shows k view) (q : Queue) where
  pick_first-none : view q ≡ [] → pick_first q k ≡ ok (null, k)
  unfolding pick_first get_kernel
  pick_first-none e = rw (empty-first k view rep q e)

  pick_first-some :
      (t : Ptr) (ts : List Ptr)
      → view q ≡ t ∷ ts
      → Returns (Picked k (t, upd view q ts)) (pick_first q k)
  unfolding pick_first get_kernel read_node
  pick_first-some t ts e = elim (take_first k view rep q t ts e) [
    | returns node k' eq taken ↦
        returns t k' (rw (not_empty k view rep q t ts e, eq, taken.node_ok, taken.node_obj))
          (refl, taken.shows, taken.idler)
  ]

rt_pick_thread-none :
    (k : Kernel) (view : View) → Shows k view → view rt_rq ≡ [] → rt_pick_thread k ≡ ok (null, k)
unfolding rt_pick_thread get_kernel
rt_pick_thread-none k view rep e = rw (empty-first k view rep rt_rq e)

rt_pick_thread-some :
    (k : Kernel) (view : View) (t : Ptr) (ts : List Ptr)
    → Shows k view
    → view rt_rq ≡ t ∷ ts
    → Returns (Picked k (t, upd view rt_rq ts)) (rt_pick_thread k)
unfolding rt_pick_thread get_kernel read_node update_thread set_thread
rt_pick_thread-some k view t ts rep e = elim (take_first k view rep rt_rq t ts e) [
  | returns node k' eq taken ↦
      returns t (set_thread k' t (record (k'.table t) { rq_list = none }))
        (rw (
          not_empty k view rep rt_rq t ts e,
          eq,
          taken.node_ok,
          taken.node_obj,
          ne→==_false t null (rep.ne_null rt_rq t (rw e (ground arith))),
        ))
        (refl, taken.shows, taken.idler)
]

-- `core_scheduler` returns the first thread of the first class, in the order of their priority,
-- that has one, and takes it off its list; every other list holds what it held. With no thread
-- ready it returns the idle thread, which must be there, and no list changes.
pub core_scheduler-next_ready :
    (k : Kernel) (view : View)
    → Shows k view
    → k.rq.idle ≢ null
    → Returns (Picked k (next_ready view k.rq.idle)) (core_scheduler k)
unfolding core_scheduler pick_from pick_thread idle_pick_thread next_ready
core_scheduler-next_ready k view rep idler =
    go (view rt_rq) refl (view app_rq) refl (view background_rq) refl
  where
    go :
        (rts : List Ptr)
        → view rt_rq ≡ rts
        → (apps : List Ptr) → view app_rq ≡ apps
        → (bgs : List Ptr) → view background_rq ≡ bgs
        → Returns
            (Picked k (
              first_of view rt_rq rts
                (first_of view app_rq apps (first_of view background_rq bgs (k.rq.idle, view)))))
            (core_scheduler k)
    go (t ∷ ts) e apps f bgs g = elim (rt_pick_thread-some k view t ts rep e) [
      | returns u k' eq p ↦
          returns u k'
            (rw (eq, p.0, ne→==_false t null (rep.ne_null rt_rq t (rw e (ground arith))))) p
    ]
    go [] e (t ∷ ts) f bgs g = elim (pick_first-some k view rep app_rq t ts f) [
      | returns u k' eq p ↦
          returns u k'
            (rw (
              rt_pick_thread-none k view rep e,
              eq,
              p.0,
              ne→==_false t null (rep.ne_null app_rq t (rw f (ground arith))),
            ))
            p
    ]
    go [] e [] f (t ∷ ts) g = elim (pick_first-some k view rep background_rq t ts g) [
      | returns u k' eq p ↦
          returns u k'
            (rw (
              rt_pick_thread-none k view rep e,
              pick_first-none k view rep app_rq f,
              eq,
              p.0,
              ne→==_false t null (rep.ne_null background_rq t (rw g (ground arith))),
            ))
            p
    ]
    go [] e [] f [] g =
        returns k.rq.idle k
          (rw (
            rt_pick_thread-none k view rep e,
            pick_first-none k view rep app_rq f,
            pick_first-none k view rep background_rq g,
            ne→==_false k.rq.idle null idler,
          ))
          (refl, rep, refl)
