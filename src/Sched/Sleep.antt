-- ===== src/Sched/Sleep.antt =====
-- The sleep queue is sorted by the tick to wake.
use operating_system_cortex.Base.{
  ℕ, zero, suc, ◌<◌, ◌≤◌, ◌^◌, ◌≡◌, ◌≢◌, refl, sym, ap, ◌∙◌, true, false, ◌==◌, ltb, if◌then◌else◌,
  List, ◌∷◌, [], ◌++◌, map-append, append_assoc, append-nil, mem, mem-append, arith, some, Returns,
  returns, Cmd, ok, head_or, last_or, ne→==_false, ==_self, ==→eq, fun_ext, inl, inr, Bool-cases,
  length,
}
use operating_system_cortex.Dlist.{Ptr, null, Dlist, Heap, insert_first, insert_last, insert_before}
use operating_system_cortex.Dlist.Links.{IsDlist, IsFree, Links, Links-split}
use operating_system_cortex.Dlist.Splice.{Holds}
use operating_system_cortex.Dlist.Insert.{
  insert_first-Holds, insert_last-Holds, insert_before-Holds,
}
use operating_system_cortex.Sched.{
  Queue, sleep_q, Kernel, set_list, set_thread, into_list, read_node, read_thread, update_thread,
  get_kernel, put_kernel, rq_node, Thread,
}
use operating_system_cortex.Sched.Core.{
  delay_from, scheduler_enqueue_delay, tick_to_wake_update, put_wake,
}
use operating_system_cortex.Sched.View.{
  View, node_of, nodes_of, upd, Represents-insert, into_list-ok, holds_middle,
}
use operating_system_cortex.Sched.Pick.{Shows}

-- The place of a thread in the sleep queue: in front of the first one that wakes later.
unfoldable pub insert_delay : (wake : Ptr → ℕ) → Ptr → List Ptr → List Ptr
insert_delay wake t [] = t ∷ []
insert_delay wake t (s ∷ ss) =
    let rest = insert_delay wake t ss in if ltb (wake t) (wake s) then t ∷ s ∷ ss else s ∷ rest

abbrev pub IsAbove : (Ptr → ℕ) → ℕ → List Ptr → Type 0
IsAbove wake n [] = Unit {0}
IsAbove wake n (s ∷ ss) = (n ≤ wake s) × IsAbove wake n ss

abbrev pub IsSorted : (Ptr → ℕ) → List Ptr → Type 0
IsSorted wake [] = Unit {0}
IsSorted wake (s ∷ ss) = IsAbove wake (wake s) ss × IsSorted wake ss

insert_delay-IsAbove :
    (wake : Ptr → ℕ) (t : Ptr) (n : ℕ) (ss : List Ptr)
    → n ≤ wake t
    → IsAbove wake n ss
    → IsAbove wake n (insert_delay wake t ss)
unfolding insert_delay
insert_delay-IsAbove wake t n [] h a = (h, tt)
insert_delay-IsAbove wake t n (s ∷ ss) h (b, a) =
    ground (arith, insert_delay-IsAbove wake t n ss h a)

IsAbove-mono :
    (wake : Ptr → ℕ) (m n : ℕ) (ss : List Ptr) → m ≤ n → IsAbove wake n ss → IsAbove wake m ss
IsAbove-mono wake m n [] h a = tt
IsAbove-mono wake m n (s ∷ ss) h (b, a) = (omega arith, IsAbove-mono wake m n ss h a)

pub insert_delay-IsSorted :
    (wake : Ptr → ℕ) (t : Ptr) (ss : List Ptr)
    → IsSorted wake ss
    → IsSorted wake (insert_delay wake t ss)
unfolding insert_delay
insert_delay-IsSorted wake t [] o = (tt, tt)
insert_delay-IsSorted wake t (s ∷ ss) (a, o) = elim (Bool-cases (ltb (wake t) (wake s))) [
  | inl e ↦ rw e ((ground arith, IsAbove-mono wake (wake t) (wake s) ss (ground arith) a), (a, o))
  | inr e ↦
      rw e (
        insert_delay-IsAbove wake t (wake s) ss (ground arith) a,
        insert_delay-IsSorted wake t ss o,
      )
]

-- A thread that may go into a list: its node is free and refers to it, and no list has it.
pub record IsLoose (k : Kernel) (view : View) (t : Ptr) : Type 0 where
  pub free : IsFree k.nodes (rq_node t)
  pub obj : (k.nodes (rq_node t)).obj ≡ t
  pub ne_null : t ≢ null
  pub new : (p : Queue) → mem (rq_node t) (nodes_of p (view p)) ≡ false

-- The lists after the insertion; the threads are as before.
abbrev pub Queued : Kernel → View → Unit {0} → Kernel → Type 0
Queued k view _ k' = Shows k' view × (k'.table ≡ k.table)

module _ (k : Kernel) (view : View) (t : Ptr) (rep : Shows k view) (loose : IsLoose k view t)
    (small : suc (length (nodes_of sleep_q (view sleep_q))) < 2 ^ 32) where
  into_sleep :
      (xs ys : List Ptr) (op : Dlist → Cmd Heap Dlist)
      → view sleep_q ≡ xs ++ ys
      → Returns
          (Holds k.nodes (nodes_of sleep_q xs ++ rq_node t ∷ nodes_of sleep_q ys))
          (op (k.rq.lists sleep_q) k.nodes)
      → Returns (Queued k (upd view sleep_q (xs ++ t ∷ ys))) (into_list sleep_q op k)
  unfolding set_list
  into_sleep xs ys op e (returns l g eq held) =
      returns tt (set_list k sleep_q l g) (into_list-ok sleep_q op k l g eq)
        (Represents-insert rep sleep_q xs t ys l g e held loose.obj loose.ne_null loose.new, refl)

  abbrev wake : Ptr → ℕ
  wake s = (k.table s).tick_to_wake

  delay_from-Queued :
      (fuel : ℕ) (xs ys : List Ptr)
      → view sleep_q ≡ xs ++ ys
      → length ys < fuel
      → Returns
          (Queued k (upd view sleep_q (xs ++ insert_delay wake t ys)))
          (delay_from fuel t (wake t) (head_or (nodes_of sleep_q ys) null) k)
  unfolding delay_from insert_delay read_node read_thread get_kernel
  delay_from-Queued zero xs ys e f = absurd (omega arith)
  delay_from-Queued (suc fuel) xs [] e f = into_sleep xs [] (insert_last (rq_node t)) e (
      insert_last-Holds (nodes_of sleep_q xs) (rq_node t) (rw e' at (rep.holds sleep_q)) loose.free
        (rw e' at (loose.new sleep_q)) (rw e' at small))
    where
      e' : view sleep_q ≡ xs
      e' = e ∙ append-nil xs
  delay_from-Queued (suc fuel) xs (s ∷ ss) e f = elim (Bool-cases (ltb (wake t) (wake s))) [
    | inl lt ↦
        rw (node_ok, node_ok, node_obj, thread_ok, lt)
          (into_sleep xs (s ∷ ss) (insert_before (rq_node t) (rq_node s)) e (
            insert_before-Holds (nodes_of sleep_q xs) (rq_node s) (nodes_of sleep_q ss) (rq_node t)
              list loose.free (rw (e, split) at (loose.new sleep_q)) (rw (e, split) at small)))
    | inr ge ↦
        rw
          (
            node_ok,
            node_ok,
            node_obj,
            thread_ok,
            ge,
            node_next,
            ← append_assoc xs (s ∷ []) (insert_delay wake t ss),
          )
          (delay_from-Queued fuel (xs ++ s ∷ []) ss (rw append_assoc e) (omega arith))
  ]
    where
      split :
          nodes_of sleep_q (xs ++ s ∷ ss) ≡ nodes_of sleep_q xs ++ rq_node s ∷ nodes_of sleep_q ss
      split = map-append (node_of sleep_q) xs (s ∷ ss)

      list :
          IsDlist k.nodes
            (k.rq.lists sleep_q)
            (nodes_of sleep_q xs ++ rq_node s ∷ nodes_of sleep_q ss)
      list = holds_middle rep sleep_q xs s ss e

      s_in : mem s (view sleep_q) ≡ true
      s_in = rw e (ground (arith, mem-append s xs (s ∷ ss)))

      at : Links k.nodes (last_or null (nodes_of sleep_q xs)) (rq_node s ∷ nodes_of sleep_q ss) null
      at =
          (Links-split k.nodes null (nodes_of sleep_q xs) (rq_node s ∷ nodes_of sleep_q ss) null
            list.links).1

      node_ok : (rq_node s == null) ≡ false
      node_ok = ne→==_false (rq_node s) null at.0

      node_obj : (k.nodes (rq_node s)).obj ≡ s
      node_obj = rep.objs sleep_q s s_in

      node_next : (k.nodes (rq_node s)).next ≡ head_or (nodes_of sleep_q ss) null
      node_next = at.2

      thread_ok : (s == null) ≡ false
      thread_ok = ne→==_false s null (rep.ne_null sleep_q s s_in)

-- The first tick to wake of a sorted queue, 0 for an empty one.
abbrev pub first_wake : (wake : Ptr → ℕ) → List Ptr → ℕ
first_wake wake [] = 0
first_wake wake (s ∷ ss) = wake s

abbrev pub wake_of : Kernel → Ptr → ℕ
wake_of k s = (k.table s).tick_to_wake

-- `tick_to_wake_update` stores the tick to wake of the first thread of the sleep queue.
pub tick_to_wake_update-first_wake :
    (k : Kernel) (view : View)
    → Shows k view
    → tick_to_wake_update k ≡ ok (tt, put_wake (first_wake (wake_of k) (view sleep_q)) k)
unfolding tick_to_wake_update get_kernel put_kernel read_node read_thread
tick_to_wake_update-first_wake k view rep = go (view sleep_q) refl
  where
    go :
        (ss : List Ptr)
        → view sleep_q ≡ ss
        → tick_to_wake_update k ≡ ok (tt, put_wake (first_wake (wake_of k) ss) k)
    go [] e = rw (rw e at (rep.holds sleep_q).first)
    go (s ∷ ss) e =
        let s_in : mem s (view sleep_q) ≡ true = rw e (ground arith) in
        let list : IsDlist k.nodes (k.rq.lists sleep_q) (rq_node s ∷ nodes_of sleep_q ss) =
          rw e at (rep.holds sleep_q) in
        let node_ok : (rq_node s == null) ≡ false = ne→==_false (rq_node s) null list.links.0 in
        rw (
          list.first,
          node_ok,
          node_ok,
          rep.objs sleep_q s s_in,
          ne→==_false s null (rep.ne_null sleep_q s s_in),
        )

-- The thread sleeps at its place, the tick of the first sleeper is stored, and the threads keep theirs.
abbrev pub Sleeps : Kernel → View → Ptr → Unit {0} → Kernel → Type 0
Sleeps k view t _ k' =
    Shows k' view
    × ((k'.table t).rq_list ≡ some sleep_q)
    × (k'.rq.tick_to_wake ≡ first_wake (wake_of k) (view sleep_q))
    × (wake_of k' ≡ wake_of k)

-- The thread after it has noted the sleep queue.
noted : Kernel → Ptr → Kernel
noted k t = set_thread k t (record (k.table t) { rq_list = some sleep_q })

wake_of-noted : (k k' : Kernel) (t : Ptr) → k'.table ≡ k.table → wake_of (noted k' t) ≡ wake_of k
unfolding noted set_thread
wake_of-noted k k' t e = fun_ext λ s. elim (Bool-cases (s == t)) [
  | inl q ↦
      rw (wake_of, q)
        (ap (λ (f : Ptr → Thread). (f t).tick_to_wake) e ∙ ap (wake_of k) (sym (==→eq s t q)))
  | inr q ↦ rw (wake_of, q) (ap (λ (f : Ptr → Thread). (f s).tick_to_wake) e)
]

module _ (k : Kernel) (view : View) (t : Ptr) (fuel : ℕ) (rep : Shows k view)
    (loose : IsLoose k view t) (small : suc (length (nodes_of sleep_q (view sleep_q))) < 2 ^ 32)
    (enough : length (view sleep_q) < fuel) where
  -- The insertion, before the thread notes the list.
  placed : Returns (Queued k (upd view sleep_q (insert_delay (wake_of k) t (view sleep_q)))) (
      (if (k.rq.lists sleep_q).first == null
          then into_list sleep_q (insert_first (rq_node t))
          else delay_from fuel t (wake_of k t) (k.rq.lists sleep_q).first)
        k)
  unfolding insert_delay
  placed = go (view sleep_q) refl
    where
      go :
          (ss : List Ptr)
          → view sleep_q ≡ ss
          → Returns (Queued k (upd view sleep_q (insert_delay (wake_of k) t ss))) (
              (if (k.rq.lists sleep_q).first == null
                  then into_list sleep_q (insert_first (rq_node t))
                  else delay_from fuel t (wake_of k t) (k.rq.lists sleep_q).first)
                k)
      go [] e =
          let list : IsDlist k.nodes (k.rq.lists sleep_q) [] = rw e at (rep.holds sleep_q) in
          rw list.first (
            into_sleep k view t rep loose small [] [] (insert_first (rq_node t)) e
              (insert_first-Holds [] (rq_node t) list loose.free refl (omega arith)))
      go (s ∷ ss) e =
          let list : IsDlist k.nodes (k.rq.lists sleep_q) (rq_node s ∷ nodes_of sleep_q ss) =
            rw e at (rep.holds sleep_q) in
          rw (list.first, ne→==_false (rq_node s) null list.links.0)
            (delay_from-Queued k view t rep loose small fuel [] (s ∷ ss) e (rw e at enough))

  enqueued :
      Returns
        (Sleeps k (upd view sleep_q (insert_delay (wake_of k) t (view sleep_q))) t)
        (scheduler_enqueue_delay fuel t k)
  unfolding scheduler_enqueue_delay get_kernel read_thread update_thread noted set_thread
  enqueued = elim placed [
    | returns u k' eq (shows, same) ↦
        returns tt (put_wake (first_wake (wake_of k) slept) (noted k' t))
          (rw (
            t_ok,
            eq,
            t_ok,
            tick_to_wake_update-first_wake (noted k' t) (upd view sleep_q slept) shows,
            wake_of-noted k k' t same,
          ))
          (shows, rw (==_self t), refl, wake_of-noted k k' t same)
  ]
    where
      slept : List Ptr
      slept = insert_delay (wake_of k) t (view sleep_q)

      t_ok : (t == null) ≡ false
      t_ok = ne→==_false t null loose.ne_null

-- `scheduler_enqueue_delay` puts the thread into the sleep queue in front of the first thread that
-- wakes later, and keeps the queue sorted if it was; every other list holds what it held. The
-- thread notes the list, every thread keeps its tick to wake, and `tick_to_wake` is that of the
-- queue's new first thread. The thread's node must be free and in no list; fuel above the queue's
-- length is enough.
pub scheduler_enqueue_delay-insert_delay :
    (k : Kernel) (view : View) (t : Ptr) (fuel : ℕ)
    → Shows k view
    → IsLoose k view t
    → suc (length (nodes_of sleep_q (view sleep_q))) < 2 ^ 32
    → length (view sleep_q) < fuel
    → let slept = insert_delay (wake_of k) t (view sleep_q) in
      Returns (Sleeps k (upd view sleep_q slept) t) (scheduler_enqueue_delay fuel t k)
      × (IsSorted (wake_of k) (view sleep_q) → IsSorted (wake_of k) slept)
scheduler_enqueue_delay-insert_delay k view t fuel rep loose small enough = (
  enqueued k view t fuel rep loose small enough,
  insert_delay-IsSorted (wake_of k) t (view sleep_q),
)
