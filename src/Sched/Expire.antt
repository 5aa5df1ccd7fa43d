-- ===== src/Sched/Expire.antt =====
-- `process_expired_delays` of scheduler.c, and the enqueueing that it does.
use operating_system_cortex.Base.{
  ℕ, zero, suc, ◌<◌, ◌≤◌, ◌^◌, ◌≡◌, ◌≢◌, refl, sym, ap, ◌∙◌, true, false, ◌==◌, ltb, lt→ltb, leb,
  List, ◌∷◌, [], ◌++◌, append-nil, mem, arith, none, some, Returns, returns, head_or, ne→==_false,
  ==_self, ==→eq, fun_ext, inl, inr, Bool-cases, length,
}
use operating_system_cortex.Dlist.{Ptr, null, insert_last, remove}
use operating_system_cortex.Dlist.Links.{IsDlist, Links-split}
use operating_system_cortex.Dlist.Insert.{insert_last-Holds}
use operating_system_cortex.Dlist.Remove.{remove-Leaves}
use operating_system_cortex.Sched.{
  Class, real_time, application, background, Queue, app_rq, background_rq, rt_rq, sleep_q, Kernel,
  Thread, set_list, set_thread, with_list, into_list, read_node, read_thread, update_thread,
  get_kernel, rq_node, same_queue,
}
use operating_system_cortex.Sched.Classes.{enqueue}
use operating_system_cortex.Sched.Core.{wake_thread, expire_from, process_expired_delays, put_wake}
use operating_system_cortex.Sched.View.{
  same_queue_comm, same_queue→eq, View, node_of, nodes_of, upd, Represents-insert,
  Represents-remove, into_list-ok, with_list-ok,
}
use operating_system_cortex.Sched.Pick.{Shows}
use operating_system_cortex.Sched.Sleep.{
  IsLoose, wake_of, first_wake, tick_to_wake_update-first_wake,
}

-- The run queue of each class but the idle class, which has none.
pub data RunsIn : Class → Queue → Type 0 where
  in_rt : RunsIn real_time rt_rq
  in_app : RunsIn application app_rq
  in_background : RunsIn background background_rq

-- The thread is the last one of the list, and no tick to wake changed.
pub record Enqueued (k : Kernel) (view : View) (t : Ptr) (q : Queue) (k' : Kernel) : Type 0 where
  pub shows : Shows k' (upd view q (view q ++ t ∷ []))
  pub no_next : (k'.nodes (rq_node t)).next ≡ null
  pub wakes : wake_of k' ≡ wake_of k

set_thread-wake_of :
    (k : Kernel) (t : Ptr) (v : Thread)
    → v.tick_to_wake ≡ wake_of k t
    → wake_of (set_thread k t v) ≡ wake_of k
unfolding set_thread
set_thread-wake_of k t v e = fun_ext λ s. elim (Bool-cases (s == t)) [
  | inl q ↦ rw (wake_of, q) (e ∙ ap (wake_of k) (sym (==→eq s t q)))
  | inr q ↦ rw (wake_of, q)
]

module _ (k : Kernel) (view : View) (t : Ptr) (rep : Shows k view) (loose : IsLoose k view t) where
  -- The insertion that the three classes make.
  into_run_queue :
      (q : Queue)
      → node_of q t ≡ rq_node t
      → suc (length (nodes_of q (view q))) < 2 ^ 32
      → Returns (λ _ k'. Enqueued k view t q k') (into_list q (insert_last (rq_node t)) k)
  unfolding set_list
  into_run_queue q e small =
      elim (insert_last-Holds (nodes_of q (view q)) (rq_node t) (rep.holds q) loose.free
        (loose.new q) small) [
          | returns l g eq held ↦
              returns tt (set_list k q l g) (into_list-ok q (insert_last (rq_node t)) k l g eq)
                (record {
                  shows =
                      Represents-insert rep q (view q) t [] l g (sym (append-nil (view q)))
                        (rw e held) (rw e loose.obj) loose.ne_null (rw e loose.new);
                  no_next =
                      (Links-split g null (nodes_of q (view q)) (rq_node t ∷ []) null
                        held.0.links).1.2;
                  wakes = refl;
                })
        ]

  -- `class->enqueue` puts the thread behind those of its class's run queue.
  pub enqueue-Enqueued :
      {c : Class} {q : Queue}
      → RunsIn c q
      → suc (length (nodes_of q (view q))) < 2 ^ 32
      → Returns (λ _ k'. Enqueued k view t q k') (enqueue c t k)
  unfolding enqueue update_thread set_thread
  enqueue-Enqueued in_rt small = elim (into_run_queue rt_rq refl small) [
    | returns u k' eq done ↦
        returns tt (set_thread k' t (record (k'.table t) { rq_list = some rt_rq }))
          (rw (eq, ne→==_false t null loose.ne_null))
          (record {
            shows = done.shows;
            no_next = done.no_next;
            wakes = set_thread-wake_of k' t _ refl ∙ done.wakes;
          })
  ]
  enqueue-Enqueued in_app small = into_run_queue app_rq refl small
  enqueue-Enqueued in_background small = into_run_queue background_rq refl small

-- What `process_expired_delays` leaves: the first sleeper, and it alone, runs again in the list
-- `q` of its class, and the first tick to wake is that of the next sleeper.
pub record Woken (k : Kernel) (view : View) (t : Ptr) (ts : List Ptr) (q : Queue) (k' : Kernel)
    : Type 0 where
  pub shows : Shows k' (upd (upd view sleep_q ts) q (view q ++ t ∷ []))
  pub next_wake : k'.rq.tick_to_wake ≡ first_wake (wake_of k) ts
  pub awake : wake_of k' t ≡ 0

module _ (k : Kernel) (view : View) (t : Ptr) (ts : List Ptr) (rep : Shows k view)
    (e : view sleep_q ≡ t ∷ ts) where
  -- The thread has left the sleep queue.
  pub record Left (k' : Kernel) : Type 0 where
    pub shows : Shows k' (upd view sleep_q ts)
    pub loose : IsLoose k' (upd view sleep_q ts) t
    pub wakes : wake_of k' ≡ wake_of k
    pub class : (k'.table t).class ≡ (k.table t).class

  sleepers : IsDlist k.nodes (k.rq.lists sleep_q) (rq_node t ∷ nodes_of sleep_q ts)
  sleepers = rw e at (rep.holds sleep_q)

  t_in : mem t (view sleep_q) ≡ true
  t_in = rw e (ground arith)

  new_elsewhere : (p : Queue) → mem (rq_node t) (nodes_of p (upd view sleep_q ts p)) ≡ false
  new_elsewhere p = elim (Bool-cases (same_queue p sleep_q)) [
    | inl s ↦ rw s (rw (same_queue→eq p sleep_q s) sleepers.distinct.0)
    | inr o ↦ rw o (rep.apart sleep_q p (rq_node t) (rw same_queue_comm o) (rw e (ground arith)))
  ]

  leave_sleep :
      Returns
        (λ node k'. Left k' × ((k'.rq.lists sleep_q).first ≡ head_or (nodes_of sleep_q ts) null))
        (with_list sleep_q (remove (rq_node t)) k)
  unfolding set_list
  leave_sleep = elim (remove-Leaves [] (rq_node t) (nodes_of sleep_q ts) sleepers) [
    | returns (node, l) g eq (same, w) ↦
        returns node (set_list k sleep_q l g)
          (with_list-ok sleep_q (remove (rq_node t)) k node l g eq)
          (
            record {
              shows = Represents-remove rep sleep_q [] t ts l g e w;
              loose = record {
                free = w.3;
                obj = w.2 (rq_node t) ∙ rep.objs sleep_q t t_in;
                ne_null = rep.ne_null sleep_q t t_in;
                new = new_elsewhere;
              };
              wakes = refl;
              class = refl;
            },
            w.0.first,
          )
  ]

pub not_sleep : {c : Class} {q : Queue} → RunsIn c q → same_queue q sleep_q ≡ false
not_sleep in_rt = refl
not_sleep in_app = refl
not_sleep in_background = refl

upd_other :
    (view : View) (p q : Queue) (ts : List Ptr) → same_queue p q ≡ false → upd view q ts p ≡ view p
upd_other view p q ts o = rw o

first_wake-other :
    (w : Ptr → ℕ) (v : Ptr → ℕ) (t : Ptr) (ts : List Ptr)
    → mem (rq_node t) (nodes_of sleep_q ts) ≡ false
    → ((s : Ptr) → s ≢ t → v s ≡ w s)
    → first_wake v ts ≡ first_wake w ts
first_wake-other w v t [] o same = refl
first_wake-other w v t (s ∷ ss) o same = same s (λ e. ground (arith, e))

module _ (k : Kernel) (view : View) (t : Ptr) (ts : List Ptr) (q : Queue) (rep : Shows k view)
    (e : view sleep_q ≡ t ∷ ts) (runs : RunsIn (k.table t).class q)
    (small : suc (length (nodes_of q (view q))) < 2 ^ 32) where
  -- What the body of the loop leaves.
  pub record Moved (k' : Kernel) : Type 0 where
    pub shows : Shows k' (upd (upd view sleep_q ts) q (view q ++ t ∷ []))
    pub no_next : (k'.nodes (rq_node t)).next ≡ null
    pub wakes : (s : Ptr) → s ≢ t → wake_of k' s ≡ wake_of k s
    pub awake : wake_of k' t ≡ 0

  t_ok : (t == null) ≡ false
  t_ok = ne→==_false t null (rep.ne_null sleep_q t (t_in k view t ts rep e))

  moved : Returns (λ _ k'. Moved k') (wake_thread (rq_node t) t k)
  unfolding wake_thread update_thread read_thread set_thread
  moved = elim (leave_sleep k view t ts rep e) [
    | returns node k₁ eq (left, first) ↦
        let k₂ = set_thread k₁ t (record (k₁.table t) { rq_list = none }) in
        elim (enqueue-Enqueued k₂ (upd view sleep_q ts) t left.shows
          (record {
            free = left.loose.free;
            obj = left.loose.obj;
            ne_null = left.loose.ne_null;
            new = left.loose.new;
          })
          {c = (k₁.table t).class} {q = q} (rw left.class runs)
          (rw (upd_other view q sleep_q ts (not_sleep runs)) small)) [
            | returns u k₃ eq' done ↦
                returns tt (set_thread k₃ t (record (k₃.table t) { tick_to_wake = 0 }))
                  (rw (eq, t_ok, t_ok, ==_self t, eq', t_ok))
                  (record {
                    shows = rw (upd_other view q sleep_q ts (not_sleep runs)) at done.shows;
                    no_next = done.no_next;
                    wakes = λ s ns.
                        rw (wake_of, ne→==_false s t ns)
                          (ap (λ (w : Ptr → ℕ). w s)
                            (done.wakes ∙ set_thread-wake_of k₁ t _ refl ∙ left.wakes));
                    awake = rw (wake_of, ==_self t);
                  })
          ]
  ]

-- `process_expired_delays` wakes the first sleeper whose tick has passed, and no other: taking its
-- node out and enqueueing it clear the `next` pointer by which the loop would go on, so a second
-- expired thread stays asleep until the next call. The sleeper must belong to a class with a run
-- queue, and `cpu_rq.tick_to_wake` must be its tick; fuel 2 is enough for the loop.
pub process_expired_delays-Woken :
    (k : Kernel) (view : View) (t : Ptr) (ts : List Ptr) (q : Queue) (fuel : ℕ)
    → Shows k view
    → view sleep_q ≡ t ∷ ts
    → RunsIn (k.table t).class q
    → suc (length (nodes_of q (view q))) < 2 ^ 32
    → k.rq.tick_to_wake ≡ wake_of k t
    → 0 < wake_of k t
    → wake_of k t < k.tick
    → 2 ≤ fuel
    → Returns (λ _ k'. Woken k view t ts q k') (process_expired_delays fuel k)
unfolding process_expired_delays expire_from get_kernel read_node read_thread
process_expired_delays-Woken k view t ts q zero rep e runs small first pos past enough =
    absurd (omega arith)
process_expired_delays-Woken k view t ts q (suc zero) rep e runs small first pos past enough =
    absurd (omega arith)
process_expired_delays-Woken k view t ts q (suc (suc fuel)) rep e runs small first pos past enough =
    elim (moved k view t ts q rep e runs small) [
      | returns u k' eq m ↦
          returns tt (put_wake (first_wake (wake_of k') ts) k')
            (rw (due, set, list.first, node_ok, node_ok, obj, t_ok, late, eq, node_ok, m.no_next)
              (rw
                (upd_other (upd view sleep_q ts) sleep_q q (view q ++ t ∷ [])
                  (rw same_queue_comm (not_sleep runs)))
                at
                (tick_to_wake_update-first_wake k' (upd (upd view sleep_q ts) q (view q ++ t ∷ []))
                  m.shows)))
            (record {
              shows = m.shows;
              next_wake = first_wake-other (wake_of k) (wake_of k') t ts list.distinct.0 m.wakes;
              awake = m.awake;
            })
    ]
  where
    list : IsDlist k.nodes (k.rq.lists sleep_q) (rq_node t ∷ nodes_of sleep_q ts)
    list = sleepers k view t ts rep e

    due : leb k.rq.tick_to_wake k.tick ≡ true
    due = rw first (ground arith)

    set : (k.rq.tick_to_wake == null) ≡ false
    set = ne→==_false k.rq.tick_to_wake null (λ z. omega (arith, z, first, pos))

    node_ok : (rq_node t == null) ≡ false
    node_ok = ne→==_false (rq_node t) null list.links.0

    obj : (k.nodes (rq_node t)).obj ≡ t
    obj = rep.objs sleep_q t (t_in k view t ts rep e)

    t_ok : (t == null) ≡ false
    t_ok = ne→==_false t null (rep.ne_null sleep_q t (t_in k view t ts rep e))

    late : ltb (wake_of k t) k.tick ≡ true
    late = lt→ltb (wake_of k t) k.tick past
