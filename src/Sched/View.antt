-- ===== src/Sched/View.antt =====
-- What the lists of the run queue hold: for each list the threads in it, in order.
use operating_system_cortex.Base.{
  ◌≡◌, ◌≢◌, sym, ◌∙◌, true, false, ◌==◌, if◌then◌else◌, List, ◌∷◌, ◌++◌, map, map-append, ==→eq,
  false≢true, ◌⊎◌, mem, mem-append, Bool-cases, inl, inr, arith, Cmd, ok,
}
use operating_system_cortex.Dlist.{Ptr, null, Dlist, Heap}
use operating_system_cortex.Dlist.Links.{IsDlist, SameOutside, SameObjs, IsDlist-frame, ne_of_mem}
use operating_system_cortex.Dlist.Splice.{Holds, Without}
use operating_system_cortex.Sched.{
  Queue, threads, rq_node, thread_node, same_queue, Kernel, with_list, into_list, set_list,
}

abbrev pub View : Type 0
View = Queue → List Ptr

-- The node by which a thread stands in a list.
abbrev pub node_of : Queue → Ptr → Ptr
node_of threads t = thread_node t
node_of _ t = rq_node t

abbrev pub nodes_of : Queue → List Ptr → List Ptr
nodes_of q ts = map (node_of q) ts

-- The view with other threads in `q`.
abbrev pub upd : View → Queue → List Ptr → View
upd view q ts p = if same_queue p q then ts else view p

module _ (h : Heap) (lists : Queue → Dlist) (view : View) where
  -- Each list holds the nodes of its threads, these refer to their threads, and no two lists
  -- share a node.
  pub record Represents : Type 0 where
    pub holds : (q : Queue) → IsDlist h (lists q) (nodes_of q (view q))
    pub objs : (q : Queue) (t : Ptr) → mem t (view q) ≡ true → (h (node_of q t)).obj ≡ t
    pub ne_null : (q : Queue) (t : Ptr) → mem t (view q) ≡ true → t ≢ null
    pub apart :
        (p q : Queue) (a : Ptr)
        → same_queue p q ≡ false
        → mem a (nodes_of p (view p)) ≡ true
        → mem a (nodes_of q (view q)) ≡ false

-- A call on a list that runs through.
pub with_list-ok :
    {A : Type 0} (q : Queue) (op : Dlist → Cmd Heap (A × Dlist)) (k : Kernel) (a : A) (l : Dlist)
    (g : Heap)
    → op (k.rq.lists q) k.nodes ≡ ok ((a, l), g)
    → with_list q op k ≡ ok (a, set_list k q l g)
unfolding with_list
with_list-ok q op k a l g e = rw (e, with_list)

pub into_list-ok :
    (q : Queue) (op : Dlist → Cmd Heap Dlist) (k : Kernel) (l : Dlist) (g : Heap)
    → op (k.rq.lists q) k.nodes ≡ ok (l, g)
    → into_list q op k ≡ ok (tt, set_list k q l g)
unfolding into_list
into_list-ok q op k l g e = with_list-ok q _ k tt l g (rw e)

pub same_queue→eq : (p q : Queue) → same_queue p q ≡ true → p ≡ q
same_queue→eq p q e = ground arith

pub same_queue_self : (p : Queue) → same_queue p p ≡ true
same_queue_self p = ground arith

pub same_queue_comm : (p q : Queue) → same_queue p q ≡ same_queue q p
same_queue_comm p q = ground arith

-- An operation on the list `q` that leaves it with the threads `ts` keeps the others.
module _ {h : Heap} {lists : Queue → Dlist} {view : View} (rep : Represents h lists view)
    (q : Queue) (l : Dlist) (g : Heap) (ts zs : List Ptr) where
  pub Represents-change :
      IsDlist g l (nodes_of q ts)
      → SameOutside zs h g
      → SameObjs h g
      → ((t : Ptr) → mem t ts ≡ true → ((h (node_of q t)).obj ≡ t) × (t ≢ null))
      → ((p : Queue) (a : Ptr)
          → same_queue p q ≡ false
          → mem a (nodes_of p (view p)) ≡ true
          → (mem a zs ≡ false) × (mem a (nodes_of q ts) ≡ false))
      → Represents g (λ p. if same_queue p q then l else lists p) (upd view q ts)
  Represents-change is same objs own other = record {
    holds = λ p. elim (Bool-cases (same_queue p q)) [
      | inl e ↦ rw e (rw (same_queue→eq p q e) is)
      | inr e ↦ rw e (IsDlist-frame g zs same (λ a i. (other p a e i).0) (rep.holds p))
    ];
    objs = λ p t i. objs (node_of p t) ∙ (elim (Bool-cases (same_queue p q)) [
      | inl e ↦ rw (same_queue→eq p q e) (own t (rw e at i)).0
      | inr e ↦ rep.objs p t (rw e at i)
    ]);
    ne_null = λ p t i. elim (Bool-cases (same_queue p q)) [
      | inl e ↦ (own t (rw e at i)).1
      | inr e ↦ rep.ne_null p t (rw e at i)
    ];
    apart =
        λ p r a n i. apart' p r a n i (Bool-cases (same_queue p q)) (Bool-cases (same_queue r q));
  }
    where
      apart' :
          (p r : Queue) (a : Ptr)
          → same_queue p r ≡ false
          → mem a (nodes_of p (upd view q ts p)) ≡ true
          → (same_queue p q ≡ true) ⊎ (same_queue p q ≡ false)
          → (same_queue r q ≡ true) ⊎ (same_queue r q ≡ false)
          → mem a (nodes_of r (upd view q ts r)) ≡ false
      apart' p r a n i (inl e) (inl f) =
          absurd
            (false≢true (sym n ∙ rw (same_queue→eq p q e, same_queue→eq r q f) (same_queue_self q)))
      apart' p r a n i (inl e) (inr f) = rw f (elim (Bool-cases (mem a (nodes_of r (view r)))) [
        | inr m ↦ m
        | inl m ↦ absurd (false≢true (sym (other r a f m).1 ∙ rw (e, same_queue→eq p q e) at i))
      ])
      apart' p r a n i (inr e) (inl f) = rw f (rw (same_queue→eq r q f) (other p a e (rw e at i)).1)
      apart' p r a n i (inr e) (inr f) = rw f (rep.apart p r a n (rw e at i))

pub nodes_of-middle :
    (q : Queue) (xs : List Ptr) (t : Ptr) (ys : List Ptr)
    → nodes_of q (xs ++ t ∷ ys) ≡ nodes_of q xs ++ node_of q t ∷ nodes_of q ys
nodes_of-middle q xs t ys = map-append (node_of q) xs (t ∷ ys)

module _ {h : Heap} {lists : Queue → Dlist} {view : View} (rep : Represents h lists view)
    (q : Queue) (xs : List Ptr) (t : Ptr) (ys : List Ptr) where
  -- The list `q` where it is known to be `xs`, `t` and `ys`.
  pub holds_middle :
      view q ≡ xs ++ t ∷ ys → IsDlist h (lists q) (nodes_of q xs ++ node_of q t ∷ nodes_of q ys)
  holds_middle e = rw (← nodes_of-middle q xs t ys, ← e) (rep.holds q)

  -- A thread taken out of `q`.
  pub Represents-remove :
      (l : Dlist) (g : Heap)
      → view q ≡ xs ++ t ∷ ys
      → Without h (nodes_of q xs) (node_of q t) (nodes_of q ys) l g
      → Represents g (λ p. if same_queue p q then l else lists p) (upd view q (xs ++ ys))
  Represents-remove l g e w =
      Represents-change rep q l g (xs ++ ys) (nodes_of q xs ++ node_of q t ∷ nodes_of q ys)
        (rw (map-append (node_of q) xs ys) w.0) w.1 w.2
        (λ s i.
          let j : mem s (view q) ≡ true =
            rw e (ground (arith, mem-append s xs ys, mem-append s xs (t ∷ ys))) in
          (rep.objs q s j, rep.ne_null q s j))
        (λ p a n i.
          let o : mem a (nodes_of q xs ++ node_of q t ∷ nodes_of q ys) ≡ false =
            rw (e, nodes_of-middle q xs t ys) at (rep.apart p q a n i) in
          (
            o,
            rw (map-append (node_of q) xs ys) (
                ground (
                  arith,
                  mem-append a (nodes_of q xs) (nodes_of q ys),
                  mem-append a (nodes_of q xs) (node_of q t ∷ nodes_of q ys),
                )),
          ))

  -- A thread whose node is in no list put into `q`.
  pub Represents-insert :
      (l : Dlist) (g : Heap)
      → view q ≡ xs ++ ys
      → Holds h (nodes_of q xs ++ node_of q t ∷ nodes_of q ys) l g
      → (h (node_of q t)).obj ≡ t
      → t ≢ null
      → ((p : Queue) → mem (node_of q t) (nodes_of p (view p)) ≡ false)
      → Represents g (λ p. if same_queue p q then l else lists p) (upd view q (xs ++ t ∷ ys))
  Represents-insert l g e w ob ne out =
      Represents-change rep q l g (xs ++ t ∷ ys) (nodes_of q xs ++ node_of q t ∷ nodes_of q ys)
        (rw (nodes_of-middle q xs t ys) w.0) w.1 w.2
        (λ s i. elim (Bool-cases (s == t)) [
          | inl same ↦ rw (==→eq s t same) (ob, ne)
          | inr other ↦
              let j : mem s (view q) ≡ true =
                rw e (ground (arith, mem-append s xs ys, mem-append s xs (t ∷ ys))) in
              (rep.objs q s j, rep.ne_null q s j)
        ])
        (λ p a n i. let o = outside p a n i in (o, rw (nodes_of-middle q xs t ys) o))
    where
      outside :
          (p : Queue) (a : Ptr)
          → same_queue p q ≡ false
          → mem a (nodes_of p (view p)) ≡ true
          → mem a (nodes_of q xs ++ node_of q t ∷ nodes_of q ys) ≡ false
      outside p a n i =
          let o : mem a (nodes_of q xs ++ nodes_of q ys) ≡ false =
            rw (e, map-append (node_of q) xs ys) at (rep.apart p q a n i) in
          let d : a ≢ node_of q t = ne_of_mem a (node_of q t) (nodes_of p (view p)) i (out p) in
          ground (
            arith,
            mem-append a (nodes_of q xs) (nodes_of q ys),
            mem-append a (nodes_of q xs) (node_of q t ∷ nodes_of q ys),
          )
