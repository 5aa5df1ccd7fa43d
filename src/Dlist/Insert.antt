-- ===== src/Dlist/Insert.antt =====
-- The insertions of dlist.c on a list that holds a sequence of nodes.
use operating_system_cortex.Base.{
  ℕ, suc, ◌+◌, ◌<◌, ◌^◌, ◌≡◌, ◌≢◌, refl, sym, ◌∙◌, true, false, List, [], ◌∷◌, ◌++◌, arith, ◌==◌,
  length, ne→==_false, head_or, last_or, mem, mem-append, append-nil, append_assoc, ok, Returns,
  returns, ==_self, u32, head_or-append, last_or-append,
}
use operating_system_cortex.Dlist.{
  Ptr, null, Dlist, Heap, check_free, insert_first, insert_last, insert_after, insert_before,
}
use operating_system_cortex.Dlist.Links.{
  Links, IsDlist, IsFree, load-ok, set_next-ok, set_prev-ok, with_next, with_prev, writes,
  Links-split, Links-ne_null, mem-last, ne_of_mem, Distinct-split, ne-last,
}
use operating_system_cortex.Dlist.Splice.{Holds, Inserted-Holds}

check_free-ok :
    {h : Heap} {l : Dlist} (xs : List Ptr) (node : Ptr)
    → IsDlist h l xs
    → IsFree h node
    → mem node xs ≡ false
    → check_free node l h ≡ ok (tt, h)
unfolding check_free
check_free-ok {h} [] node is free new = ground (arith, load-ok node h)
check_free-ok {h} (y ∷ ys) node is free new = ground (arith, load-ok node h)

-- `list->size++` does not wrap.
size_suc : (l : Dlist) (n : ℕ) → l.size ≡ n → suc n < 2 ^ 32 → u32 (l.size + 1) ≡ suc l.size
size_suc l n e small = omega arith

-- `dlist_insert_first` puts a free node in front of the nodes of the list.
pub insert_first-Holds :
    {h : Heap} {l : Dlist} (xs : List Ptr) (node : Ptr)
    → IsDlist h l xs
    → IsFree h node
    → mem node xs ≡ false
    → suc (length xs) < 2 ^ 32
    → Returns (Holds h (node ∷ xs)) (insert_first node l h)
unfolding insert_first
insert_first-Holds {h} {l} [] node is free new small =
    returns l' h (rw (check_free-ok [] node is free new, is.first)) (
      Inserted-Holds l' [] node [] is free.ne_null new
        (record {
          node_prev = free.prev;
          node_next = free.next;
          next = λ a na nn. ground arith;
          prev = λ a na nn. ground arith;
          obj = λ a. refl;
        })
        refl refl (size_suc l 0 is.size small))
  where
    l' : Dlist
    l' = record { first = node; last = node; size = u32 (l.size + 1) }
insert_first-Holds {h} {l} (y ∷ ys) node is free new small =
    returns l' g
      (rw (
        check_free-ok (y ∷ ys) node is free new,
        is.first,
        ne→==_false y null y_ok,
        set_next-ok node y h free.ne_null,
        set_prev-ok y node (with_next h node y) y_ok,
      ))
      (Inserted-Holds l' [] node (y ∷ ys) is free.ne_null new
        (record {
          node_prev = simp writes (rw (ne→==_false node y (λ e. ground arith)) free.prev);
          node_next = simp writes (rw (==_self node));
          next = λ a na nn. simp writes (ground arith);
          prev = λ a na nn. simp writes;
          obj = λ a. simp writes;
        })
        refl is.last (size_suc l (suc (length ys)) is.size small))
  where
    y_ok : y ≢ null
    y_ok = is.links.0

    g : Heap
    g = with_prev (with_next h node y) y node

    l' : Dlist
    l' = record l { first = node; size = u32 (l.size + 1) }

-- `dlist_insert_last` puts a free node behind the nodes of the list.
pub insert_last-Holds :
    {h : Heap} {l : Dlist} (xs : List Ptr) (node : Ptr)
    → IsDlist h l xs
    → IsFree h node
    → mem node xs ≡ false
    → suc (length xs) < 2 ^ 32
    → Returns (Holds h (xs ++ node ∷ [])) (insert_last node l h)
unfolding insert_last
insert_last-Holds {h} {l} [] node is free new small =
    returns l' h (rw (check_free-ok [] node is free new, is.last)) (
      Inserted-Holds l' [] node [] is free.ne_null new
        (record {
          node_prev = free.prev;
          node_next = free.next;
          next = λ a na nn. ground arith;
          prev = λ a na nn. ground arith;
          obj = λ a. refl;
        })
        refl refl (size_suc l 0 is.size small))
  where
    l' : Dlist
    l' = record { first = node; last = node; size = u32 (l.size + 1) }
insert_last-Holds {h} {l} (y ∷ ys) node is free new small =
    returns l' g
      (rw (
        check_free-ok (y ∷ ys) node is free new,
        is.last,
        ne→==_false z null z_ok,
        set_prev-ok node z h free.ne_null,
        set_next-ok z node (with_prev h node z) z_ok,
      ))
      (Inserted-Holds {l = l} l' (y ∷ ys) node [] (rw append-nil is) free.ne_null
        (rw append-nil new)
        (record {
          node_prev = simp writes (rw (==_self node));
          node_next = simp writes (
              rw (ne→==_false node z (λ e. ne_of_mem z node (y ∷ ys) (mem-last y ys) new (sym e)))
                free.next);
          next = λ a na nn. simp writes;
          prev = λ a na nn. simp writes (ground arith);
          obj = λ a. simp writes;
        })
        is.first refl (size_suc l (suc (length ys)) is.size small))
  where
    z : Ptr
    z = last_or y ys

    z_ok : z ≢ null
    z_ok = Links-ne_null h null (y ∷ ys) null is.links z (mem-last y ys)

    g : Heap
    g = with_next (with_prev h node z) z node

    l' : Dlist
    l' = record l { last = node; size = u32 (l.size + 1) }

-- `dlist_insert_after` puts a free node behind a node of the list.
insert_after-Holds :
    {h : Heap} {l : Dlist} (xs : List Ptr) (a : Ptr) (ys : List Ptr) (node : Ptr)
    → IsDlist h l (xs ++ a ∷ ys)
    → IsFree h node
    → mem node (xs ++ a ∷ ys) ≡ false
    → suc (length (xs ++ a ∷ ys)) < 2 ^ 32
    → Returns (Holds h (xs ++ a ∷ node ∷ ys)) (insert_after node a l h)
unfolding insert_after
insert_after-Holds {h} {l} xs a [] node is free new small =
    rw
      (
        check_free-ok (xs ++ a ∷ []) node is free new,
        at_last,
        ← append_assoc xs (a ∷ []) (node ∷ []),
      )
      (insert_last-Holds (xs ++ a ∷ []) node is free new small)
  where
    at_last : (a == l.last) ≡ true
    at_last = rw (is.last, last_or-append null xs (a ∷ [])) (==_self a)
insert_after-Holds {h} {l} xs a (b ∷ bs) node is free new small =
    returns l' g
      (rw (
        check_free-ok (xs ++ a ∷ b ∷ bs) node is free new,
        not_last,
        load-ok a h a_ok,
        set_next-ok node (h a).next h free.ne_null,
        at.2,
        set_prev-ok b node (with_next h node b) b_ok,
        set_next-ok a node _ a_ok,
        set_prev-ok node a _ free.ne_null,
      ))
      (rw (← append_assoc xs (a ∷ []) (node ∷ b ∷ bs)) (
        Inserted-Holds {l = l} l' (xs ++ a ∷ []) node (b ∷ bs) (rw append_assoc is) free.ne_null
          (rw append_assoc new)
          (record {
            node_prev = simp writes (rw (==_self node) (sym end));
            node_next = simp writes (rw (ne→==_false node a node_ne, ==_self node));
            next = λ c na nn. simp writes (rw (end, ne→==_false c node nn));
            prev = λ c na nn. simp writes (rw (ne→==_false c node nn));
            obj = λ a. simp writes;
          })
          (is.first ∙ head_or-append xs (a ∷ b ∷ bs) null ∙ sym (head_or-append xs (a ∷ []) node))
          (is.last ∙ last_or-append null xs (a ∷ b ∷ bs))
          (size_suc l (length (xs ++ a ∷ b ∷ bs)) is.size small)))
  where
    at : (a ≢ null) × ((h a).prev ≡ last_or null xs) × ((h a).next ≡ b) × Links h a (b ∷ bs) null
    at = (Links-split h null xs (a ∷ b ∷ bs) null is.links).1

    a_ok : a ≢ null
    a_ok = at.0

    a_out : mem a (b ∷ bs) ≡ false
    a_out = (Distinct-split xs (a ∷ b ∷ bs) is.distinct).1.0

    not_last : (a == l.last) ≡ false
    not_last =
        rw (is.last, last_or-append null xs (a ∷ b ∷ bs))
          (ne→==_false a (last_or b bs) (ne-last a (b ∷ bs) a_ok a_out))

    node_ne : node ≢ a
    node_ne e =
        ne_of_mem a node (xs ++ a ∷ b ∷ bs) (ground (arith, mem-append a xs (a ∷ b ∷ bs))) new
          (sym e)

    end : last_or null (xs ++ a ∷ []) ≡ a
    end = last_or-append null xs (a ∷ [])

    b_ok : b ≢ null
    b_ok = (at.3).0

    g : Heap
    g = with_prev (with_next (with_prev (with_next h node b) b node) a node) node a

    l' : Dlist
    l' = record l { size = u32 (l.size + 1) }

-- `dlist_insert_before` puts a free node in front of a node of the list.
pub insert_before-Holds :
    {h : Heap} {l : Dlist} (xs : List Ptr) (b : Ptr) (ys : List Ptr) (node : Ptr)
    → IsDlist h l (xs ++ b ∷ ys)
    → IsFree h node
    → mem node (xs ++ b ∷ ys) ≡ false
    → suc (length (xs ++ b ∷ ys)) < 2 ^ 32
    → Returns (Holds h (xs ++ node ∷ b ∷ ys)) (insert_before node b l h)
unfolding insert_before
insert_before-Holds {h} {l} [] b ys node is free new small =
    rw (check_free-ok (b ∷ ys) node is free new, at_first)
      (insert_first-Holds (b ∷ ys) node is free new small)
  where
    at_first : (b == l.first) ≡ true
    at_first = rw is.first (==_self b)
insert_before-Holds {h} {l} (x ∷ xs) b ys node is free new small =
    returns l' g
      (rw (
        check_free-ok (x ∷ xs ++ b ∷ ys) node is free new,
        not_first,
        load-ok b h b_ok,
        set_prev-ok node (h b).prev h free.ne_null,
        at.1,
        set_next-ok z node (with_prev h node z) z_ok,
        set_next-ok node b _ free.ne_null,
        set_prev-ok b node _ b_ok,
      ))
      (Inserted-Holds {l = l} l' (x ∷ xs) node (b ∷ ys) is free.ne_null new
        (record {
          node_prev = simp writes (rw (ne→==_false node b (node_ne b b_in), ==_self node));
          node_next = simp writes (rw (==_self node));
          next = λ c na nn. simp writes (rw (ne→==_false c node nn));
          prev = λ c na nn. simp writes (rw (ne→==_false c node nn));
          obj = λ c. simp writes;
        })
        is.first (is.last ∙ last_or-append x xs (b ∷ ys))
        (size_suc l (length (x ∷ xs ++ b ∷ ys)) is.size small))
  where
    z : Ptr
    z = last_or x xs

    at :
        (b ≢ null)
        × ((h b).prev ≡ last_or x xs)
        × ((h b).next ≡ head_or ys null)
        × Links h b ys null
    at = (Links-split h null (x ∷ xs) (b ∷ ys) null is.links).1

    b_ok : b ≢ null
    b_ok = at.0

    b_in : mem b (x ∷ xs ++ b ∷ ys) ≡ true
    b_in = ground (arith, mem-append b xs (b ∷ ys))

    z_in : mem z (x ∷ xs ++ b ∷ ys) ≡ true
    z_in = ground (arith, mem-append z xs (b ∷ ys), mem-last x xs)

    z_ok : z ≢ null
    z_ok = Links-ne_null h null (x ∷ xs ++ b ∷ ys) null is.links z z_in

    node_ne : (a : Ptr) → mem a (x ∷ xs ++ b ∷ ys) ≡ true → node ≢ a
    node_ne a i e = ne_of_mem a node (x ∷ xs ++ b ∷ ys) i new (sym e)

    not_first : (b == l.first) ≡ false
    not_first = rw is.first (
        ne→==_false b x (λ e.
          ne_of_mem b x (xs ++ b ∷ ys) (ground (arith, mem-append b xs (b ∷ ys))) is.distinct.0 e))

    g : Heap
    g = with_prev (with_next (with_next (with_prev h node z) z node) node b) b node

    l' : Dlist
    l' = record l { size = u32 (l.size + 1) }
