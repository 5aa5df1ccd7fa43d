-- ===== src/Dlist/Remove.antt =====
-- The removals of dlist.c on a list that holds a sequence of nodes.
use operating_system_cortex.Base.{
  ℕ, suc, ◌≡◌, ◌≢◌, refl, sym, ap, ◌∙◌, true, false, List, [], ◌∷◌, ◌++◌, arith, ◌==◌,
  if◌then◌else◌, length, length-append, ne→==_false, last_or, mem, mem-append, Distinct, ok,
  Returns, returns, ==_self, bind, last_or-append, inl, inr, Bool-cases, ==→eq, Run, continue, pure,
  ◌>>◌, fun_ext,
}
use operating_system_cortex.Dlist.{
  Ptr, null, Dlist, Heap, decrement, unlink, drop_first, drop_last, remove_first, remove_last,
  remove_inner, remove_link, remove,
}
use operating_system_cortex.Dlist.Links.{
  Links, IsDlist, load-ok, set_next-ok, set_prev-ok, with_next, with_prev, writes, Links-split,
  Links-ne_null, mem-last, ne_of_mem, Distinct-split, ne-last,
}
use operating_system_cortex.Dlist.Splice.{Without, Removed-Holds, Distinct-remove, Node_ext}

-- The node is returned, and taken out of the list.
abbrev pub Leaves : Heap → List Ptr → Ptr → List Ptr → Ptr × Dlist → Heap → Type 0
Leaves h xs node ys (p, l) g = (p ≡ node) × Without h xs node ys l g

decrement-ok :
    (l : Dlist) (n : ℕ) (h : Heap) → l.size ≡ suc n → decrement l h ≡ ok (record l { size = n }, h)
unfolding decrement
decrement-ok l n h e =
    rw (e, ne→==_false (suc n) 0 (omega arith))
      (ap (λ k. ok (record l { size = k }, h)) (omega arith))

unlink-ok :
    (h : Heap) (node : Ptr)
    → node ≢ null
    → unlink node h ≡ ok (tt, with_prev (with_next h node null) node null)
unfolding unlink
unlink-ok h node ne = rw (set_next-ok node null h ne, set_prev-ok node null _ ne)

-- `dlist_remove_first` takes the first node off and returns it.
pub remove_first-Leaves :
    {h : Heap} {l : Dlist} (node : Ptr) (ys : List Ptr)
    → IsDlist h l (node ∷ ys)
    → Returns (Leaves h [] node ys) (remove_first l h)
unfolding remove_first drop_first
remove_first-Leaves {h} {l} node [] is =
    returns (node, l') g
      (rw (
        is.first,
        ne→==_false node null is.links.0,
        load-ok node h is.links.0,
        is.links.2,
        decrement-ok (record l { first = null; last = null }) 0 h is.size,
        unlink-ok h node is.links.0,
      ))
      (
        refl,
        Removed-Holds l' [] node [] is
            (record {
              node_prev = simp writes (rw (==_self node));
              node_next = simp writes (rw (==_self node));
              next = λ a na nn. simp writes (rw (ne→==_false a node nn, ne→==_false a null na));
              prev = λ a na nn. simp writes (rw (ne→==_false a node nn, ne→==_false a null na));
              obj = λ a. simp writes;
            })
            refl refl (sym is.size),
      )
  where
    g : Heap
    g = with_prev (with_next h node null) node null

    l' : Dlist
    l' = record { first = null; last = null; size = 0 }
remove_first-Leaves {h} {l} node (y ∷ ys) is =
    returns (node, l') g
      (rw (
        is.first,
        ne→==_false node null is.links.0,
        load-ok node h is.links.0,
        is.links.2,
        ne→==_false y null y_ok,
        set_prev-ok y null h y_ok,
        decrement-ok (record l { first = y }) (suc (length ys)) _ is.size,
        unlink-ok (with_prev h y null) node is.links.0,
      ))
      (
        refl,
        Removed-Holds l' [] node (y ∷ ys) is
            (record {
              node_prev = simp writes (rw (==_self node));
              node_next = simp writes (rw (==_self node));
              next = λ a na nn. simp writes (rw (ne→==_false a node nn, ne→==_false a null na));
              prev = λ a na nn. simp writes (rw (ne→==_false a node nn));
              obj = λ a. simp writes;
            })
            refl is.last (sym is.size),
      )
  where
    y_ok : y ≢ null
    y_ok = (is.links.3).0

    g : Heap
    g = with_prev (with_next (with_prev h y null) node null) node null

    l' : Dlist
    l' = record { first = y; last = l.last; size = suc (length ys) }

-- `dlist_remove_last` takes the last node off and returns it.
remove_last-Leaves :
    {h : Heap} {l : Dlist} (xs : List Ptr) (node : Ptr)
    → IsDlist h l (xs ++ node ∷ [])
    → Returns (Leaves h xs node []) (remove_last l h)
unfolding remove_last drop_last
remove_last-Leaves {h} {l} [] node is =
    returns (node, l') g
      (rw (
        is.last,
        ne→==_false node null is.links.0,
        load-ok node h is.links.0,
        is.links.1,
        decrement-ok (record l { first = null; last = null }) 0 h is.size,
        unlink-ok h node is.links.0,
      ))
      (
        refl,
        Removed-Holds l' [] node [] is
            (record {
              node_prev = simp writes (rw (==_self node));
              node_next = simp writes (rw (==_self node));
              next = λ a na nn. simp writes (rw (ne→==_false a node nn, ne→==_false a null na));
              prev = λ a na nn. simp writes (rw (ne→==_false a node nn, ne→==_false a null na));
              obj = λ a. simp writes;
            })
            refl refl (sym is.size),
      )
  where
    g : Heap
    g = with_prev (with_next h node null) node null

    l' : Dlist
    l' = record { first = null; last = null; size = 0 }
remove_last-Leaves {h} {l} (x ∷ xs) node is =
    returns (node, l') g
      (rw (
        at_last,
        ne→==_false node null n_ok,
        load-ok node h n_ok,
        at.1,
        ne→==_false z null z_ok,
        set_next-ok z null h z_ok,
        decrement-ok (record l { last = z }) (length (x ∷ xs)) _ sz,
        unlink-ok (with_next h z null) node n_ok,
      ))
      (
        refl,
        Removed-Holds l' (x ∷ xs) node [] is
            (record {
              node_prev = simp writes (rw (==_self node));
              node_next = simp writes (rw (==_self node));
              next = λ a na nn. simp writes (rw (ne→==_false a node nn));
              prev = λ a na nn. simp writes (rw (ne→==_false a node nn, ne→==_false a null na));
              obj = λ a. simp writes;
            })
            is.first refl (sym sz),
      )
  where
    z : Ptr
    z = last_or x xs

    at : (node ≢ null) × ((h node).prev ≡ last_or x xs) × ((h node).next ≡ null) × Unit {0}
    at = (Links-split h null (x ∷ xs) (node ∷ []) null is.links).1

    n_ok : node ≢ null
    n_ok = at.0

    at_last : l.last ≡ node
    at_last = is.last ∙ last_or-append x xs (node ∷ [])

    sz : l.size ≡ suc (length (x ∷ xs))
    sz = omega (arith, is.size, length-append xs (node ∷ []))

    z_ok : z ≢ null
    z_ok =
        Links-ne_null h null (x ∷ xs ++ node ∷ []) null is.links z
          (ground (arith, mem-append z xs (node ∷ []), mem-last x xs))

    g : Heap
    g = with_prev (with_next (with_next h z null) node null) node null

    l' : Dlist
    l' = record { first = l.first; last = z; size = suc (length xs) }

inner_ne :
    (x : Ptr) (xs : List Ptr) (node : Ptr) (ys : List Ptr)
    → Distinct (x ∷ xs ++ node ∷ ys)
    → node ≢ x
inner_ne x xs node ys (out, d) =
    ne_of_mem node x (xs ++ node ∷ ys) (ground (arith, mem-append node xs (node ∷ ys))) out

if_same : (f : Ptr → Ptr) (a p q : Ptr) → f p ≡ q → (if a == p then q else f a) ≡ f a
if_same f a p q e = elim (Bool-cases (a == p)) [
  | inl t ↦ rw t (sym (ap f (==→eq a p t) ∙ e))
  | inr t ↦ rw t
]

with_null_same :
    (g : Heap) (p : Ptr)
    → (g p).next ≡ null
    → (g p).prev ≡ null
    → with_prev (with_next g p null) p null ≡ g
with_null_same g p n q = fun_ext (λ a.
    Node_ext _ (g a) (simp writes (if_same (λ c. (g c).prev) a p null q))
      (simp writes (if_same (λ c. (g c).next) a p null n)) (simp writes))

-- The last step of `dlist_remove` does nothing to a node that is free.
unlink-Leaves :
    {h : Heap} (xs : List Ptr) (node : Ptr) (ys : List Ptr) {r : Run ((Ptr × Dlist) × Heap)}
    → Returns (Leaves h xs node ys) r
    → Returns (Leaves h xs node ys) (
        bind (bind r (continue (λ (_, l). pure l))) (continue (λ l. unlink node >> pure (node, l))))
unlink-Leaves xs node ys (returns (p, l) g e (q, w)) =
    returns (node, l) g
      (rw (e, unlink-ok g node (w.3).ne_null, with_null_same g node (w.3).next (w.3).prev))
      (refl, w)

-- `dlist_remove` takes the given node out of the list, wherever it stands.
pub remove-Leaves :
    {h : Heap} {l : Dlist} (xs : List Ptr) (node : Ptr) (ys : List Ptr)
    → IsDlist h l (xs ++ node ∷ ys)
    → Returns (Leaves h xs node ys) (remove node l h)
unfolding remove remove_link remove_inner
remove-Leaves {h} {l} [] node ys is =
    rw at_first (unlink-Leaves [] node ys (remove_first-Leaves node ys is))
  where
    at_first : (node == l.first) ≡ true
    at_first = rw is.first (==_self node)
remove-Leaves {h} {l} (x ∷ xs) node [] is =
    rw (not_first, at_last) (unlink-Leaves (x ∷ xs) node [] (remove_last-Leaves (x ∷ xs) node is))
  where
    not_first : (node == l.first) ≡ false
    not_first = rw is.first (ne→==_false node x (inner_ne x xs node [] is.distinct))

    at_last : (node == l.last) ≡ true
    at_last = rw (is.last, last_or-append x xs (node ∷ [])) (==_self node)
remove-Leaves {h} {l} (x ∷ xs) node (y ∷ ys) is =
    returns (node, l') g
      (rw
        (
          not_first,
          not_last,
          load-ok node h n_ok,
          at.1,
          set_next-ok z (h node).next h z_ok,
          at.2,
          load-ok node (with_next h z y) n_ok,
        )
        (rw (
          n1,
          n2,
          set_prev-ok y z (with_next h z y) y_ok,
          decrement-ok l (length (x ∷ xs ++ y ∷ ys)) _ sz,
          unlink-ok _ node n_ok,
        )))
      (
        refl,
        Removed-Holds l' (x ∷ xs) node (y ∷ ys) is
            (record {
              node_prev = simp writes (rw (==_self node));
              node_next = simp writes (rw (==_self node));
              next = λ a na nn. simp writes (rw (ne→==_false a node nn));
              prev = λ a na nn. simp writes (rw (ne→==_false a node nn));
              obj = λ a. simp writes;
            })
            is.first (is.last ∙ last_or-append x xs (node ∷ y ∷ ys)) (sym sz),
      )
  where
    z : Ptr
    z = last_or x xs

    not_first : (node == l.first) ≡ false
    not_first = rw is.first (ne→==_false node x (inner_ne x xs node (y ∷ ys) is.distinct))

    at :
        (node ≢ null)
        × ((h node).prev ≡ last_or x xs)
        × ((h node).next ≡ y)
        × Links h node (y ∷ ys) null
    at = (Links-split h null (x ∷ xs) (node ∷ y ∷ ys) null is.links).1

    n_ok : node ≢ null
    n_ok = at.0

    out : mem node (y ∷ ys) ≡ false
    out = (Distinct-split (x ∷ xs) (node ∷ y ∷ ys) is.distinct).1.0

    not_last : (node == l.last) ≡ false
    not_last =
        rw (is.last, last_or-append x xs (node ∷ y ∷ ys))
          (ne→==_false node (last_or y ys) (ne-last node (y ∷ ys) n_ok out))

    n_out : mem node (x ∷ xs) ≡ false
    n_out =
        ground (
          arith,
          (Distinct-remove (x ∷ xs) node (y ∷ ys) is.distinct).1,
          mem-append node xs (y ∷ ys),
        )

    z_in : mem z (x ∷ xs) ≡ true
    z_in = mem-last x xs

    z_ok : z ≢ null
    z_ok =
        Links-ne_null h null (x ∷ xs ++ node ∷ y ∷ ys) null is.links z
          (ground (arith, mem-append z xs (node ∷ y ∷ ys), z_in))

    y_ok : y ≢ null
    y_ok = (at.3).0

    n1 : (with_next h z y node).next ≡ y
    n1 =
        simp writes
          (rw (ne→==_false node z (λ e. ne_of_mem z node (x ∷ xs) z_in n_out (sym e))) at.2)

    n2 : (with_next h z y node).prev ≡ z
    n2 = simp writes at.1

    sz : l.size ≡ suc (length (x ∷ xs ++ y ∷ ys))
    sz = omega (arith, is.size, length-append xs (node ∷ y ∷ ys), length-append xs (y ∷ ys))

    g : Heap
    g = with_prev (with_next (with_prev (with_next h z y) y z) node null) node null

    l' : Dlist
    l' = record { first = l.first; last = l.last; size = length (x ∷ xs ++ y ∷ ys) }
