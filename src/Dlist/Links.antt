-- ===== src/Dlist/Links.antt =====
-- What it means that a `struct dlist` holds a sequence of nodes, and how writes change it.
use operating_system_cortex.Base.{
  ◌≡◌, ◌≢◌, refl, sym, refl, ap, ◌∙◌, true, false, List, [], ◌∷◌, ◌++◌, arith, ◌==◌, ==_self,
  ne→==_false, if◌then◌else◌, length, head_or, last_or, mem, Distinct, ok, mem-append,
  head_or-append,
}
use operating_system_cortex.Dlist.{
  Ptr, null, Node, Dlist, Heap, put, load, store, set_next, set_prev,
}

-- From the node before, `before`, the nodes `xs` are linked both ways up to `after`.
abbrev pub Links : Heap → Ptr → List Ptr → Ptr → Type 0
Links h before [] after = Unit {0}
Links h before (x ∷ xs) after =
    (x ≢ null) × ((h x).prev ≡ before) × ((h x).next ≡ head_or xs after) × Links h x xs after

pub record IsDlist (h : Heap) (l : Dlist) (xs : List Ptr) : Type 0 where
  pub links : Links h null xs null
  pub distinct : Distinct xs
  pub first : l.first ≡ head_or xs null
  pub last : l.last ≡ last_or null xs
  pub size : l.size ≡ length xs

-- The heaps differ at most at the nodes of `xs` (NULL is no node).
abbrev pub SameOutside : List Ptr → Heap → Heap → Type 0
SameOutside xs h g = (a : Ptr) → a ≢ null → mem a xs ≡ false → g a ≡ h a

-- No node refers to another object than before.
abbrev pub SameObjs : Heap → Heap → Type 0
SameObjs h g = (a : Ptr) → (g a).obj ≡ (h a).obj

-- A node that is in no list, as `dlist_node_init` leaves it.
pub record IsFree (h : Heap) (node : Ptr) : Type 0 where
  pub ne_null : node ≢ null
  pub prev : (h node).prev ≡ null
  pub next : (h node).next ≡ null

pub put_self : (h : Heap) (p : Ptr) (n : Node) → put h p n p ≡ n
unfolding put
put_self h p n = rw (==_self p)

pub put_ne : (h : Heap) (p : Ptr) (n : Node) (a : Ptr) → a ≢ p → put h p n a ≡ h a
unfolding put
put_ne h p n a ne = rw (ne→==_false a p ne)

-- A heap after `p->next = q`, and after `p->prev = q`.
pub with_next : Heap → Ptr → Ptr → Heap
with_next h p q = put h p (record (h p) { next = q })

pub with_prev : Heap → Ptr → Ptr → Heap
with_prev h p q = put h p (record (h p) { prev = q })

module _ (h : Heap) (p q : Ptr) where
  pub with_next-prev : (a : Ptr) → (with_next h p q a).prev ≡ (h a).prev
  unfolding with_next put
  with_next-prev a = ground arith

  pub with_next-obj : (a : Ptr) → (with_next h p q a).obj ≡ (h a).obj
  unfolding with_next put
  with_next-obj a = ground arith

  pub with_prev-next : (a : Ptr) → (with_prev h p q a).next ≡ (h a).next
  unfolding with_prev put
  with_prev-next a = ground arith

  pub with_prev-obj : (a : Ptr) → (with_prev h p q a).obj ≡ (h a).obj
  unfolding with_prev put
  with_prev-obj a = ground arith

  pub with_next-next : (a : Ptr) → (with_next h p q a).next ≡ (if a == p then q else (h a).next)
  unfolding with_next put
  with_next-next a = ground arith

  pub with_prev-prev : (a : Ptr) → (with_prev h p q a).prev ≡ (if a == p then q else (h a).prev)
  unfolding with_prev put
  with_prev-prev a = ground arith

pub ruleset writes =
    (with_next-next, with_next-prev, with_next-obj, with_prev-prev, with_prev-next, with_prev-obj)

pub load-ok : (p : Ptr) (h : Heap) → p ≢ null → load p h ≡ ok (h p, h)
unfolding load
load-ok p h ne = rw (ne→==_false p null ne)

pub set_next-ok : (p q : Ptr) (h : Heap) → p ≢ null → set_next p q h ≡ ok (tt, with_next h p q)
unfolding set_next load store with_next
set_next-ok p q h ne = ground arith

pub set_prev-ok : (p q : Ptr) (h : Heap) → p ≢ null → set_prev p q h ≡ ok (tt, with_prev h p q)
unfolding set_prev load store with_prev
set_prev-ok p q h ne = ground arith

pub ne_of_mem : (a b : Ptr) (xs : List Ptr) → mem a xs ≡ true → mem b xs ≡ false → a ≢ b
ne_of_mem a b xs i o e = ground (arith, e)

pub mem-last : (x : Ptr) (xs : List Ptr) → mem (last_or x xs) (x ∷ xs) ≡ true
mem-last x [] = ground arith
mem-last x (y ∷ ys) = ground (arith, mem-last y ys)

pub ne-last : (a : Ptr) (xs : List Ptr) → a ≢ null → mem a xs ≡ false → a ≢ last_or null xs
ne-last a [] ne o = ne
ne-last a (x ∷ xs) ne o = λ e. ne_of_mem (last_or x xs) a (x ∷ xs) (mem-last x xs) o (sym e)

pub ne-head : (a : Ptr) (xs : List Ptr) → a ≢ null → mem a xs ≡ false → a ≢ head_or xs null
ne-head a [] ne o = ne
ne-head a (x ∷ xs) ne o = ground arith

module _ (g h : Heap) where
  pub Links-frame :
      (before : Ptr) (xs : List Ptr) (after : Ptr)
      → ((a : Ptr) → mem a xs ≡ true → ((g a).prev ≡ (h a).prev) × ((g a).next ≡ (h a).next))
      → Links h before xs after
      → Links g before xs after
  Links-frame before [] after same ls = tt
  Links-frame before (x ∷ xs) after same (ne, p, n, ls) =
      let (ep, en) = same x (ground arith) in
      (ne, ep ∙ p, en ∙ n, Links-frame x xs after (λ a i. same a (ground arith)) ls)

  -- The last node of a segment is led to another successor.
  pub Links-set_next :
      (before : Ptr) (xs : List Ptr) (after after' : Ptr)
      → Distinct xs
      → Links h before xs after
      → ((a : Ptr) → mem a xs ≡ true → (g a).prev ≡ (h a).prev)
      → ((a : Ptr)
          → mem a xs ≡ true
          → (g a).next ≡ (if a == last_or before xs then after' else (h a).next))
      → Links g before xs after'
  Links-set_next before [] after after' d ls pr nx = tt
  Links-set_next before (x ∷ []) after after' d (ne, p, n, ls) pr nx =
      (ne, pr x (ground arith) ∙ p, ground (arith, nx x), tt)
  Links-set_next before (x ∷ y ∷ ys) after after' (out, d) (ne, p, n, ls) pr nx =
      let e : (x == last_or y ys) ≡ false =
        ne→==_false x (last_or y ys)
          (λ e. ne_of_mem (last_or y ys) x (y ∷ ys) (mem-last y ys) out (sym e)) in
      (
        ne,
        pr x (ground arith) ∙ p,
        nx x (ground arith) ∙ rw e n,
        Links-set_next x (y ∷ ys) after after' d ls (λ a i. pr a (ground arith))
            (λ a i. nx a (ground arith)),
      )

  -- The first node of a segment is led to another predecessor.
  pub Links-set_prev :
      (before before' : Ptr) (xs : List Ptr) (after : Ptr)
      → Distinct xs
      → Links h before xs after
      → ((a : Ptr) → mem a xs ≡ true → (g a).next ≡ (h a).next)
      → ((a : Ptr)
          → mem a xs ≡ true
          → (g a).prev ≡ (if a == head_or xs null then before' else (h a).prev))
      → Links g before' xs after
  Links-set_prev before before' [] after d ls nx pr = tt
  Links-set_prev before before' (x ∷ xs) after (out, d) (ne, p, n, ls) nx pr = (
    ne,
    ground (arith, pr x),
    nx x (ground arith) ∙ n,
    Links-frame x xs after
        (λ a i.
          let e : (a == x) ≡ false = ne→==_false a x (ne_of_mem a x xs i out) in
          (pr a (ground arith) ∙ rw e refl, nx a (ground arith)))
        ls,
  )

module _ (h : Heap) where
  -- A segment falls in two where its node sequence does.
  pub Links-split :
      (before : Ptr) (xs ys : List Ptr) (after : Ptr)
      → Links h before (xs ++ ys) after
      → Links h before xs (head_or ys after) × Links h (last_or before xs) ys after
  Links-split before [] ys after ls = (tt, ls)
  Links-split before (x ∷ xs) ys after (ne, p, n, ls) =
      let (front, back) = Links-split x xs ys after ls in
      ((ne, p, n ∙ head_or-append xs ys after, front), back)

  pub Links-join :
      (before : Ptr) (xs ys : List Ptr) (after : Ptr)
      → Links h before xs (head_or ys after)
      → Links h (last_or before xs) ys after
      → Links h before (xs ++ ys) after
  Links-join before [] ys after front back = back
  Links-join before (x ∷ xs) ys after (ne, p, n, front) back =
      (ne, p, n ∙ sym (head_or-append xs ys after), Links-join x xs ys after front back)

pub Distinct-split :
    (xs ys : List Ptr)
    → Distinct (xs ++ ys)
    → Distinct xs × Distinct ys × ((a : Ptr) → mem a xs ≡ true → mem a ys ≡ false)
Distinct-split [] ys d = (tt, d, λ a i. cc)
Distinct-split (x ∷ xs) ys (out, d) =
    let (dx, dy, apart) = Distinct-split xs ys d in
    (
      (ground (arith, mem-append x xs ys), dx),
      dy,
      λ a i. ground (arith, apart a, mem-append x xs ys),
    )

pub Distinct-join :
    (xs ys : List Ptr)
    → Distinct xs
    → Distinct ys
    → ((a : Ptr) → mem a xs ≡ true → mem a ys ≡ false)
    → Distinct (xs ++ ys)
Distinct-join [] ys dx dy apart = dy
Distinct-join (x ∷ xs) ys (out, dx) dy apart = (
  ground (arith, mem-append x xs ys, apart x),
  Distinct-join xs ys dx dy (λ a i. apart a (ground arith)),
)

-- No node of a segment is NULL.
pub Links-ne_null :
    (h : Heap) (before : Ptr) (xs : List Ptr) (after : Ptr)
    → Links h before xs after
    → (a : Ptr) → mem a xs ≡ true
    → a ≢ null
Links-ne_null h before [] after ls a i = cc
Links-ne_null h before (x ∷ xs) after (ne, p, n, ls) a i =
    ground (arith, Links-ne_null h x xs after ls a)

-- Writes outside its nodes do not concern a list.
pub IsDlist-frame :
    {h : Heap} (g : Heap) {l : Dlist} {xs : List Ptr} (zs : List Ptr)
    → SameOutside zs h g
    → ((a : Ptr) → mem a xs ≡ true → mem a zs ≡ false)
    → IsDlist h l xs
    → IsDlist g l xs
IsDlist-frame {h} g {xs} zs same apart is = record {
  links =
      Links-frame g h null xs null (λ a i. (ap (λ n. n.prev) (eq a i), ap (λ n. n.next) (eq a i)))
        is.links;
  distinct = is.distinct;
  first = is.first;
  last = is.last;
  size = is.size;
}
  where
    eq : (a : Ptr) → mem a xs ≡ true → g a ≡ h a
    eq a i = same a (Links-ne_null h null xs null is.links a i) (apart a i)
