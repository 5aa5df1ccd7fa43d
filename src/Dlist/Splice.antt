-- ===== src/Dlist/Splice.antt =====
-- One node more, or one less, between two parts of a list: what each operation of dlist.c writes.
use operating_system_cortex.Base.{
  suc, ◌≡◌, ◌≢◌, refl, sym, ap, ◌∙◌, true, false, List, [], ◌∷◌, ◌++◌, arith, ◌==◌, ne→==_false,
  if◌then◌else◌, length, length-append, head_or, last_or, mem, mem-append, last_or-append,
  head_or-append, Distinct,
}
use operating_system_cortex.Dlist.{Ptr, null, Node, Dlist, Heap}
use operating_system_cortex.Dlist.Links.{
  Links, IsDlist, SameOutside, SameObjs, IsFree, Links-set_next, Links-set_prev, Links-split,
  Links-join, Distinct-split, Links-ne_null, ne-last, ne-head, ne_of_mem,
}

-- The list now holds `ys`; only nodes of `ys` were written, and no object reference changed.
abbrev pub Holds : Heap → List Ptr → Dlist → Heap → Type 0
Holds h ys l g = IsDlist g l ys × SameOutside ys h g × SameObjs h g

-- The list holds `xs` and `ys`, and `node`, which stood between them, is free. Only these nodes
-- were written, and no object reference changed.
abbrev pub Without : Heap → List Ptr → Ptr → List Ptr → Dlist → Heap → Type 0
Without h xs node ys l g =
    IsDlist g l (xs ++ ys) × SameOutside (xs ++ node ∷ ys) h g × SameObjs h g × IsFree g node

pub Node_ext : (m n : Node) → m.prev ≡ n.prev → m.next ≡ n.next → m.obj ≡ n.obj → m ≡ n
Node_ext m n p q r i = record { prev = p i; next = q i; obj = r i }

module _ (h g : Heap) (xs : List Ptr) (node : Ptr) (ys : List Ptr) where
  -- `node` stands between the nodes of `xs` and of `ys`.
  pub record Inserted : Type 0 where
    pub node_prev : (g node).prev ≡ last_or null xs
    pub node_next : (g node).next ≡ head_or ys null
    pub next :
        (a : Ptr)
        → a ≢ null
        → a ≢ node
        → (g a).next ≡ (if a == last_or null xs then node else (h a).next)
    pub prev :
        (a : Ptr)
        → a ≢ null
        → a ≢ node
        → (g a).prev ≡ (if a == head_or ys null then node else (h a).prev)
    pub obj : (a : Ptr) → (g a).obj ≡ (h a).obj

  -- The neighbours of `node` are joined, and `node` is free.
  pub record Removed : Type 0 where
    pub node_prev : (g node).prev ≡ null
    pub node_next : (g node).next ≡ null
    pub next :
        (a : Ptr)
        → a ≢ null
        → a ≢ node
        → (g a).next ≡ (if a == last_or null xs then head_or ys null else (h a).next)
    pub prev :
        (a : Ptr)
        → a ≢ null
        → a ≢ node
        → (g a).prev ≡ (if a == head_or ys null then last_or null xs else (h a).prev)
    pub obj : (a : Ptr) → (g a).obj ≡ (h a).obj

pub Distinct-insert :
    (xs : List Ptr) (node : Ptr) (ys : List Ptr)
    → Distinct (xs ++ ys)
    → mem node (xs ++ ys) ≡ false
    → Distinct (xs ++ node ∷ ys)
Distinct-insert [] node ys d o = (o, d)
Distinct-insert (x ∷ xs) node ys (out, d) o = (
  ground (arith, mem-append x xs ys, mem-append x xs (node ∷ ys)),
  Distinct-insert xs node ys d (ground arith),
)

pub Distinct-remove :
    (xs : List Ptr) (node : Ptr) (ys : List Ptr)
    → Distinct (xs ++ node ∷ ys)
    → Distinct (xs ++ ys) × (mem node (xs ++ ys) ≡ false)
Distinct-remove [] node ys (o, d) = (d, o)
Distinct-remove (x ∷ xs) node ys (out, d) =
    let (d', o) = Distinct-remove xs node ys d in
    (
      (ground (arith, mem-append x xs ys, mem-append x xs (node ∷ ys)), d'),
      ground (arith, mem-append x xs (node ∷ ys)),
    )

length-insert :
    (xs : List Ptr) (node : Ptr) (ys : List Ptr)
    → length (xs ++ node ∷ ys) ≡ suc (length (xs ++ ys))
length-insert xs node ys = omega (arith, length-append xs (node ∷ ys), length-append xs ys)

same_outside :
    (g h : Heap) (xs ys : List Ptr) (p q a : Ptr)
    → a ≢ null
    → mem a xs ≡ false
    → mem a ys ≡ false
    → (g a).next ≡ (if a == last_or null xs then p else (h a).next)
    → (g a).prev ≡ (if a == head_or ys null then q else (h a).prev)
    → (g a).obj ≡ (h a).obj
    → g a ≡ h a
same_outside g h xs ys p q a na ox oy nx pv ob =
    Node_ext (g a) (h a) (pv ∙ rw (ne→==_false a (head_or ys null) (ne-head a ys na oy)) refl)
      (nx ∙ rw (ne→==_false a (last_or null xs) (ne-last a xs na ox)) refl) ob

-- Neither part of a list has an end that the other part holds.
module _ (h : Heap) (xs ys : List Ptr)
    (apart : (a : Ptr) → mem a xs ≡ true → mem a ys ≡ false) where
  front_ne : (a : Ptr) → a ≢ null → mem a xs ≡ true → (a == head_or ys null) ≡ false
  front_ne a na i = ne→==_false a (head_or ys null) (ne-head a ys na (apart a i))

  back_ne : (a : Ptr) → a ≢ null → mem a ys ≡ true → (a == last_or null xs) ≡ false
  back_ne a na i = ne→==_false a (last_or null xs) (ne-last a xs na (ground (arith, apart a)))

module _ {h g : Heap} {l : Dlist} (l' : Dlist) (xs : List Ptr) (node : Ptr) (ys : List Ptr) where
  pub Inserted-Holds :
      IsDlist h l (xs ++ ys)
      → node ≢ null
      → mem node (xs ++ ys) ≡ false
      → Inserted h g xs node ys
      → l'.first ≡ head_or xs node
      → l'.last ≡ last_or node ys
      → l'.size ≡ suc l.size
      → Holds h (xs ++ node ∷ ys) l' g
  Inserted-Holds is ne new w f la sz = (
    record {
      links =
          Links-join g null xs (node ∷ ys) null
            (Links-set_next g h null xs (head_or ys null) node dx front
              (λ a i.
                w.prev a (nn a (in_l a i)) (nd a (in_l a i))
                ∙ rw (front_ne h xs ys apart a (nn a (in_l a i)) i) refl)
              (λ a i. w.next a (nn a (in_l a i)) (nd a (in_l a i))))
            (
              ne,
              w.node_prev,
              w.node_next,
              Links-set_prev g h (last_or null xs) node ys null dy back
                  (λ a i.
                    w.next a (nn a (in_r a i)) (nd a (in_r a i))
                    ∙ rw (back_ne h xs ys apart a (nn a (in_r a i)) i) refl)
                  (λ a i. w.prev a (nn a (in_r a i)) (nd a (in_r a i))),
            );
      distinct = Distinct-insert xs node ys is.distinct new;
      first = f ∙ sym (head_or-append xs (node ∷ ys) null);
      last = la ∙ sym (last_or-append null xs (node ∷ ys));
      size = sz ∙ ap suc is.size ∙ sym (length-insert xs node ys);
    },
    (λ a na o.
        let e = o_split a o in
        same_outside g h xs ys node node a na e.1 e.2 (w.next a na e.0) (w.prev a na e.0)
          (w.obj a)),
    w.obj,
  )
    where
      front : Links h null xs (head_or ys null)
      front = (Links-split h null xs ys null is.links).0

      back : Links h (last_or null xs) ys null
      back = (Links-split h null xs ys null is.links).1

      dx : Distinct xs
      dx = (Distinct-split xs ys is.distinct).0

      dy : Distinct ys
      dy = (Distinct-split xs ys is.distinct).1

      apart : (a : Ptr) → mem a xs ≡ true → mem a ys ≡ false
      apart = (Distinct-split xs ys is.distinct).2

      o_split :
          (a : Ptr)
          → mem a (xs ++ node ∷ ys) ≡ false
          → (a ≢ node) × (mem a xs ≡ false) × (mem a ys ≡ false)
      o_split a o = ground (arith, mem-append a xs (node ∷ ys))

      in_l : (a : Ptr) → mem a xs ≡ true → mem a (xs ++ ys) ≡ true
      in_l a i = ground (arith, mem-append a xs ys)

      in_r : (a : Ptr) → mem a ys ≡ true → mem a (xs ++ ys) ≡ true
      in_r a i = ground (arith, mem-append a xs ys)

      nn : (a : Ptr) → mem a (xs ++ ys) ≡ true → a ≢ null
      nn a i = Links-ne_null h null (xs ++ ys) null is.links a i

      nd : (a : Ptr) → mem a (xs ++ ys) ≡ true → a ≢ node
      nd a i = ne_of_mem a node (xs ++ ys) i new

  pub Removed-Holds :
      IsDlist h l (xs ++ node ∷ ys)
      → Removed h g xs node ys
      → l'.first ≡ head_or xs (head_or ys null)
      → l'.last ≡ last_or (last_or null xs) ys
      → suc l'.size ≡ l.size
      → Without h xs node ys l' g
  Removed-Holds is w f la sz = (
    record {
      links =
          Links-join g null xs ys null
            (Links-set_next g h null xs node (head_or ys null) dx front
              (λ a i.
                w.prev a (nn a (in_l a i)) (nl a i)
                ∙ rw (front_ne h xs ys apart a (nn a (in_l a i)) i) refl)
              (λ a i. w.next a (nn a (in_l a i)) (nl a i)))
            (Links-set_prev g h node (last_or null xs) ys null dy back
              (λ a i.
                w.next a (nn a (in_r a i)) (nr a i)
                ∙ rw (back_ne h xs ys apart a (nn a (in_r a i)) i) refl)
              (λ a i. w.prev a (nn a (in_r a i)) (nr a i)));
      distinct = (Distinct-remove xs node ys is.distinct).0;
      first = f ∙ sym (head_or-append xs ys null);
      last = la ∙ sym (last_or-append null xs ys);
      size = omega (arith, sz, is.size, length-insert xs node ys);
    },
    (λ a na o.
        let e = o_split a o in
        same_outside g h xs ys (head_or ys null) (last_or null xs) a na e.1 e.2 (w.next a na e.0)
          (w.prev a na e.0) (w.obj a)),
    w.obj,
    record { ne_null = (halves.1).0; prev = w.node_prev; next = w.node_next },
  )
    where
      halves : Links h null xs node × Links h (last_or null xs) (node ∷ ys) null
      halves = Links-split h null xs (node ∷ ys) null is.links

      front : Links h null xs node
      front = halves.0

      back : Links h node ys null
      back = (halves.1).3

      ds : Distinct xs × Distinct ys × ((a : Ptr) → mem a xs ≡ true → mem a ys ≡ false)
      ds = Distinct-split xs ys (Distinct-remove xs node ys is.distinct).0

      dx : Distinct xs
      dx = ds.0

      dy : Distinct ys
      dy = ds.1

      apart : (a : Ptr) → mem a xs ≡ true → mem a ys ≡ false
      apart = ds.2

      new : mem node (xs ++ ys) ≡ false
      new = (Distinct-remove xs node ys is.distinct).1

      o_split :
          (a : Ptr)
          → mem a (xs ++ node ∷ ys) ≡ false
          → (a ≢ node) × (mem a xs ≡ false) × (mem a ys ≡ false)
      o_split a o = ground (arith, mem-append a xs (node ∷ ys))

      in_l : (a : Ptr) → mem a xs ≡ true → mem a (xs ++ node ∷ ys) ≡ true
      in_l a i = ground (arith, mem-append a xs (node ∷ ys))

      in_r : (a : Ptr) → mem a ys ≡ true → mem a (xs ++ node ∷ ys) ≡ true
      in_r a i = ground (arith, mem-append a xs (node ∷ ys))

      nn : (a : Ptr) → mem a (xs ++ node ∷ ys) ≡ true → a ≢ null
      nn a i = Links-ne_null h null (xs ++ node ∷ ys) null is.links a i

      nl : (a : Ptr) → mem a xs ≡ true → a ≢ node
      nl a i = ne_of_mem a node (xs ++ ys) (ground (arith, mem-append a xs ys)) new

      nr : (a : Ptr) → mem a ys ≡ true → a ≢ node
      nr a i = ne_of_mem a node (xs ++ ys) (ground (arith, mem-append a xs ys)) new
