-- ===== src/Usbhc/Queue.antt =====
-- The order of the URBs of a pipe.
use operating_system_cortex.Base.{
  ℕ, zero, suc, ◌≡◌, refl, ◌∙◌, ap, Bool, true, false, false≢true, ◌==◌, ==_self, if◌then◌else◌,
  List, [], ◌∷◌, ◌++◌, Option, none, some, Run, ok, bind, continue, Bool-cases, inl, inr, ◌>>◌,
  get_elem?, set, test_bit,
}
use operating_system_cortex.Dlist.{Ptr}
use operating_system_cortex.Usb.Requests.{UrbStatus}
use operating_system_cortex.Usbhc.{
  idle, UsbPipe, UrbBlock, Registers, Usbhc, Callbacks, pointed, load_pipe, store_pipe, load_urb,
  store_urb,
}
use operating_system_cortex.Usbhc.Transfers.{
  is_state, remove_urb, start_first, start_next, set_urb_status, usbhc_end_urb, start_if_empty,
  usbhc_submit_urb,
}

abbrev is_pipe : Option UsbPipe → Bool
is_pipe none = false
is_pipe (some p) = true

get_elem?-set :
    (ps : List UsbPipe) (n : ℕ) (p q : UsbPipe)
    → get_elem? ps n ≡ some p
    → get_elem? (set ps n q) n ≡ some q
get_elem?-set [] n p q h = absurd (false≢true (ap is_pipe h))
get_elem?-set (x ∷ ps) zero p q h = refl
get_elem?-set (x ∷ ps) (suc n) p q h = get_elem?-set ps n p q h

set_twice : (ps : List UsbPipe) (n : ℕ) (p q : UsbPipe) → set (set ps n p) n q ≡ set ps n q
set_twice [] n p q = refl
set_twice (x ∷ ps) zero p q = refl
set_twice (x ∷ ps) (suc n) p q = ap (λ qs. x ∷ qs) (set_twice ps n p q)

remove_urb-first : (u : Ptr) (us : List Ptr) → remove_urb u (u ∷ us) ≡ us
unfolding remove_urb
remove_urb-first u us = rw (==_self u) refl

-- The state after an URB has ended, the queue being `us`.
abbrev pub ended :
    {H : Type 0} → (n : ℕ) → UsbPipe → (u : Ptr) → UrbStatus → (us : List Ptr) → Usbhc H → Usbhc H
ended n p u result us s = record s {
  pipes = set s.pipes n (record p { state = idle; urb_list = us });
  urb_at = λ a. if a == u then record (s.urb_at u) { status = result } else s.urb_at a;
}

module _ {H : Type 0} (registers : Registers H) (callbacks : Callbacks H) where
  -- What follows the callback: the next URB is started only if the callback left the pipe idle.
  abbrev pub goes_on : (n : ℕ) → UsbPipe → Usbhc H → Run (Unit {0} × Usbhc H)
  goes_on n q t =
      if is_state q.state idle then start_first registers callbacks q.urb_list n t else ok (tt, t)

  start_next-goes_on :
      (n : ℕ) (q : UsbPipe) (t : Usbhc H)
      → get_elem? t.pipes n ≡ some q
      → start_next registers callbacks n t ≡ goes_on n q t
  unfolding start_next load_pipe pointed
  start_next-goes_on n q t h = elim (Bool-cases (is_state q.state idle)) [
    | inl e ↦ rw (h, e) refl
    | inr e ↦ rw (h, e) refl
  ]

  usbhc_end_urb-first :
      (n : ℕ) (p q : UsbPipe) (u : Ptr) (us : List Ptr) (result : UrbStatus) (s t : Usbhc H)
      → get_elem? s.pipes n ≡ some p
      → p.urb_list ≡ u ∷ us
      → test_bit (UrbBlock.flags (s.urb_at u)) 3 ≡ false
      → callbacks.urb_done u (ended n p u result us s) ≡ ok (tt, t)
      → get_elem? t.pipes n ≡ some q
      → usbhc_end_urb registers callbacks u n result s ≡ goes_on n q t
  unfolding usbhc_end_urb load_pipe pointed store_pipe load_urb store_urb set_urb_status
  usbhc_end_urb-first n p q u us result s t h e f done at =
      rw (f, h, e, remove_urb-first u us, done) (start_next-goes_on n q t at)

  usbhc_submit_urb-waits :
      (n : ℕ) (p : UsbPipe) (u v : Ptr) (us : List Ptr) (s : Usbhc H)
      → get_elem? s.pipes n ≡ some p
      → p.urb_list ≡ u ∷ us
      → usbhc_submit_urb registers callbacks v n s
        ≡ ok (tt, record s { pipes = set s.pipes n (record p { urb_list = u ∷ (us ++ (v ∷ [])) }) })
  unfolding usbhc_submit_urb load_pipe pointed store_pipe start_if_empty
  usbhc_submit_urb-waits n p u v us s h e = rw (h, e) refl

  -- An URB that is submitted while another one is first in the queue of its pipe waits behind the
  -- others. When the first one ends, it leaves the queue with its result, the pipe is idle, and
  -- its callback runs in that state, the other URBs standing in the order of submission. Whatever
  -- the callback does, the first URB of the pipe's queue is started if the callback leaves the
  -- pipe idle, and else nothing more happens. The first URB is not one of an interrupt pipe, the
  -- callback returns, and the pipe is one of the array before and after it.
  pub usbhc_submit_urb-usbhc_end_urb :
      (n : ℕ) (p q : UsbPipe) (u v : Ptr) (us : List Ptr) (result : UrbStatus) (s t : Usbhc H)
      → get_elem? s.pipes n ≡ some p
      → p.urb_list ≡ u ∷ us
      → test_bit (UrbBlock.flags (s.urb_at u)) 3 ≡ false
      → callbacks.urb_done u (ended n p u result (us ++ (v ∷ [])) s) ≡ ok (tt, t)
      → get_elem? t.pipes n ≡ some q
      → (usbhc_submit_urb registers callbacks v n >> usbhc_end_urb registers callbacks u n result) s
        ≡ (if is_state q.state idle
            then start_first registers callbacks q.urb_list n t
            else ok (tt, t))
  usbhc_submit_urb-usbhc_end_urb n p q u v us result s t h e f done at =
      let p' = record p { urb_list = u ∷ (us ++ (v ∷ [])) } in
      let s' = record s { pipes = set s.pipes n p' } in
      ap (λ r. bind r (continue (λ _. usbhc_end_urb registers callbacks u n result)))
        (usbhc_submit_urb-waits n p u v us s h e)
      ∙ usbhc_end_urb-first n p' q u (us ++ (v ∷ [])) result s' t (get_elem?-set s.pipes n p p' h)
          refl f
          (ap
              (λ ps.
                callbacks.urb_done u
                  (record (ended n p u result (us ++ (v ∷ [])) s) { pipes = ps }))
              (set_twice s.pipes n p' (record p { state = idle; urb_list = us ++ (v ∷ []) }))
            ∙ done)
          at
