-- ===== src/Klib/Clist/Remove.antt =====
-- lib_listRemove of lib/list.c, and the sequence of the elements.
use phoenix_rtos_kernel.Base.{
  ℕ, ◌≡◌, sym, ◌≢◌, ◌∙◌, List, [], ◌∷◌, ◌++◌, ◌==◌, if◌then◌else◌, arith, ==_refl,
}
use phoenix_rtos_kernel.Klib.Clist.{Links, list_remove}
use phoenix_rtos_kernel.Klib.Clist.Ring.{Linked, NotIn, Distinct, IsRing, prev-NotIn, next-NotIn}

-- The two parts of a chain through `t`.
Linked-prefix :
    (s : Links) (p : ℕ) (xs : List ℕ) (t : ℕ) (zs : List ℕ) (q : ℕ)
    → Linked s p (xs ++ t ∷ zs) q
    → Linked s p xs t
Linked-prefix s p [] t zs q l = (l.0, l.1)
Linked-prefix s p (x ∷ xs) t zs q l = (l.0, l.1, Linked-prefix s x xs t zs q l.2)

Linked-suffix :
    (s : Links) (p : ℕ) (xs : List ℕ) (t : ℕ) (zs : List ℕ) (q : ℕ)
    → Linked s p (xs ++ t ∷ zs) q
    → Linked s t zs q
Linked-suffix s p [] t zs q l = l.2
Linked-suffix s p (x ∷ xs) t zs q l = Linked-suffix s x xs t zs q l.2

NotIn-parts :
    (a : ℕ) (xs : List ℕ) (t : ℕ) (zs : List ℕ)
    → NotIn a (xs ++ t ∷ zs)
    → NotIn a xs × (a ≢ t) × NotIn a zs
NotIn-parts a [] t zs h = (tt, h.0, h.1)
NotIn-parts a (x ∷ xs) t zs h =
    let rest = NotIn-parts a xs t zs h.1 in ((h.0, rest.0), rest.1, rest.2)

NotIn-drop :
    (a : ℕ) (xs : List ℕ) (t : ℕ) (zs : List ℕ) → NotIn a (xs ++ t ∷ zs) → NotIn a (xs ++ zs)
NotIn-drop a [] t zs h = h.1
NotIn-drop a (x ∷ xs) t zs h = (h.0, NotIn-drop a xs t zs h.1)

Distinct-drop : (xs : List ℕ) (t : ℕ) (zs : List ℕ) → Distinct (xs ++ t ∷ zs) → Distinct (xs ++ zs)
Distinct-drop [] t zs d = d.2
Distinct-drop (x ∷ xs) t zs d = (d.0, NotIn-drop x xs t zs d.1, Distinct-drop xs t zs d.2)

-- The element taken out is not NULL, and occurs nowhere else.
Distinct-member :
    (xs : List ℕ) (t : ℕ) (zs : List ℕ)
    → Distinct (xs ++ t ∷ zs)
    → (t ≢ 0) × NotIn t zs × NotIn t xs
Distinct-member [] t zs d = (d.0, d.1, tt)
Distinct-member (x ∷ xs) t zs d =
    let (nz, after, before) = Distinct-member xs t zs d.2 in
    (nz, after, (λ e. (NotIn-parts x xs t zs d.1).1 (sym e), before))

-- What the code writes when `t` is not alone.
module _ (s : Links) (head t : ℕ) (tz : t ≢ 0) (more : s.prev t ≢ t) (more' : s.next t ≢ t) where
  next-remove : (y : ℕ) → y ≢ s.prev t → y ≢ t → (list_remove s head t).0.next y ≡ s.next y
  unfolding list_remove
  next-remove y h k = ground arith

  prev-remove : (y : ℕ) → y ≢ s.next t → y ≢ t → (list_remove s head t).0.prev y ≡ s.prev y
  unfolding list_remove
  prev-remove y h k = ground arith

  next-remove_before : (list_remove s head t).0.next (s.prev t) ≡ s.next t
  unfolding list_remove
  next-remove_before = ground arith

  prev-remove_after : (list_remove s head t).0.prev (s.next t) ≡ s.prev t
  unfolding list_remove
  prev-remove_after = ground arith

  head-remove : (list_remove s head t).1 ≡ (if t == head then s.next t else head)
  unfolding list_remove
  head-remove = ground arith

  -- A chain with neither of the two neighbours' changed fields inside it.
  Linked-after :
      (p : ℕ) (zs : List ℕ) (q : ℕ)
      → p ≢ s.prev t
      → NotIn (s.prev t) zs
      → p ≢ t
      → NotIn t zs
      → q ≢ s.next t
      → NotIn (s.next t) zs
      → q ≢ t
      → Linked s p zs q
      → Linked (list_remove s head t).0 p zs q
  Linked-after p [] q a b c d e f g l = (next-remove p a c ∙ l.0, prev-remove q e g ∙ l.1)
  Linked-after p (z ∷ zs) q a b c d e f g l = (
    next-remove p a c ∙ l.0,
    prev-remove z (λ x. f.0 (sym x)) (λ x. d.0 (sym x)) ∙ l.1,
    Linked-after z zs q (λ x. b.0 (sym x)) b.1 (λ x. d.0 (sym x)) d.1 e f.1 g l.2,
  )

  -- Taking `t` out of the middle of a chain.
  Linked-remove :
      (p : ℕ) (xs : List ℕ) (zs : List ℕ) (q : ℕ)
      → NotIn p (xs ++ t ∷ zs)
      → Distinct (xs ++ t ∷ zs)
      → NotIn q (xs ++ t ∷ zs)
      → Linked s p (xs ++ t ∷ zs) q
      → Linked (list_remove s head t).0 p (xs ++ zs) q
  Linked-remove p [] [] q np d nq l = ground (arith, next-remove_before, prev-remove_after)
  Linked-remove p [] (z ∷ zs) q np d nq l = (
    ground (arith, next-remove_before),
    ground (arith, prev-remove_after),
    Linked-after z zs q (rw l.1 (λ e. np.1.0 (sym e))) (rw l.1 np.1.1) (λ e. d.1.0 (sym e)) d.1.1
        (rw l.2.0 nq.1.0) (rw l.2.0 d.2.1) nq.0 l.2.2,
  )
  Linked-remove p (x ∷ xs) zs q np d nq l =
      let parts = NotIn-parts p (x ∷ xs) t zs np in
      let xparts = NotIn-parts x xs t zs d.1 in
      (
        next-remove p (prev-NotIn s x xs t p (Linked-prefix s x xs t zs q l.2) parts.0.0 parts.0.1)
              parts.1
            ∙ l.0,
        prev-remove x
              (next-NotIn s t zs q x (Linked-suffix s x xs t zs q l.2) (λ e. nq.0 (sym e)) xparts.2)
              xparts.1
            ∙ l.1,
        Linked-remove x xs zs q d.1 d.2 nq.1 l.2,
      )

  -- Taking `t` off the front: the chain behind it closes on its own first element.
  Linked-close :
      (e p : ℕ) (zs : List ℕ)
      → s.next t ≡ e
      → e ≢ t
      → NotIn e zs
      → NotIn p zs
      → Distinct zs
      → p ≢ t
      → NotIn t zs
      → Linked s p zs t
      → Linked (list_remove s head t).0 p zs e
  Linked-close e p [] et en ne np d pt nt l = ground (arith, next-remove_before, prev-remove_after)
  Linked-close e p (z ∷ zs) et en ne np d pt nt l = (
    next-remove p (prev-NotIn s z zs t p l.2 np.0 np.1) pt ∙ l.0,
    prev-remove z (rw et (λ x. ne.0 (sym x))) (λ x. nt.0 (sym x)) ∙ l.1,
    Linked-close e z zs et en ne.1 d.1 d.2 (λ x. nt.0 (sym x)) nt.1 l.2,
  )

-- The fields of the element itself are cleared.
cleared :
    (s : Links) (head t : ℕ)
    → t ≢ 0
    → ((list_remove s head t).0.next t ≡ 0) × ((list_remove s head t).0.prev t ≡ 0)
unfolding list_remove
cleared s head t h = (ground arith, ground arith)

remove-alone : (s : Links) (t : ℕ) → t ≢ 0 → s.next t ≡ t → s.prev t ≡ t → (list_remove s t t).1 ≡ 0
unfolding list_remove
remove-alone s t h n p = ground arith

remove-front :
    (s : Links) (t : ℕ) (zs : List ℕ)
    → Distinct (t ∷ zs)
    → Linked s t zs t
    → IsRing (list_remove s t t).0 (list_remove s t t).1 zs
remove-front s t [] d l = remove-alone s t d.0 l.0 l.1
remove-front s t (z ∷ zs) d l =
    let more : s.prev t ≢ t = λ e. prev-NotIn s z zs t t l.2 d.1.0 d.1.1 (sym e) in
    let more' : s.next t ≢ t = λ e. d.1.0 (sym (sym l.0 ∙ e)) in
    (
      head-remove s t t d.0 more more' ∙ rw ==_refl l.0,
      d.2,
      Linked-close s t t d.0 more more' z z zs l.0 (λ e. d.1.0 (sym e)) d.2.1 d.2.1 d.2.2
          (λ e. d.1.0 (sym e)) d.1.1 l.2,
    )

remove-later :
    (s : Links) (y : ℕ) (ys : List ℕ) (t : ℕ) (zs : List ℕ)
    → Distinct (y ∷ (ys ++ t ∷ zs))
    → Linked s y (ys ++ t ∷ zs) y
    → IsRing (list_remove s y t).0 (list_remove s y t).1 (y ∷ (ys ++ zs))
remove-later s y ys t zs d l =
    let member = Distinct-member ys t zs d.2 in
    let yparts = NotIn-parts y ys t zs d.1 in
    let more : s.prev t ≢ t = λ e.
      prev-NotIn s y ys t t (Linked-prefix s y ys t zs y l) (λ x. yparts.1 (sym x)) member.2
        (sym e) in
    let more' : s.next t ≢ t = λ e.
      next-NotIn s t zs y t (Linked-suffix s y ys t zs y l) (λ x. yparts.1 (sym x)) member.1
        (sym e) in
    (
      head-remove s y t member.0 more more' ∙ ground (arith, yparts.1),
      Distinct-drop (y ∷ ys) t zs d,
      Linked-remove s y t member.0 more more' y ys zs y d.1 d.2 d.1 l,
    )

-- `LIST_REMOVE` of an element of the list leaves a list of the others in the same order, moves the
-- head to the next one if it was the head (to NULL if it was alone), and clears both its fields.
pub list_remove_lem :
    (s : Links) (head : ℕ) (xs : List ℕ) (t : ℕ) (zs : List ℕ)
    → IsRing s head (xs ++ t ∷ zs)
    → IsRing (list_remove s head t).0 (list_remove s head t).1 (xs ++ zs)
      × ((list_remove s head t).0.next t ≡ 0)
      × ((list_remove s head t).0.prev t ≡ 0)
list_remove_lem s head [] t zs r =
    (rw r.0 (remove-front s t zs r.1 r.2), (cleared s head t r.1.0).0, (cleared s head t r.1.0).1)
list_remove_lem s head (x ∷ xs) t zs r =
    let nz = (Distinct-member xs t zs r.1.2).0 in
    (rw r.0 (remove-later s x xs t zs r.1 r.2), (cleared s head t nz).0, (cleared s head t nz).1)
