-- ===== src/Klib/Clist/Add.antt =====
-- lib_listAdd of lib/list.c, and the sequence of the elements.
use phoenix_rtos_kernel.Base.{ℕ, ◌≡◌, sym, ◌≢◌, ◌∙◌, List, [], ◌∷◌, ◌++◌, arith}
use phoenix_rtos_kernel.Klib.Clist.{Links, list_add}
use phoenix_rtos_kernel.Klib.Clist.Ring.{Linked, NotIn, Distinct, IsRing, Distinct-snoc, prev-NotIn}

-- What the code writes, field by field, when the list is not empty.
module _ (s : Links) (q t : ℕ) (tz : t ≢ 0) (qz : q ≢ 0) (tq : t ≢ q) where
  next-add : (y : ℕ) → y ≢ s.prev q → y ≢ t → (list_add s q t).0.next y ≡ s.next y
  unfolding list_add
  next-add y h k = ground arith

  prev-add : (y : ℕ) → y ≢ q → y ≢ t → (list_add s q t).0.prev y ≡ s.prev y
  unfolding list_add
  prev-add y h k = ground arith

  next-add_last : s.prev q ≢ t → (list_add s q t).0.next (s.prev q) ≡ t
  unfolding list_add
  next-add_last h = ground arith

  prev-add_new : (list_add s q t).0.prev t ≡ s.prev q
  unfolding list_add
  prev-add_new = ground arith

  ends-add : ((list_add s q t).0.next t ≡ q) × ((list_add s q t).0.prev q ≡ t)
  unfolding list_add
  ends-add = ground arith

  head-add : (list_add s q t).1 ≡ q
  unfolding list_add
  head-add = ground arith

  -- Appending `t` behind the last element of a chain that ends at `q`.
  Linked-add :
      (p : ℕ) (xs : List ℕ)
      → NotIn p xs
      → Distinct xs
      → NotIn q xs
      → t ≢ p
      → NotIn t xs
      → Linked s p xs q
      → Linked (list_add s q t).0 p (xs ++ (t ∷ [])) q
  Linked-add p [] np d nq tp nt l =
      let last : s.prev q ≡ p = l.1 in ground (arith, next-add_last, prev-add_new, ends-add)
  Linked-add p (x ∷ xs) np d nq tp nt l = (
    next-add p (prev-NotIn s x xs q p l.2 np.0 np.1) (λ e. tp (sym e)) ∙ l.0,
    prev-add x (λ e. nq.0 (sym e)) (λ e. nt.0 (sym e)) ∙ l.1,
    Linked-add x xs d.1 d.2 nq.1 nt.0 nt.1 l.2,
  )

add-empty : (s : Links) (t : ℕ) → t ≢ 0 → IsRing (list_add s 0 t).0 (list_add s 0 t).1 (t ∷ [])
unfolding list_add
add-empty s t h = ground arith

-- `LIST_ADD` of an element that is not NULL and not in the list appends it at the end: the list
-- holds the same elements in the same order, then the new one, and the head stays where it was,
-- unless the list was empty.
pub list_add_lem :
    (s : Links) (head : ℕ) (xs : List ℕ) (t : ℕ)
    → t ≢ 0
    → NotIn t xs
    → IsRing s head xs
    → IsRing (list_add s head t).0 (list_add s head t).1 (xs ++ (t ∷ []))
list_add_lem s head [] t h n r = rw r (add-empty s t h)
list_add_lem s head (x ∷ xs) t h n r = rw r.0 (
  head-add s x t h r.1.0 n.0,
  Distinct-snoc (x ∷ xs) t r.1 n h,
  Linked-add s x t h r.1.0 n.0 x xs r.1.1 r.1.2 r.1.1 n.0 n.1 r.2,
)
