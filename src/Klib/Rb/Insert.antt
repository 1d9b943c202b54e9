-- ===== src/Klib/Rb/Insert.antt =====
-- lib_rbInsert of lib/rb.c on the sequence of the nodes.
use Prim.Native.Nat.{Ordering}
use phoenix_rtos_kernel.Base.{
  ℕ, ◌≡◌, refl, ap, sym, ◌∙◌, ◌⊎◌, inl, inr, List, [], ◌∷◌, ◌++◌, Option, none, some, eok, fails,
  eexist,
}
use mathlib.Core.Path.{subst}
use phoenix_rtos_kernel.Klib.Rb.{
  Color, red, Tree, leaf, node, left, right, Way, top, step, insert_balance, descend, rb_insert,
}
use phoenix_rtos_kernel.Klib.Rb.Order.{in_order, before, after, appends, in_order-plug}
use phoenix_rtos_kernel.Klib.Rb.Sequence.{
  IsOrdered, IsOrdered-left, IsOrdered-right, insert, over, insert-front, insert-behind,
  insert-equal, Ordering-cases,
}
use phoenix_rtos_kernel.Klib.Rb.Rotate.{insert_balance-in_order}
use mathlib.Core.List.{append-nil}
use phoenix_rtos_kernel.Base.{Option-cases}
use phoenix_rtos_kernel.Base.{Result, ◌*◌, ◌+◌}
use phoenix_rtos_kernel.Klib.Rb.{length_of}
use phoenix_rtos_kernel.Klib.Rb.Descend.{descend-lt, descend-eq, descend-gt, descend-leaf}

module _ (cmp : ℕ → Ordering) (z : ℕ) where
  -- The place where the search ends is the one of the insertion into the sequence.
  abbrev Ends : Tree → Way → Option Way → Type 0
  Ends t p none = insert cmp z (in_order t) ≡ none
  Ends t p (some p') =
      (ys : List ℕ) × (insert cmp z (in_order t) ≡ some ys)
      × (before p' ++ z ∷ after p' ≡ before p ++ ys ++ after p)

  Ends-left :
      (c : Color) (l : Tree) (y : ℕ) (r : Tree) (p : Way) (o : Option Way)
      → cmp y ≡ Ordering.gt
      → Ends l (step left c y r p) o
      → Ends (node c l y r) p o
  Ends-left c l y r p none g e = insert-front cmp z (in_order l) y (in_order r) g ∙ ap (over _) e
  Ends-left c l y r p (some p') g e = (
    e.0 ++ y ∷ in_order r,
    insert-front cmp z (in_order l) y (in_order r) g ∙ ap (over _) e.1,
    e.2 ∙ simp appends,
  )

  Ends-right :
      (c : Color) (l : Tree) (y : ℕ) (r : Tree) (p : Way) (o : Option Way)
      → IsOrdered cmp (in_order l ++ y ∷ in_order r)
      → cmp y ≡ Ordering.lt
      → Ends r (step right c y l p) o
      → Ends (node c l y r) p o
  Ends-right c l y r p none s g e =
      insert-behind cmp z (in_order l) y (in_order r) s g ∙ ap (over _) e
  Ends-right c l y r p (some p') s g e = (
    in_order l ++ y ∷ e.0,
    insert-behind cmp z (in_order l) y (in_order r) s g ∙ ap (over _) e.1,
    e.2 ∙ simp appends,
  )

  pub descend-Ends : (t : Tree) (p : Way) → IsOrdered cmp (in_order t) → Ends t p (descend cmp t p)
  descend-Ends leaf p o =
      subst (Ends leaf p) (sym (descend-leaf cmp p)) (z ∷ [], refl, simp appends)
  descend-Ends (node c l y r) p o = elim (Ordering-cases (cmp y)) [
    | inl e ↦ subst (Ends (node c l y r) p) (sym (descend-lt cmp c l y r p e)) (
        Ends-right c l y r p (descend cmp r (step right c y l p)) o e (
          descend-Ends r (step right c y l p)
            (IsOrdered-right cmp z (in_order l) (y ∷ in_order r) o).1))
    | inr (inl e) ↦
        subst (Ends (node c l y r) p) (sym (descend-eq cmp c l y r p e))
          (insert-equal cmp z (in_order l) y (in_order r) o e)
    | inr (inr e) ↦ subst (Ends (node c l y r) p) (sym (descend-gt cmp c l y r p e)) (
        Ends-left c l y r p (descend cmp l (step left c y r p)) e (
          descend-Ends l (step left c y r p)
            (IsOrdered-left cmp z (in_order l) (y ∷ in_order r) o)))
  ]

module _ (cmp : ℕ → Ordering) (t : Tree) (z : ℕ) where
  -- What an insertion has done: nothing for an equal node, or the insertion into the sequence.
  abbrev pub Inserted : Result × Tree → Type 0
  Inserted res =
      ((insert cmp z (in_order t) ≡ none) × (res ≡ (fails eexist, t)))
      ⊎ ((res.0 ≡ eok) × (insert cmp z (in_order t) ≡ some (in_order res.1)))

  pub rb_insert-none : descend cmp t top ≡ none → rb_insert cmp t z ≡ (fails eexist, t)
  unfolding rb_insert
  rb_insert-none e = rw (e, rb_insert) refl

  pub rb_insert-some :
      (p : Way)
      → descend cmp t top ≡ some p
      → rb_insert cmp t z ≡ (eok, insert_balance (2 * length_of p + 2) (node red leaf z leaf) p)
  unfolding rb_insert
  rb_insert-some p e = rw (e, rb_insert) refl

  placed-in_order :
      (fuel : ℕ) (p : Way)
      → in_order (insert_balance fuel (node red leaf z leaf) p) ≡ before p ++ z ∷ after p
  placed-in_order fuel p =
      insert_balance-in_order fuel (node red leaf z leaf) p
      ∙ in_order-plug (node red leaf z leaf) p
      ∙ simp appends

  placed-Inserted :
      (p : Way)
      → Ends cmp z t top (some p)
      → Inserted (eok, insert_balance (2 * length_of p + 2) (node red leaf z leaf) p)
  placed-Inserted p (ys, i, w) =
      inr (refl, i ∙ ap some (sym (placed-in_order (2 * length_of p + 2) p ∙ w ∙ append-nil ys)))

  -- On a tree whose nodes are in the order of the comparison, lib_rbInsert fails with -EEXIST and
  -- leaves the tree as it is when the insertion into the sequence of the nodes meets an equal node, and
  -- else returns EOK with a tree whose sequence is the one with the new node inserted.
  pub rb_insert_lem : IsOrdered cmp (in_order t) → Inserted (rb_insert cmp t z)
  rb_insert_lem o = elim (Option-cases (descend cmp t top)) [
    | inl e ↦ inl (subst (Ends cmp z t top) e (descend-Ends cmp z t top o), rb_insert-none e)
    | inr (p, e) ↦
        subst Inserted (sym (rb_insert-some p e))
          (placed-Inserted p (subst (Ends cmp z t top) e (descend-Ends cmp z t top o)))
  ]
