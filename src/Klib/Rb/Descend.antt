-- ===== src/Klib/Rb/Descend.antt =====
-- The steps of the search of lib_rbInsert in lib/rb.c.
use Prim.Native.Nat.{Ordering}
use phoenix_rtos_kernel.Base.{ℕ, ◌≡◌, refl, none, some}
use phoenix_rtos_kernel.Klib.Rb.{Color, Tree, leaf, node, left, right, Way, step, descend}

module _ (cmp : ℕ → Ordering) where
  pub descend-lt :
      (c : Color) (l : Tree) (y : ℕ) (r : Tree) (p : Way)
      → cmp y ≡ Ordering.lt
      → descend cmp (node c l y r) p ≡ descend cmp r (step right c y l p)
  unfolding descend
  descend-lt c l y r p e = rw (e, descend) refl

  pub descend-eq :
      (c : Color) (l : Tree) (y : ℕ) (r : Tree) (p : Way)
      → cmp y ≡ Ordering.eq
      → descend cmp (node c l y r) p ≡ none
  unfolding descend
  descend-eq c l y r p e = rw (e, descend) refl

  pub descend-gt :
      (c : Color) (l : Tree) (y : ℕ) (r : Tree) (p : Way)
      → cmp y ≡ Ordering.gt
      → descend cmp (node c l y r) p ≡ descend cmp l (step left c y r p)
  unfolding descend
  descend-gt c l y r p e = rw (e, descend) refl

  pub descend-leaf : (p : Way) → descend cmp leaf p ≡ some p
  unfolding descend
  descend-leaf p = refl
