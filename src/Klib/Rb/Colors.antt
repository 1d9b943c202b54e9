-- ===== src/Klib/Rb/Colors.antt =====
-- lib_rbInsert of lib/rb.c on red-black trees.
use Prim.Native.Nat.{Ordering}
use mathlib.Core.Path.{subst}
use mathlib.Core.Bool.{false≢true}
use phoenix_rtos_kernel.Base.{
  ℕ, ◌≡◌, refl, sym, ◌∙◌, inl, inr, false, arith, Option, none, some, Option-cases, ◌*◌, ◌+◌,
}
use phoenix_rtos_kernel.Klib.Rb.{
  red, black, Tree, leaf, node, Side, left, right, Way, top, step, descend, rb_insert, is_red,
  length_of,
}
use phoenix_rtos_kernel.Klib.Rb.Balance.{IsRb, IsBalanced, WayIsRb, Fits}
use phoenix_rtos_kernel.Klib.Rb.Rounds.{insert_balance-IsBalanced}
use phoenix_rtos_kernel.Klib.Rb.Insert.{rb_insert-none, rb_insert-some}
use phoenix_rtos_kernel.Klib.Rb.Descend.{descend-lt, descend-eq, descend-gt, descend-leaf}
use phoenix_rtos_kernel.Klib.Rb.Sequence.{Ordering-cases}

-- A path that the search may end with
abbrev EndsRb : Option Way → Type 0
EndsRb none = Unit
EndsRb (some p) = WayIsRb 0 p

child-Fits :
    (t : Tree) (d : Side) (x : ℕ) (s : Tree) (p : Way)
    → is_red t ≡ false
    → Fits t (step d red x s p)
child-Fits t d x s p e h = absurd (false≢true (sym e ∙ h))

descend-EndsRb :
    (cmp : ℕ → Ordering) (n : ℕ) (t : Tree) (p : Way)
    → IsRb n t
    → WayIsRb n p
    → Fits t p
    → EndsRb (descend cmp t p)
descend-EndsRb cmp n leaf p a k f =
    subst EndsRb (sym (descend-leaf cmp p)) (subst (λ m. WayIsRb m p) a k)
descend-EndsRb cmp n (node red l y r) p (el, er, rl, rr) k f = elim (Ordering-cases (cmp y)) [
  | inl e ↦ subst EndsRb (sym (descend-lt cmp red l y r p e)) (
      descend-EndsRb cmp n r (step right red y l p) rr (rl, el, f refl, k)
        (child-Fits r right y l p er))
  | inr (inl e) ↦ subst EndsRb (sym (descend-eq cmp red l y r p e)) tt
  | inr (inr e) ↦ subst EndsRb (sym (descend-gt cmp red l y r p e)) (
      descend-EndsRb cmp n l (step left red y r p) rl (rr, er, f refl, k)
        (child-Fits l left y r p el))
]
descend-EndsRb cmp n (node black l y r) p (m, w, rl, rr) k f = elim (Ordering-cases (cmp y)) [
  | inl e ↦ subst EndsRb (sym (descend-lt cmp black l y r p e)) (
      descend-EndsRb cmp m r (step right black y l p) rr (rl, subst (λ m. WayIsRb m p) w k)
        (λ _. refl))
  | inr (inl e) ↦ subst EndsRb (sym (descend-eq cmp black l y r p e)) tt
  | inr (inr e) ↦ subst EndsRb (sym (descend-gt cmp black l y r p e)) (
      descend-EndsRb cmp m l (step left black y r p) rl (rr, subst (λ m. WayIsRb m p) w k)
        (λ _. refl))
]

-- lib_rbInsert turns a red-black tree, that is one with a black root, no red child of a red node and
-- as many black nodes on every way down, into a red-black tree, whether or not the node is put in.
pub rb_insert-IsBalanced :
    (cmp : ℕ → Ordering) (t : Tree) (z : ℕ) → IsBalanced t → IsBalanced (rb_insert cmp t z).1
rb_insert-IsBalanced cmp t z b = elim (Option-cases (descend cmp t top)) [
  | inl e ↦ subst (λ r. IsBalanced r.1) (sym (rb_insert-none cmp t z e)) b
  | inr (p, e) ↦
      subst (λ r. IsBalanced r.1) (sym (rb_insert-some cmp t z p e))
        (insert_balance-IsBalanced (2 * length_of p + 2) 0 (node red leaf z leaf) p (omega arith)
          refl (refl, refl, refl, refl)
          (subst EndsRb e
            (descend-EndsRb cmp b.1.0 t top b.1.1 tt (λ h. absurd (false≢true (sym b.0 ∙ h))))))
]
