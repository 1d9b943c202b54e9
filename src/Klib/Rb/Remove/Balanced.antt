-- ===== src/Klib/Rb/Remove/Balanced.antt =====
-- lib_rbRemoveBalance of lib/rb.c restores a red-black tree.
use mathlib.Core.Path.{subst}
use mathlib.Core.Bool.{false≢true}
use phoenix_rtos_kernel.Base.{
  ℕ, zero, suc, ◌≡◌, refl, ap, sym, ◌∙◌, inl, inr, true, false, ◌+◌, Bool-cases, arith, ◌≤◌,
}
use phoenix_rtos_kernel.Klib.Rb.{
  Color, red, black, Tree, leaf, node, Side, Way, top, step, join, child, other, paint, is_red,
  length_of,
}
use phoenix_rtos_kernel.Klib.Rb.Balance.{
  IsRb, IsBalanced, WayIsRb, join_black-IsRb, is_red-join, is_red-paint,
}
use phoenix_rtos_kernel.Klib.Rb.Rounds.{child-IsRb}
use phoenix_rtos_kernel.Klib.Rb.Remove.Colors.{
  Lacks, Lacks-black, Lacks-red, Lacks-join, IsRb-Lacks, Above, plug-IsBalanced,
}
use phoenix_rtos_kernel.Klib.Rb.Remove.Rounds.{
  go_on, red_exit, sibling_round, black_sibling-IsBalanced,
}
use phoenix_rtos_kernel.Klib.Rb.Remove.{black_sibling, sibling, remove_balance}

root-IsBalanced : (n : ℕ) (x : Tree) → Lacks n x → IsBalanced (paint black x)
root-IsBalanced n leaf a = (refl, (n, a))
root-IsBalanced n (node red l y r) (a, b) = (refl, (suc n, (n, refl, a, b)))
root-IsBalanced n (node black l y r) a = (refl, (n, a))

-- The loop ends at a red node.
red-IsBalanced :
    (fuel n : ℕ) (x : Tree) (p : Way)
    → is_red x ≡ true
    → Lacks n x
    → WayIsRb (suc n) p
    → IsBalanced (remove_balance (suc fuel) x p)
unfolding remove_balance
red-IsBalanced fuel n x top e a k = root-IsBalanced n x a
red-IsBalanced fuel n x (step d c y w q) e a k =
    subst IsBalanced (sym (red_exit fuel x d c y w q e)) (
      plug-IsBalanced (suc n) (paint black x) (step d c y w q) (Lacks-red n x e a) k
        (λ h. absurd (false≢true (sym (is_red-paint x) ∙ h))))

not_red_sibling :
    (x : Tree) (d : Side) (c : Color) (y : ℕ) (w : Tree) (q : Way)
    → is_red w ≡ false
    → sibling x d c y w q ≡ black_sibling x d c y w q
unfolding sibling
not_red_sibling x d c y leaf q e = refl
not_red_sibling x d c y (node red a w b) q e = absurd (false≢true (sym e))
not_red_sibling x d c y (node black a w b) q e = refl

red_sibling :
    (x : Tree) (d : Side) (c : Color) (y : ℕ) (a : Tree) (w : ℕ) (b : Tree) (q : Way)
    → let s = node red a w b in
      sibling x d c y s q
      ≡ black_sibling x d red y (child d s) (step d black w (child (other d) s) q)
unfolding sibling
red_sibling x d c y a w b q = refl

any_sibling-IsBalanced :
    (fuel n : ℕ) (x : Tree) (d : Side) (c : Color) (y : ℕ) (w : Tree) (q : Way)
    → is_red x ≡ false
    → IsRb n x
    → is_red w ≡ false
    → IsRb (suc n) w
    → Above (suc n) c q
    → ((s : Tree) → IsRb n s → IsBalanced (remove_balance (suc (suc fuel)) (join d c x y s) q))
    → IsBalanced (go_on (suc (suc fuel)) (black_sibling x d c y w q))
any_sibling-IsBalanced fuel n x d c y leaf q bx rx e rw k next = absurd (omega (arith, rw))
any_sibling-IsBalanced fuel n x d c y (node red a w b) q bx rx e rw k next =
    absurd (false≢true (sym e))
any_sibling-IsBalanced fuel n x d c y (node black a w b) q bx rx e rw k next =
    black_sibling-IsBalanced fuel n x d c y a w b q bx rx rw k (next (node red a w b))

module _ (fuel n : ℕ) (x : Tree) (d : Side) (y : ℕ) (q : Way) (bx : is_red x ≡ false)
    (rx : IsRb n x) where
  sibling-IsBalanced :
      (c : Color) (w : Tree)
      → is_red w ≡ false
      → IsRb (suc n) w
      → Above (suc n) c q
      → ((s : Tree) → IsRb n s → IsBalanced (remove_balance (suc (suc fuel)) (join d c x y s) q))
      → IsBalanced (remove_balance (suc (suc (suc fuel))) x (step d c y w q))
  sibling-IsBalanced c w e rw k next =
      subst IsBalanced
        (sym (
          sibling_round (suc (suc fuel)) x d c y w q bx
          ∙ ap (go_on (suc (suc fuel))) (not_red_sibling x d c y w q e)))
        (any_sibling-IsBalanced fuel n x d c y w q bx rx e rw k next)

  red_parent-next :
      (s : Tree) (p : Way)
      → WayIsRb (suc n) p
      → IsRb n s
      → IsBalanced (remove_balance (suc (suc fuel)) (join d red x y s) p)
  red_parent-next s p k rs =
      red-IsBalanced (suc fuel) n (join d red x y s) p (is_red-join d red x y s)
        (Lacks-join n d x y s rx rs) k

  red_sibling-IsBalanced :
      (a : Tree) (w : ℕ) (b : Tree)
      → IsRb (suc n) (node red a w b)
      → WayIsRb (suc (suc n)) q
      → IsBalanced (remove_balance (suc (suc (suc fuel))) x (step d black y (node red a w b) q))
  red_sibling-IsBalanced a w b rw k =
      let s = node red a w b in
      let (near, e) = child-IsRb (suc n) d a w b rw in
      let (far, f) = child-IsRb (suc n) (other d) a w b rw in
      let p = step d black w (child (other d) s) q in
      subst IsBalanced
        (sym (
          sibling_round (suc (suc fuel)) x d black y s q bx
          ∙ ap (go_on (suc (suc fuel))) (red_sibling x d black y a w b q)))
        (any_sibling-IsBalanced fuel n x d red y (child d s) p bx rx e near (refl, (far, k))
          (λ s' rs. red_parent-next s' p (far, k) rs))

  -- A round below any parent; only a black one leads to another round that is not the last.
  round-IsBalanced :
      (c : Color) (w : Tree)
      → WayIsRb (suc n) (step d c y w q)
      → ((s : Tree)
          → IsRb n s
          → WayIsRb (suc (suc n)) q
          → IsBalanced (remove_balance (suc (suc fuel)) (join d black x y s) q))
      → IsBalanced (remove_balance (suc (suc (suc fuel))) x (step d c y w q))
  round-IsBalanced red w (rw, e, kb, kp) next =
      sibling-IsBalanced red w e rw (kb, kp) (λ s rs. red_parent-next s q kp rs)
  round-IsBalanced black leaf (rw, kq) next =
      sibling-IsBalanced black leaf refl rw kq (λ s rs. next s rs kq)
  round-IsBalanced black (node red a w b) (rw, kq) next = red_sibling-IsBalanced a w b rw kq
  round-IsBalanced black (node black a w b) (rw, kq) next =
      sibling-IsBalanced black (node black a w b) refl rw kq (λ s rs. next s rs kq)

-- Where a black node is missing above `x`, enough rounds make a red-black tree.
pub remove_balance-IsBalanced :
    (fuel n : ℕ) (x : Tree) (p : Way)
    → length_of p + 3 ≤ fuel
    → Lacks n x
    → WayIsRb (suc n) p
    → IsBalanced (remove_balance fuel x p)
unfolding remove_balance
remove_balance-IsBalanced zero n x p f a k = absurd (omega arith)
remove_balance-IsBalanced (suc fuel) n x top f a k = root-IsBalanced n x a
remove_balance-IsBalanced (suc zero) n x (step d c y w q) f a k = absurd (omega arith)
remove_balance-IsBalanced (suc (suc zero)) n x (step d c y w q) f a k = absurd (omega arith)
remove_balance-IsBalanced (suc (suc (suc fuel))) n x (step d c y w q) f a k =
    elim (Bool-cases (is_red x)) [
      | inl e ↦ red-IsBalanced (suc (suc fuel)) n x (step d c y w q) e a k
      | inr e ↦
          let rx = Lacks-black n x e a in
          round-IsBalanced fuel n x d y q e rx c w k (λ s rs kq.
            remove_balance-IsBalanced (suc (suc fuel)) (suc n) (join d black x y s) q (omega arith)
              (IsRb-Lacks (suc n) (join d black x y s) (join_black-IsRb n d x y s rx rs)) kq)
    ]
