-- ===== src/Klib/Rb/Remove/Whole.antt =====
-- lib_rbRemove of lib/rb.c on red-black trees.
use mathlib.Core.Path.{subst}
use mathlib.Core.Bool.{false≢true}
use phoenix_rtos_kernel.Base.{ℕ, suc, ◌≡◌, refl, sym, ◌∙◌, false, ◌+◌, arith}
use phoenix_rtos_kernel.Klib.Rb.{
  Color, red, black, Tree, leaf, node, left, right, Way, top, step, plug, is_red, length_of,
  rb_minimum,
}
use phoenix_rtos_kernel.Klib.Rb.Balance.{IsRb, IsBalanced, WayIsRb, Fits}
use phoenix_rtos_kernel.Klib.Rb.Remove.Colors.{IsRb-Lacks, plug-IsBalanced}
use phoenix_rtos_kernel.Klib.Rb.Remove.Balanced.{remove_balance-IsBalanced}
use phoenix_rtos_kernel.Klib.Rb.Remove.{leftmost, unlinked, rb_remove}

-- A subtree and its path in a red-black tree
abbrev Part : Tree → Way → Type 0
Part t p = (n : ℕ) × IsRb n t × WayIsRb n p × Fits t p

not_red-Fits : (t : Tree) (p : Way) → is_red t ≡ false → Fits t p
not_red-Fits t p e h = absurd (false≢true (sym e ∙ h))

left-Part :
    (c : Color) (l : Tree) (x : ℕ) (r : Tree) (p : Way)
    → Part (node c l x r) p
    → Part l (step left c x r p)
left-Part black l x r p (n, (m, e, a, b), k, f) =
    (m, a, (b, subst (λ i. WayIsRb i p) e k), λ _. refl)
left-Part red l x r p (n, (ea, eb, a, b), k, f) =
    (n, a, (b, eb, f refl, k), not_red-Fits l (step left red x r p) ea)

right-Part :
    (c : Color) (l : Tree) (x y : ℕ) (r : Tree) (p : Way)
    → Part (node c l x r) p
    → Part r (step right c y l p)
right-Part black l x y r p (n, (m, e, a, b), k, f) =
    (m, b, (a, subst (λ i. WayIsRb i p) e k), λ _. refl)
right-Part red l x y r p (n, (ea, eb, a, b), k, f) =
    (n, b, (a, ea, f refl, k), not_red-Fits r (step right red y l p) eb)

plug-Part : (t : Tree) (p : Way) → IsBalanced (plug t p) → Part t p
plug-Part t top (e, (n, a)) = (n, a, tt, not_red-Fits t top e)
plug-Part t (step left c x s p) b = left-Part c t x s p (plug-Part (node c t x s) p b)
plug-Part t (step right c x s p) b = right-Part c s x x t p (plug-Part (node c s x t) p b)

-- What is left when a node of the color is gone, whose child `x` takes its place.
abbrev Missing : Color → Tree → Way → Type 0
Missing black x p = (n : ℕ) × IsRb n x × WayIsRb (suc n) p
Missing red x p = (n : ℕ) × IsRb n x × (is_red x ≡ false) × WayIsRb n p

left-Missing :
    (c : Color) (l : Tree) (x : ℕ) (r : Tree) (p : Way) → Part (node c l x r) p → Missing c l p
left-Missing black l x r p (n, (m, e, a, b), k, f) = (m, a, subst (λ i. WayIsRb i p) e k)
left-Missing red l x r p (n, (ea, eb, a, b), k, f) = (n, a, ea, k)

right-Missing :
    (c : Color) (l : Tree) (x : ℕ) (r : Tree) (p : Way) → Part (node c l x r) p → Missing c r p
right-Missing black l x r p (n, (m, e, a, b), k, f) = (m, b, subst (λ i. WayIsRb i p) e k)
right-Missing red l x r p (n, (ea, eb, a, b), k, f) = (n, b, eb, k)

leftmost-Missing :
    (c : Color) (l : Tree) (x : ℕ) (r : Tree) (p : Way)
    → Part (node c l x r) p
    → let (c', t, q) = leftmost c l x r p in Missing c' t q
unfolding leftmost
leftmost-Missing c leaf x r p a = right-Missing c leaf x r p a
leftmost-Missing c (node c' l' x' r') x r p a =
    leftmost-Missing c' l' x' r' (step left c x r p) (left-Part c (node c' l' x' r') x r p a)

unlinked-IsBalanced : (c : Color) (x : Tree) (p : Way) → Missing c x p → IsBalanced (unlinked c x p)
unfolding unlinked
unlinked-IsBalanced black x p (n, a, k) =
    remove_balance-IsBalanced (length_of p + 3) n x p (omega arith) (IsRb-Lacks n x a) k
unlinked-IsBalanced red x p (n, a, e, k) = plug-IsBalanced n x p a k (not_red-Fits x p e)

-- lib_rbRemove of any node of a red-black tree leaves a red-black tree.
pub rb_remove-IsBalanced :
    (c : Color) (l : Tree) (z : ℕ) (r : Tree) (p : Way)
    → IsBalanced (plug (node c l z r) p)
    → IsBalanced (rb_remove c l r p)
unfolding rb_remove
rb_remove-IsBalanced c leaf z r p b =
    unlinked-IsBalanced c r p (right-Missing c leaf z r p (plug-Part (node c leaf z r) p b))
rb_remove-IsBalanced c (node cl l' x' r') z leaf p b =
    unlinked-IsBalanced c (node cl l' x' r') p (
      left-Missing c (node cl l' x' r') z leaf p (plug-Part (node c (node cl l' x' r') z leaf) p b))
rb_remove-IsBalanced c (node cl l' x' r') z (node cr a x r) p b =
    let y = rb_minimum (node cr a x r) in
    let (cy, t, q) = leftmost cr a x r (step right c y (node cl l' x' r') p) in
    unlinked-IsBalanced cy t q (
      leftmost-Missing cr a x r (step right c y (node cl l' x' r') p) (
        right-Part c (node cl l' x' r') z y (node cr a x r) p
          (plug-Part (node c (node cl l' x' r') z (node cr a x r)) p b)))
