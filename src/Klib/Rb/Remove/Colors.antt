-- ===== src/Klib/Rb/Remove/Colors.antt =====
-- A round of lib_rbRemoveBalance of lib/rb.c on red-black trees.
use mathlib.Core.Path.{subst}
use native.Mathlib.Nat.{suc_inj}
use mathlib.Core.Bool.{false≢true}
use phoenix_rtos_kernel.Base.{ℕ, suc, ◌≡◌, refl, sym, ◌∙◌, inl, inr, true, false, Bool-cases}
use phoenix_rtos_kernel.Klib.Rb.{
  Color, red, black, Tree, leaf, node, Side, left, right, Way, top, step, join, child, other, paint,
  plug, is_red,
}
use phoenix_rtos_kernel.Klib.Rb.Balance.{
  IsRb, IsBalanced, WayIsRb, plug-IsRb, blackened, uncle-IsRb, join_black-IsRb, join_red-IsRb,
  is_red-join, is_red-paint, black_top, Fits,
}
use phoenix_rtos_kernel.Klib.Rb.Rounds.{}
use phoenix_rtos_kernel.Klib.Rb.Remove.{}

-- A tree that lacks a black node on every way down; a red root, which turns black next, may have
-- red children.
abbrev pub Lacks : ℕ → Tree → Type 0
Lacks n leaf = n ≡ 0
Lacks n (node red l x r) = IsRb n l × IsRb n r
Lacks n (node black l x r) = IsRb n (node black l x r)

pub IsRb-Lacks : (n : ℕ) (t : Tree) → IsRb n t → Lacks n t
IsRb-Lacks n leaf a = a
IsRb-Lacks n (node red l x r) (e, f, a, b) = (a, b)
IsRb-Lacks n (node black l x r) a = a

pub Lacks-black : (n : ℕ) (t : Tree) → is_red t ≡ false → Lacks n t → IsRb n t
Lacks-black n leaf e a = a
Lacks-black n (node red l x r) e a = absurd (false≢true (sym e))
Lacks-black n (node black l x r) e a = a

pub Lacks-red : (n : ℕ) (t : Tree) → is_red t ≡ true → Lacks n t → IsRb (suc n) (paint black t)
Lacks-red n leaf e a = absurd (false≢true e)
Lacks-red n (node red l x r) e (a, b) = (n, refl, a, b)
Lacks-red n (node black l x r) e a = absurd (false≢true e)

pub Lacks-join :
    (n : ℕ) (d : Side) (t : Tree) (x : ℕ) (s : Tree)
    → IsRb n t
    → IsRb n s
    → Lacks n (join d red t x s)
Lacks-join n left t x s a b = (a, b)
Lacks-join n right t x s a b = (b, a)

-- A node of the color with children of `n` black nodes may stand at the end of the path.
abbrev pub Above : ℕ → Color → Way → Type 0
Above n black q = WayIsRb (suc n) q
Above n red q = (black_top q ≡ true) × WayIsRb n q

pub plug-IsBalanced :
    (n : ℕ) (t : Tree) (p : Way) → IsRb n t → WayIsRb n p → Fits t p → IsBalanced (plug t p)
plug-IsBalanced n t top a b f = elim (Bool-cases (is_red t)) [
  | inl h ↦ absurd (false≢true (f h))
  | inr h ↦ (h, (n, a))
]
plug-IsBalanced n t (step d black x s p) a (b, c) f =
    plug-IsBalanced (suc n) (join d black t x s) p (join_black-IsRb n d t x s a b) c
      (λ h. absurd (false≢true (sym (is_red-join d black t x s) ∙ h)))
plug-IsBalanced n t (step d red x s p) a (b, e, k, c) f = elim (Bool-cases (is_red t)) [
  | inl h ↦ absurd (false≢true (f h))
  | inr h ↦ plug-IsBalanced n (join d red t x s) p (join_red-IsRb n d t x s h e a b) c (λ _. k)
]

-- A node with black children of `n` black nodes each
plug-Above :
    (n : ℕ) (d : Side) (c : Color) (t : Tree) (x : ℕ) (s : Tree) (q : Way)
    → is_red t ≡ false
    → is_red s ≡ false
    → IsRb n t
    → IsRb n s
    → Above n c q
    → IsBalanced (paint black (plug (join d c t x s) q))
plug-Above n d black t x s q e f a b k =
    let (m, r) =
      plug-IsRb (suc n) (join d black t x s) q (join_black-IsRb n d t x s a b) k
        (λ h. absurd (false≢true (sym (is_red-join d black t x s) ∙ h))) in
    blackened m (plug (join d black t x s) q) r
plug-Above n d red t x s q e f a b (h, k) =
    let (m, r) = plug-IsRb n (join d red t x s) q (join_red-IsRb n d t x s e f a b) k (λ _. h) in
    blackened m (plug (join d red t x s) q) r

pub child_black-IsRb :
    (m : ℕ) (d : Side) (a : Tree) (w : ℕ) (b : Tree)
    → IsRb (suc m) (node black a w b)
    → IsRb m (child d (node black a w b))
child_black-IsRb m left a w b (k, e, ra, rb) = subst (λ i. IsRb i a) (sym (suc_inj e)) ra
child_black-IsRb m right a w b (k, e, ra, rb) = subst (λ i. IsRb i b) (sym (suc_inj e)) rb

-- The parent is rotated: the loop ends.
pub rotated_parent-IsRb :
    (n : ℕ) (x : Tree) (d : Side) (c : Color) (y : ℕ) (a : Tree) (w : ℕ) (b : Tree) (q : Way)
    → IsRb n x
    → IsRb (suc n) (node black a w b)
    → is_red (child (other d) (node black a w b)) ≡ true
    → Above (suc n) c q
    → let s = node black a w b in
      IsBalanced (
        paint black
          (plug (join d c (join d black x y (child d s)) w (paint black (child (other d) s))) q))
rotated_parent-IsRb n x d c y a w b q rx rw e k =
    let s = node black a w b in
    plug-Above (suc n) d c (join d black x y (child d s)) w (paint black (child (other d) s)) q
      (is_red-join d black x y (child d s)) (is_red-paint (child (other d) s))
      (join_black-IsRb n d x y (child d s) rx (child_black-IsRb n d a w b rw))
      (uncle-IsRb n (child (other d) s) e (child_black-IsRb n (other d) a w b rw)) k
