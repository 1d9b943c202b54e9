-- ===== src/Klib/Rb/Rounds.antt =====
-- lib_rbInsertBalance of lib/rb.c keeps the colors of a red-black tree.
use mathlib.Core.Path.{subst}
use mathlib.Core.Bool.{false≢true}
use phoenix_rtos_kernel.Base.{
  ℕ, zero, suc, ◌≡◌, refl, sym, ◌∙◌, inl, inr, true, false, arith, Bool-cases, ◌*◌, ◌+◌, ◌≤◌,
}
use phoenix_rtos_kernel.Klib.Rb.{
  Color, red, black, Tree, leaf, node, Side, left, right, Way, top, step, join, child, paint, plug,
  round, rotate_inner, insert_balance, is_red, same_side, length_of,
}
use phoenix_rtos_kernel.Klib.Rb.Balance.{
  IsRb, IsBalanced, WayIsRb, plug-IsRb, blackened, outer-IsRb, uncle-IsRb, join_black-IsRb,
  join_red-IsRb, is_red-join, is_red-paint,
}

module _ (t : Tree) (d1 : Side) (y : ℕ) (s : Tree) (d2 : Side) (gc : Color) (g : ℕ) (u : Tree)
    (p : Way) where
  red_uncle :
      (fuel : ℕ)
      → is_red u ≡ true
      → insert_balance (suc fuel) t (step d1 red y s (step d2 gc g u p))
        ≡ insert_balance fuel (join d2 red (join d1 black t y s) g (paint black u)) p
  unfolding insert_balance round
  red_uncle fuel e = rw e refl

  outer_step :
      (fuel : ℕ)
      → is_red u ≡ false
      → same_side d1 d2 ≡ true
      → insert_balance (suc fuel) t (step d1 red y s (step d2 gc g u p))
        ≡ insert_balance fuel t (step d1 black y (join d2 red s g u) p)
  unfolding insert_balance round
  outer_step fuel e h = rw (e, h) refl

  outer_round :
      (fuel : ℕ)
      → is_red u ≡ false
      → same_side d1 d2 ≡ true
      → insert_balance (suc (suc fuel)) t (step d1 red y s (step d2 gc g u p))
        ≡ paint black (plug t (step d1 black y (join d2 red s g u) p))
  unfolding insert_balance
  outer_round fuel e h = outer_step (suc fuel) e h

  inner_round :
      (fuel : ℕ)
      → is_red u ≡ false
      → same_side d1 d2 ≡ false
      → insert_balance (suc fuel) t (step d1 red y s (step d2 gc g u p))
        ≡ (let (t', p') = rotate_inner t d1 y s d2 (step d2 gc g u p) in insert_balance fuel t' p')
  unfolding insert_balance round
  inner_round fuel e h = rw (e, h) refl

same_side_refl : (d : Side) → same_side d d ≡ true
same_side_refl left = refl
same_side_refl right = refl

inner_rounds :
    (fuel : ℕ) (a : Tree) (z : ℕ) (b : Tree) (d1 : Side) (y : ℕ) (s : Tree) (d2 : Side) (gc : Color)
    (g : ℕ) (u : Tree) (p : Way)
    → is_red u ≡ false
    → same_side d1 d2 ≡ false
    → let t = node red a z b in
      insert_balance (suc (suc (suc fuel))) t (step d1 red y s (step d2 gc g u p))
      ≡ paint black
          (plug (join d1 red (child d2 t) y s) (step d2 black z (join d2 red (child d1 t) g u) p))
unfolding rotate_inner
inner_rounds fuel a z b d1 y s d2 gc g u p e h =
    inner_round (node red a z b) d1 y s d2 gc g u p (suc (suc fuel)) e h
    ∙ outer_round (join d1 red (child d2 (node red a z b)) y s) d2 z (child d1 (node red a z b)) d2
        gc g u p fuel e (same_side_refl d2)

pub child-IsRb :
    (n : ℕ) (d : Side) (a : Tree) (z : ℕ) (b : Tree)
    → IsRb n (node red a z b)
    → IsRb n (child d (node red a z b)) × (is_red (child d (node red a z b)) ≡ false)
child-IsRb n left a z b (ea, eb, ra, rb) = (ra, ea)
child-IsRb n right a z b (ea, eb, ra, rb) = (rb, eb)

inner-IsRb :
    (n : ℕ) (a : Tree) (z : ℕ) (b : Tree) (d1 : Side) (y : ℕ) (s : Tree) (d2 : Side) (g : ℕ)
    (u : Tree) (p : Way)
    → IsRb n (node red a z b)
    → IsRb n s
    → is_red s ≡ false
    → IsRb n u
    → is_red u ≡ false
    → WayIsRb (suc n) p
    → let t = node red a z b in
      IsBalanced (
        paint black
          (plug (join d1 red (child d2 t) y s) (step d2 black z (join d2 red (child d1 t) g u) p)))
inner-IsRb n a z b d1 y s d2 g u p k rs es ru eu kp =
    let t = node red a z b in
    let (c1, e1) = child-IsRb n d1 a z b k in
    let (c2, e2) = child-IsRb n d2 a z b k in
    outer-IsRb n (join d1 red (child d2 t) y s) d2 z (child d1 t) d2 g u p
      (join_red-IsRb n d1 (child d2 t) y s e2 es c2 rs) c1 e1 ru eu kp

recolored-IsRb :
    (n : ℕ) (t : Tree) (d1 : Side) (y : ℕ) (s : Tree) (d2 : Side) (g : ℕ) (u : Tree)
    → IsRb n t
    → IsRb n s
    → is_red u ≡ true
    → IsRb n u
    → IsRb (suc n) (join d2 red (join d1 black t y s) g (paint black u))
recolored-IsRb n t d1 y s d2 g u a ks e ku =
    join_red-IsRb (suc n) d2 (join d1 black t y s) g (paint black u) (is_red-join d1 black t y s)
      (is_red-paint u) (join_black-IsRb n d1 t y s a ks) (uncle-IsRb n u e ku)

-- The rounds with a black uncle
last_rounds-IsBalanced :
    (fuel : ℕ) (n : ℕ) (l : Tree) (x : ℕ) (r : Tree) (d1 : Side) (y : ℕ) (s : Tree) (d2 : Side)
    (g : ℕ) (u : Tree) (p : Way)
    → IsRb n (node red l x r)
    → IsRb n s
    → is_red s ≡ false
    → IsRb n u
    → is_red u ≡ false
    → WayIsRb (suc n) p
    → IsBalanced (
        insert_balance
          (suc (suc (suc fuel)))
          (node red l x r)
          (step d1 red y s (step d2 black g u p)))
last_rounds-IsBalanced fuel n l x r d1 y s d2 g u p a ks es ku e kp =
    elim (Bool-cases (same_side d1 d2)) [
      | inl o ↦
          subst IsBalanced (sym (outer_round (node red l x r) d1 y s d2 black g u p (suc fuel) e o))
            (outer-IsRb n (node red l x r) d1 y s d2 g u p a ks es ku e kp)
      | inr o ↦
          subst IsBalanced (sym (inner_rounds fuel l x r d1 y s d2 black g u p e o))
            (inner-IsRb n l x r d1 y s d2 g u p a ks es ku e kp)
    ]

-- From a red node below which all is well, with enough rounds to reach the root, the loop leaves a
-- balanced tree.
pub insert_balance-IsBalanced :
    (fuel : ℕ) (n : ℕ) (t : Tree) (p : Way)
    → 2 * length_of p + 2 ≤ fuel
    → is_red t ≡ true
    → IsRb n t
    → WayIsRb n p
    → IsBalanced (insert_balance fuel t p)
unfolding insert_balance
insert_balance-IsBalanced zero n t p f h a k = absurd (omega arith)
insert_balance-IsBalanced (suc fuel) n t top f h a k = blackened n t a
insert_balance-IsBalanced (suc fuel) n t (step d black y s p) f h a k =
    let (m, r) = plug-IsRb n t (step d black y s p) a k (λ _. refl) in
    blackened m (plug t (step d black y s p)) r
insert_balance-IsBalanced (suc fuel) n t (step d red y s top) f h a (ks, e, kb, kp) =
    absurd (false≢true kb)
insert_balance-IsBalanced (suc fuel) n t (step d1 red y s (step d2 red g u p)) f h a
      (ks, e, kb, kp) =
    absurd (false≢true kb)
insert_balance-IsBalanced (suc zero) n t (step d1 red y s (step d2 black g u p)) f h a k =
    absurd (omega arith)
insert_balance-IsBalanced (suc (suc zero)) n t (step d1 red y s (step d2 black g u p)) f h a k =
    absurd (omega arith)
insert_balance-IsBalanced (suc (suc (suc fuel))) n leaf (step d1 red y s (step d2 black g u p)) f h
      a k =
    absurd (false≢true h)
insert_balance-IsBalanced (suc (suc (suc fuel))) n (node black l x r)
      (step d1 red y s (step d2 black g u p)) f h a k =
    absurd (false≢true h)
insert_balance-IsBalanced (suc (suc (suc fuel))) n (node red l x r)
      (step d1 red y s (step d2 black g u p)) f h a (ks, es, kb, (ku, kp)) =
    elim (Bool-cases (is_red u)) [
      | inl e ↦
          subst IsBalanced
            (sym (red_uncle (node red l x r) d1 y s d2 black g u p (suc (suc fuel)) e))
            (insert_balance-IsBalanced (suc (suc fuel)) (suc n)
              (join d2 red (join d1 black (node red l x r) y s) g (paint black u)) p (omega arith)
              (is_red-join d2 red (join d1 black (node red l x r) y s) g (paint black u))
              (recolored-IsRb n (node red l x r) d1 y s d2 g u a ks e ku) kp)
      | inr e ↦ last_rounds-IsBalanced fuel n l x r d1 y s d2 g u p a ks es ku e kp
    ]
