-- ===== src/Klib/Rb/Rotate.antt =====
-- The rounds of lib_rbInsertBalance in lib/rb.c on the sequence of the nodes.
use Prim.Native.Nat.{}
use phoenix_rtos_kernel.Base.{ℕ, zero, suc, ◌≡◌, refl, ◌∙◌, inl, inr, true, false, Bool-cases}
use mathlib.Core.Path.{}
use phoenix_rtos_kernel.Klib.Rb.{
  Color, red, black, Tree, leaf, node, Side, left, right, Way, top, step, join, paint, plug, round,
  rotate_inner, insert_balance, is_red, same_side,
}
use phoenix_rtos_kernel.Klib.Rb.Order.{in_order, appends, in_order-plug_eq, in_order-paint}

rotate_inner-in_order :
    (t : Tree) (d1 : Side) (y : ℕ) (s : Tree) (d2 : Side) (p : Way)
    → same_side d1 d2 ≡ false
    → let (t', p') = rotate_inner t d1 y s d2 p in
      in_order (plug t' p') ≡ in_order (plug t (step d1 red y s p))
unfolding rotate_inner
rotate_inner-in_order leaf d1 y s d2 p h = refl
rotate_inner-in_order (node c a z b) left y s left p h = cc
rotate_inner-in_order (node c a z b) right y s right p h = cc
rotate_inner-in_order (node c a z b) left y s right p h =
    in_order-plug_eq (node red b y s) (node c a z b) (step right c z a p) (step left red y s p)
      (simp appends)
rotate_inner-in_order (node c a z b) right y s left p h =
    in_order-plug_eq (node red s y a) (node c a z b) (step left c z b p) (step right red y s p)
      (simp appends)

recolored :
    (t : Tree) (d1 : Side) (y : ℕ) (s : Tree) (d2 : Side) (gc : Color) (g : ℕ) (u : Tree) (p : Way)
    → in_order (plug (join d2 red (join d1 black t y s) g (paint black u)) p)
      ≡ in_order (plug t (step d1 red y s (step d2 gc g u p)))
recolored t left y s left gc g u p =
    in_order-plug_eq (node red (node black t y s) g (paint black u)) t p
      (step left red y s (step left gc g u p)) (simp (appends, in_order-paint))
recolored t left y s right gc g u p =
    in_order-plug_eq (node red (paint black u) g (node black t y s)) t p
      (step left red y s (step right gc g u p)) (simp (appends, in_order-paint))
recolored t right y s left gc g u p =
    in_order-plug_eq (node red (node black s y t) g (paint black u)) t p
      (step right red y s (step left gc g u p)) (simp (appends, in_order-paint))
recolored t right y s right gc g u p =
    in_order-plug_eq (node red (paint black u) g (node black s y t)) t p
      (step right red y s (step right gc g u p)) (simp (appends, in_order-paint))

rotated_outer :
    (t : Tree) (d1 : Side) (y : ℕ) (s : Tree) (d2 : Side) (gc : Color) (g : ℕ) (u : Tree) (p : Way)
    → same_side d1 d2 ≡ true
    → in_order (plug t (step d1 black y (join d2 red s g u) p))
      ≡ in_order (plug t (step d1 red y s (step d2 gc g u p)))
rotated_outer t left y s left gc g u p h =
    in_order-plug_eq t t (step left black y (node red s g u) p)
      (step left red y s (step left gc g u p)) (simp appends)
rotated_outer t right y s right gc g u p h =
    in_order-plug_eq t t (step right black y (node red u g s) p)
      (step right red y s (step right gc g u p)) (simp appends)
rotated_outer t left y s right gc g u p h = cc
rotated_outer t right y s left gc g u p h = cc

round-in_order :
    (t : Tree) (d1 : Side) (y : ℕ) (s : Tree) (d2 : Side) (gc : Color) (g : ℕ) (u : Tree) (p : Way)
    → let (t', p') = round t d1 y s d2 gc g u p in
      in_order (plug t' p') ≡ in_order (plug t (step d1 red y s (step d2 gc g u p)))
unfolding round
round-in_order t d1 y s d2 gc g u p = elim (Bool-cases (is_red u)) [
  | inl e ↦ rw e (recolored t d1 y s d2 gc g u p)
  | inr e ↦ elim (Bool-cases (same_side d1 d2)) [
    | inl h ↦ rw (e, h) (rotated_outer t d1 y s d2 gc g u p h)
    | inr h ↦ rw (e, h) (rotate_inner-in_order t d1 y s d2 (step d2 gc g u p) h)
  ]
]

pub insert_balance-in_order :
    (fuel : ℕ) (t : Tree) (p : Way) → in_order (insert_balance fuel t p) ≡ in_order (plug t p)
unfolding insert_balance
insert_balance-in_order zero t p = in_order-paint black (plug t p)
insert_balance-in_order (suc fuel) t top = in_order-paint black t
insert_balance-in_order (suc fuel) t (step d black y s p) =
    in_order-paint black (plug t (step d black y s p))
insert_balance-in_order (suc fuel) t (step d red y s top) =
    in_order-paint black (plug t (step d red y s top))
insert_balance-in_order (suc fuel) t (step d1 red y s (step d2 gc g u p)) =
    let next = round t d1 y s d2 gc g u p in
    insert_balance-in_order fuel next.0 next.1 ∙ round-in_order t d1 y s d2 gc g u p
