-- ===== src/Klib/Rb/Remove/Order.antt =====
-- lib_rbRemove of lib/rb.c on the sequence of the nodes.
use phoenix_rtos_kernel.Base.{
  ℕ, zero, suc, ◌≡◌, refl, ap, ◌∙◌, inl, inr, List, ◌∷◌, ◌++◌, ◌+◌, Bool-cases,
}
use phoenix_rtos_kernel.Klib.Rb.{
  Color, red, black, Tree, leaf, node, Side, left, right, Way, top, step, join, child, other, paint,
  plug, is_red, length_of, rb_minimum,
}
use phoenix_rtos_kernel.Klib.Rb.Order.{
  in_order, before, after, appends, in_order-plug, in_order-plug_eq, in_order-paint,
}
use phoenix_rtos_kernel.Klib.Rb.Search.{around, rb_minimum_leaf, rb_minimum_left}
use phoenix_rtos_kernel.Klib.Rb.Remove.{
  rotate_sibling, black_sibling, sibling, remove_balance, leftmost, unlinked, rb_remove,
}

-- Two positions hold the same.
abbrev Same : Tree × Way → Tree × Way → Type 0
Same (t, p) (t', p') = in_order (plug t p) ≡ in_order (plug t' p')

rotated_parent :
    (d : Side) (x : Tree) (c : Color) (y : ℕ) (cw : Color) (a : Tree) (w : ℕ) (b : Tree) (q : Way)
    → in_order (
        plug
          (join d c
            (join d black x y (child d (node cw a w b)))
            w
            (paint black (child (other d) (node cw a w b))))
          q)
      ≡ in_order (plug x (step d c y (node cw a w b) q))
rotated_parent left x c y cw a w b q =
    in_order-plug_eq (node c (node black x y a) w (paint black b)) x q
      (step left c y (node cw a w b) q) (simp (appends, in_order-paint))
rotated_parent right x c y cw a w b q =
    in_order-plug_eq (node c (paint black a) w (node black b y x)) x q
      (step right c y (node cw a w b) q) (simp (appends, in_order-paint))

rotated_sibling :
    (d : Side) (cw : Color) (a : Tree) (w : ℕ) (b : Tree)
    → in_order (rotate_sibling d (child d (node cw a w b)) w (child (other d) (node cw a w b)))
      ≡ in_order (node cw a w b)
unfolding rotate_sibling
rotated_sibling left cw leaf w b = refl
rotated_sibling left cw (node c a n b') w b = simp appends
rotated_sibling right cw a w leaf = refl
rotated_sibling right cw a w (node c a' n b) = simp appends

new_sibling :
    (d : Side) (x : Tree) (c : Color) (y : ℕ) (s s' : Tree) (q : Way)
    → in_order s ≡ in_order s'
    → in_order (plug x (step d c y s q)) ≡ in_order (plug x (step d c y s' q))
new_sibling left x c y s s' q e =
    in_order-plug_eq x x (step left c y s q) (step left c y s' q) (rw e refl)
new_sibling right x c y s s' q e =
    in_order-plug_eq x x (step right c y s q) (step right c y s' q) (rw e refl)

black_sibling-in_order :
    (x : Tree) (d : Side) (c : Color) (y : ℕ) (w : Tree) (q : Way)
    → let (x', p') = black_sibling x d c y w q in
      in_order (plug x' p') ≡ in_order (plug x (step d c y w q))
unfolding black_sibling
black_sibling-in_order x d c y leaf q = refl
black_sibling-in_order x d c y (node cw a w b) q =
    elim (Bool-cases (is_red (child (other d) (node cw a w b)))) [
      | inl e ↦ rw e (rotated_parent d x c y cw a w b q)
      | inr e ↦ elim (Bool-cases (is_red (child d (node cw a w b)))) [
        | inl f ↦
            rw (e, f)
              (new_sibling d x c y
                (rotate_sibling d (child d (node cw a w b)) w (child (other d) (node cw a w b)))
                (node cw a w b) q (rotated_sibling d cw a w b))
        | inr f ↦ rw (e, f) (new_sibling d x c y (node red a w b) (node cw a w b) q refl)
      ]
    ]

red_sibling-in_order :
    (x : Tree) (d : Side) (c : Color) (y : ℕ) (a : Tree) (w : ℕ) (b : Tree) (q : Way)
    → in_order (
        plug x (
          step d red y
            (child d (node red a w b))
            (step d black w (child (other d) (node red a w b)) q)))
      ≡ in_order (plug x (step d c y (node red a w b) q))
red_sibling-in_order x left c y a w b q =
    in_order-plug_eq x x (step left red y a (step left black w b q))
      (step left c y (node red a w b) q) (simp appends)
red_sibling-in_order x right c y a w b q =
    in_order-plug_eq x x (step right red y b (step right black w a q))
      (step right c y (node red a w b) q) (simp appends)

sibling-in_order :
    (x : Tree) (d : Side) (c : Color) (y : ℕ) (w : Tree) (q : Way)
    → let (x', p') = sibling x d c y w q in
      in_order (plug x' p') ≡ in_order (plug x (step d c y w q))
unfolding sibling
sibling-in_order x d c y leaf q = black_sibling-in_order x d c y leaf q
sibling-in_order x d c y (node red a w b) q =
    black_sibling-in_order x d red y (child d (node red a w b))
      (step d black w (child (other d) (node red a w b)) q)
    ∙ red_sibling-in_order x d c y a w b q
sibling-in_order x d c y (node black a w b) q = black_sibling-in_order x d c y (node black a w b) q

remove_balance-in_order :
    (fuel : ℕ) (x : Tree) (p : Way) → in_order (remove_balance fuel x p) ≡ in_order (plug x p)
unfolding remove_balance
remove_balance-in_order zero x p = refl
remove_balance-in_order (suc fuel) x top = in_order-paint black x
remove_balance-in_order (suc fuel) x (step d c y w q) = elim (Bool-cases (is_red x)) [
  | inl e ↦ rw e (
      in_order-plug_eq (paint black x) x (step d c y w q) (step d c y w q)
        (rw (in_order-paint black x) refl))
  | inr e ↦
      let next = sibling x d c y w q in
      rw e (remove_balance-in_order fuel next.0 next.1 ∙ sibling-in_order x d c y w q)
]

unlinked-in_order :
    (c : Color) (x : Tree) (p : Way) → in_order (unlinked c x p) ≡ before p ++ in_order x ++ after p
unfolding unlinked
unlinked-in_order black x p = remove_balance-in_order (length_of p + 3) x p ∙ in_order-plug x p
unlinked-in_order red x p = in_order-plug x p

leftmost-before :
    (c : Color) (l : Tree) (x : ℕ) (r : Tree) (p : Way) → before (leftmost c l x r p).2 ≡ before p
unfolding leftmost
leftmost-before c leaf x r p = refl
leftmost-before c (node c' l' x' r') x r p = leftmost-before c' l' x' r' (step left c x r p)

leftmost-after :
    (c : Color) (l : Tree) (x : ℕ) (r : Tree) (p : Way)
    → let (c', t, q) = leftmost c l x r p in
      rb_minimum (node c l x r) ∷ (in_order t ++ after q) ≡ in_order (node c l x r) ++ after p
unfolding leftmost
leftmost-after c leaf x r p = rw rb_minimum_leaf (simp appends)
leftmost-after c (node c' l' x' r') x r p =
    rw rb_minimum_left (leftmost-after c' l' x' r' (step left c x r p) ∙ simp appends)

moved :
    (c : Color) (l : Tree) (y : ℕ) (r : List ℕ) (t : Tree) (p q : Way)
    → before q ≡ before (step right c y l p)
    → y ∷ (in_order t ++ after q) ≡ r ++ after p
    → before q ++ in_order t ++ after q ≡ before p ++ in_order l ++ r ++ after p
moved c l y r t p q e f = rw e (simp appends (ap (λ zs. before p ++ (in_order l ++ zs)) f))

removed_lem :
    (c : Color) (l r : Tree) (p : Way)
    → in_order (rb_remove c l r p) ≡ before p ++ in_order l ++ in_order r ++ after p
unfolding rb_remove
removed_lem c leaf r p = unlinked-in_order c r p ∙ simp appends
removed_lem c (node cl l' x' r') leaf p = unlinked-in_order c (node cl l' x' r') p ∙ simp appends
removed_lem c (node cl l' x' r') (node cr a x b) p =
    let y = rb_minimum (node cr a x b) in
    let p' = step right c y (node cl l' x' r') p in
    let (cy, t, q) = leftmost cr a x b p' in
    unlinked-in_order cy t q
    ∙ moved c (node cl l' x' r') y (in_order (node cr a x b)) t p q (leftmost-before cr a x b p')
        (leftmost-after cr a x b p')

-- lib_rbRemove takes the given node out of the sequence of the nodes and leaves all others in their
-- order.
pub rb_remove-in_order :
    (c : Color) (l : Tree) (z : ℕ) (r : Tree) (p : Way)
    → (xs : List ℕ) × (ys : List ℕ) × (in_order (plug (node c l z r) p) ≡ xs ++ z ∷ ys)
      × (in_order (rb_remove c l r p) ≡ xs ++ ys)
rb_remove-in_order c l z r p = (
  before p ++ in_order l,
  in_order r ++ after p,
  around c l z r p,
  removed_lem c l r p ∙ simp appends,
)
