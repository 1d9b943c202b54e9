-- ===== src/Klib/Rb/Remove/Rounds.antt =====
-- lib_rbRemoveBalance of lib/rb.c on red-black trees.
use mathlib.Core.Path.{subst}
use mathlib.Core.Bool.{false≢true}
use phoenix_rtos_kernel.Base.{ℕ, suc, ◌≡◌, refl, ap, sym, ◌∙◌, inl, inr, true, false, Bool-cases}
use phoenix_rtos_kernel.Klib.Rb.{
  Color, red, black, Tree, leaf, node, Side, left, right, Way, top, step, join, child, other, paint,
  plug, is_red,
}
use phoenix_rtos_kernel.Klib.Rb.Balance.{IsRb, IsBalanced}
use phoenix_rtos_kernel.Klib.Rb.Rounds.{}
use phoenix_rtos_kernel.Klib.Rb.Remove.Colors.{Above, child_black-IsRb, rotated_parent-IsRb}
use phoenix_rtos_kernel.Klib.Rb.Remove.{rotate_sibling, black_sibling, sibling, remove_balance}

-- The loop goes on from a node and a path.
abbrev pub go_on : ℕ → Tree × Way → Tree
go_on fuel (x, p) = remove_balance fuel x p

module _ (fuel : ℕ) (x : Tree) (d : Side) (c : Color) (y : ℕ) (w : Tree) (q : Way) where
  pub red_exit :
      is_red x ≡ true
      → remove_balance (suc fuel) x (step d c y w q) ≡ plug (paint black x) (step d c y w q)
  unfolding remove_balance
  red_exit e = rw e refl

  pub sibling_round :
      is_red x ≡ false
      → remove_balance (suc fuel) x (step d c y w q) ≡ go_on fuel (sibling x d c y w q)
  unfolding remove_balance
  sibling_round e = rw e refl

module _ (x : Tree) (d : Side) (c : Color) (y : ℕ) (cw : Color) (a : Tree) (w : ℕ) (b : Tree)
    (q : Way) where
  far_round :
      is_red (child (other d) (node cw a w b)) ≡ true
      → let s = node cw a w b in
        black_sibling x d c y s q ≡ (
          plug (join d c (join d black x y (child d s)) w (paint black (child (other d) s))) q,
          top,
        )
  unfolding black_sibling
  far_round e = rw e refl

  near_round :
      is_red (child (other d) (node cw a w b)) ≡ false
      → is_red (child d (node cw a w b)) ≡ true
      → let s = node cw a w b in
        black_sibling x d c y s q
        ≡ (x, step d c y (rotate_sibling d (child d s) w (child (other d) s)) q)
  unfolding black_sibling
  near_round e f = rw (e, f) refl

  black_round :
      is_red (child (other d) (node cw a w b)) ≡ false
      → is_red (child d (node cw a w b)) ≡ false
      → black_sibling x d c y (node cw a w b) q ≡ (join d c x y (node red a w b), q)
  unfolding black_sibling
  black_round e f = rw (e, f) refl

-- The last round, with a red far child of the sibling
last-IsBalanced :
    (fuel n : ℕ) (x : Tree) (d : Side) (c : Color) (y : ℕ) (a : Tree) (w : ℕ) (b : Tree) (q : Way)
    → IsRb n x
    → IsRb (suc n) (node black a w b)
    → is_red (child (other d) (node black a w b)) ≡ true
    → Above (suc n) c q
    → IsBalanced (go_on (suc fuel) (black_sibling x d c y (node black a w b) q))
unfolding remove_balance
last-IsBalanced fuel n x d c y a w b q rx rw e k =
    subst (λ r. IsBalanced (go_on (suc fuel) r)) (sym (far_round x d c y black a w b q e))
      (rotated_parent-IsRb n x d c y a w b q rx rw e k)

sibling_black :
    (x : Tree) (d : Side) (c : Color) (y : ℕ) (a : Tree) (w : ℕ) (b : Tree) (q : Way)
    → sibling x d c y (node black a w b) q ≡ black_sibling x d c y (node black a w b) q
unfolding sibling
sibling_black x d c y a w b q = refl

last_round-IsBalanced :
    (fuel n : ℕ) (x : Tree) (d : Side) (c : Color) (y : ℕ) (a : Tree) (w : ℕ) (b : Tree) (q : Way)
    → is_red x ≡ false
    → IsRb n x
    → IsRb (suc n) (node black a w b)
    → is_red (child (other d) (node black a w b)) ≡ true
    → Above (suc n) c q
    → IsBalanced (remove_balance (suc (suc fuel)) x (step d c y (node black a w b) q))
last_round-IsBalanced fuel n x d c y a w b q bx rx rw e k =
    subst IsBalanced
      (sym (
        sibling_round (suc fuel) x d c y (node black a w b) q bx
        ∙ ap (go_on (suc fuel)) (sibling_black x d c y a w b q)))
      (last-IsBalanced fuel n x d c y a w b q rx rw e k)

-- The two last rounds, with a red near child of the sibling
rotated-IsBalanced :
    (fuel n : ℕ) (x : Tree) (d : Side) (c : Color) (y : ℕ) (near : Tree) (w : ℕ) (far : Tree)
    (q : Way)
    → is_red x ≡ false
    → IsRb n x
    → is_red near ≡ true
    → IsRb n near
    → is_red far ≡ false
    → IsRb n far
    → Above (suc n) c q
    → IsBalanced (remove_balance (suc (suc fuel)) x (step d c y (rotate_sibling d near w far) q))
unfolding rotate_sibling
rotated-IsBalanced fuel n x d c y leaf w far q bx rx e rn f rf k = absurd (false≢true e)
rotated-IsBalanced fuel n x d c y (node black l z r) w far q bx rx e rn f rf k =
    absurd (false≢true e)
rotated-IsBalanced fuel n x left c y (node red l z r) w far q bx rx e (el, er, rl, rr) f rf k =
    last_round-IsBalanced fuel n x left c y l z (node red r w far) q bx rx
      (n, refl, rl, (er, f, rr, rf)) refl k
rotated-IsBalanced fuel n x right c y (node red l z r) w far q bx rx e (el, er, rl, rr) f rf k =
    last_round-IsBalanced fuel n x right c y (node red far w l) z r q bx rx
      (n, refl, (f, el, rf, rl), rr) refl k

children_black :
    (d : Side) (a : Tree) (w : ℕ) (b : Tree)
    → is_red (child (other d) (node black a w b)) ≡ false
    → is_red (child d (node black a w b)) ≡ false
    → (is_red a ≡ false) × (is_red b ≡ false)
children_black left a w b e f = (f, e)
children_black right a w b e f = (e, f)

-- A round with a black sibling; with two black children of the sibling, the loop goes on above.
pub black_sibling-IsBalanced :
    (fuel n : ℕ) (x : Tree) (d : Side) (c : Color) (y : ℕ) (a : Tree) (w : ℕ) (b : Tree) (q : Way)
    → is_red x ≡ false
    → IsRb n x
    → IsRb (suc n) (node black a w b)
    → Above (suc n) c q
    → (IsRb n (node red a w b)
        → IsBalanced (remove_balance (suc (suc fuel)) (join d c x y (node red a w b)) q))
    → IsBalanced (go_on (suc (suc fuel)) (black_sibling x d c y (node black a w b) q))
black_sibling-IsBalanced fuel n x d c y a w b q bx rx rw k next =
    let s = node black a w b in
    let near = child_black-IsRb n d a w b rw in
    let far = child_black-IsRb n (other d) a w b rw in
    elim (Bool-cases (is_red (child (other d) s))) [
      | inl e ↦ last-IsBalanced (suc fuel) n x d c y a w b q rx rw e k
      | inr e ↦ elim (Bool-cases (is_red (child d s))) [
        | inl f ↦
            subst (λ r. IsBalanced (go_on (suc (suc fuel)) r))
              (sym (near_round x d c y black a w b q e f))
              (rotated-IsBalanced fuel n x d c y (child d s) w (child (other d) s) q bx rx f near e
                far k)
        | inr f ↦
            let (ea, eb) = children_black d a w b e f in
            subst (λ r. IsBalanced (go_on (suc (suc fuel)) r))
              (sym (black_round x d c y black a w b q e f))
              (next (ea, eb, child_black-IsRb n left a w b rw, child_black-IsRb n right a w b rw))
      ]
    ]
