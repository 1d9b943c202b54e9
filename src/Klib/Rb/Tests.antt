-- ===== src/Klib/Rb/Tests.antt =====
-- Trees of lib/rb.c at concrete inputs.
use Prim.Native.Nat.{compare}
use phoenix_rtos_kernel.Base.{true, ℕ, ◌≡◌, refl, List, ◌∷◌, ◌++◌, eok, fails, eexist, arith}
use phoenix_rtos_kernel.Klib.Rb.{
  Way, plug, paint, red, black, Tree, leaf, node, left, right, top, step, descend, round, rb_insert,
  rb_find, rb_minimum, rb_next, rb_prev, insert_balance, climb, rotate_inner,
}
use phoenix_rtos_kernel.Klib.Rb.Order.{in_order}
use phoenix_rtos_kernel.Klib.Rb.Sequence.{IsOrdered}
use phoenix_rtos_kernel.Klib.Rb.Search.{first_of, last_of, rb_find_lem, rb_next-rb_prev}
use phoenix_rtos_kernel.Klib.Rb.Insert.{Inserted, rb_insert_lem}
use phoenix_rtos_kernel.Klib.Rb.Balance.{IsBalanced}
use phoenix_rtos_kernel.Klib.Rb.Colors.{rb_insert-IsBalanced}
use phoenix_rtos_kernel.Klib.Rb.Enough.{ends, rounds, insert_balance-enough}
use phoenix_rtos_kernel.Klib.Rb.Remove.{
  rotate_sibling, black_sibling, sibling, remove_balance, leftmost, unlinked, rb_remove,
}
use phoenix_rtos_kernel.Klib.Rb.Remove.Order.{rb_remove-in_order}
use phoenix_rtos_kernel.Klib.Rb.Remove.Whole.{rb_remove-IsBalanced}

abbrev one : Tree
one = node black leaf 10 leaf

abbrev four : Tree
four = node black (node red leaf 30 leaf) 40 (node red leaf 50 leaf)

abbrev five : Tree
five = node black one 20 four

abbrev with_60 : Tree
with_60 =
    node black one 20
      (node red (node black leaf 30 leaf) 40 (node black leaf 50 (node red leaf 60 leaf)))

insert_60 : rb_insert (λ y. compare y 60) five 60 ≡ (eok, with_60)
unfolding rb_insert descend insert_balance round rotate_inner
insert_60 = refl

insert_40 : rb_insert (λ y. compare y 40) five 40 ≡ (fails eexist, five)
unfolding rb_insert descend insert_balance round rotate_inner
insert_40 = refl

abbrev without_10 : Tree
without_10 = node black (node black leaf 20 (node red leaf 30 leaf)) 40 (node black leaf 50 leaf)

remove_10 : rb_remove black leaf leaf (step left black 20 four top) ≡ without_10
unfolding rb_remove leftmost unlinked remove_balance sibling black_sibling rotate_sibling
remove_10 = refl

remove_20 :
    rb_remove black one four top ≡ node black one 30 (node black leaf 40 (node red leaf 50 leaf))
unfolding rb_remove leftmost unlinked remove_balance rb_minimum
remove_20 = refl

next_20 : rb_next one four top ≡ 30
unfolding rb_next rb_minimum
next_20 = refl

next_10 : rb_next leaf leaf (step left black 20 four top) ≡ 20
unfolding rb_next climb
next_10 = refl

five-IsOrdered : IsOrdered (λ y. compare y 60) (in_order five)
five-IsOrdered = (
  λ h. absurd (h refl),
  (
    λ h. absurd (h refl),
    (λ h. absurd (h refl), (λ h. absurd (h refl), (λ h. absurd (h refl), tt))),
  ),
)

five-IsBalanced : IsBalanced five
five-IsBalanced = (
  refl,
  (
    2,
    (1, refl, (0, refl, refl, refl), (0, refl, (refl, refl, refl, refl), (refl, refl, refl, refl))),
  ),
)

rb_insert_lem_example : Inserted (λ y. compare y 60) five 60 (rb_insert (λ y. compare y 60) five 60)
rb_insert_lem_example = rb_insert_lem (λ y. compare y 60) five 60 five-IsOrdered

rb_insert-IsBalanced_example : IsBalanced (rb_insert (λ y. compare y 60) five 60).1
rb_insert-IsBalanced_example = rb_insert-IsBalanced (λ y. compare y 60) five 60 five-IsBalanced

insert_balance-enough_example :
    (t' : Tree) × (p' : Way) × (rounds 6
        (node red leaf 60 leaf)
        (step right red 50 leaf (step right black 40 (node red leaf 30 leaf) top))
      ≡ (t', p'))
    × (ends p' ≡ true)
    × (insert_balance 6
          (node red leaf 60 leaf)
          (step right red 50 leaf (step right black 40 (node red leaf 30 leaf) top))
        ≡ paint black (plug t' p'))
insert_balance-enough_example =
    insert_balance-enough 6 (node red leaf 60 leaf)
      (step right red 50 leaf (step right black 40 (node red leaf 30 leaf) top)) refl (omega arith)

rb_find_lem_example : rb_find (λ y. compare y 60) five ≡ 0
rb_find_lem_example = rb_find_lem (λ y. compare y 60) five five-IsOrdered

rb_next-rb_prev_example :
    (xs : List ℕ) × (ys : List ℕ) × (in_order five ≡ xs ++ 20 ∷ ys)
    × (rb_next one four top ≡ first_of ys)
    × (rb_prev one four top ≡ last_of xs)
rb_next-rb_prev_example = rb_next-rb_prev black one 20 four top

rb_remove-in_order_example :
    (xs : List ℕ) × (ys : List ℕ) × (in_order five ≡ xs ++ 20 ∷ ys)
    × (in_order (rb_remove black one four top) ≡ xs ++ ys)
rb_remove-in_order_example = rb_remove-in_order black one 20 four top

rb_remove-IsBalanced_example : IsBalanced (rb_remove black leaf leaf (step left black 20 four top))
rb_remove-IsBalanced_example =
    rb_remove-IsBalanced black leaf 10 leaf (step left black 20 four top) five-IsBalanced
