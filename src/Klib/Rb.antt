-- ===== src/Klib/Rb.antt =====
-- lib/rb.c and lib/rb.h: red-black trees. A tree is given by its nodes, each a number; the `parent`
-- pointers are the way up: a pointer to a node stands for the subtree below it and the path from it to
-- the root. The mirror images of the code are one clause with a side. `tree->compare` is an argument,
-- as the order of its two nodes; `tree->augment` is NULL. Printing is not modelled.
pub mod Order
pub mod Rotate
pub mod Sequence
pub mod Insert
pub mod Balance
pub mod Rounds
pub mod Descend
pub mod Colors
pub mod Enough
pub mod Search
pub mod Remove
mod Tests
pub mod Height
use Prim.Native.Nat.{Ordering}
use phoenix_rtos_kernel.Base.{
  ℕ, zero, suc, ◌+◌, ◌*◌, Bool, true, false, ◌&&◌, ◌==◌, if◌then◌else◌, Option, none, some, Result,
  eok, fails, eexist,
}

pub data Color : Type 0 where
  red black : Color

pub data Tree : Type 0 where
  leaf : Tree
  node : Color → Tree → ℕ → Tree → Tree

pub data Side : Type 0 where
  left right : Side

-- The way from a node to the root: on which side of its parent it stands, the parent's color and
-- node, the other child, and so on.
pub data Way : Type 0 where
  top : Way
  step : Side → Color → ℕ → Tree → Way → Way

abbrev pub same_side : Side → Side → Bool
same_side left left = true
same_side right right = true
same_side _ _ = false

-- A node with the first child on the side given.
abbrev pub join : Side → Color → Tree → ℕ → Tree → Tree
join left c t x s = node c t x s
join right c t x s = node c s x t

abbrev pub child : Side → Tree → Tree
child d leaf = leaf
child left (node c l x r) = l
child right (node c l x r) = r

abbrev pub other : Side → Side
other left = right
other right = left

-- A NULL child counts as black.
abbrev pub is_red : Tree → Bool
is_red (node red l x r) = true
is_red _ = false

abbrev pub paint : Color → Tree → Tree
paint c leaf = leaf
paint c (node c' l x r) = node c l x r

-- The tree from its root.
abbrev pub plug : Tree → Way → Tree
plug t top = t
plug t (step d c x s p) = plug (join d c t x s) p

-- The loop of lib_rbInsert: `none` for an equal node, or the place where the search ended.
pub descend : (ℕ → Ordering) → Tree → Way → Option Way
descend cmp leaf p = some p
descend cmp (node c l y r) p = elim (cmp y) [
  | Ordering.eq ↦ none
  | Ordering.gt ↦ descend cmp l (step left c y r p)
  | Ordering.lt ↦ descend cmp r (step right c y l p)
]

-- An inner node `t` is rotated up past its parent `y`, which is then the node to go on from.
pub rotate_inner : Tree → Side → ℕ → Tree → Side → Way → Tree × Way
rotate_inner leaf d1 y s d2 p = (leaf, step d1 red y s p)
rotate_inner (node c a z b) d1 y s d2 p =
    (join d1 red (child d2 (node c a z b)) y s, step d2 c z (child d1 (node c a z b)) p)

-- A round of lib_rbInsertBalance at the node `t`, where the parent `y` is red: `s` is the other child
-- of the parent, `g` the grandparent and `u` the uncle. With a red uncle the colors are changed; an
-- inner node is rotated to the outside, and an outer one rotates the grandparent. The result is the
-- next node, with its path.
pub round : Tree → Side → ℕ → Tree → Side → Color → ℕ → Tree → Way → Tree × Way
unfolding rotate_inner
round t d1 y s d2 gc g u p =
    if is_red u
    then (join d2 red (join d1 black t y s) g (paint black u), p)
    else if same_side d1 d2
    then (t, step d1 black y (join d2 red s g u) p)
    else rotate_inner t d1 y s d2 (step d2 gc g u p)

-- lib_rbInsertBalance, from the node `t` at the path. A red parent is never the root.
pub insert_balance : ℕ → Tree → Way → Tree
insert_balance zero t p = paint black (plug t p)
insert_balance (suc fuel) t top = paint black t
insert_balance (suc fuel) t (step d black y s p) = paint black (plug t (step d black y s p))
insert_balance (suc fuel) t (step d red y s top) = paint black (plug t (step d red y s top))
insert_balance (suc fuel) t (step d1 red y s (step d2 gc g u p)) =
    let (t', p') = round t d1 y s d2 gc g u p in insert_balance fuel t' p'

abbrev pub length_of : Way → ℕ
length_of top = 0
length_of (step d c x s p) = suc (length_of p)

-- lib_rbInsert of the node `z`; `cmp` compares the nodes of the tree with it.
pub rb_insert : (ℕ → Ordering) → Tree → ℕ → Result × Tree
unfolding insert_balance round
rb_insert cmp t z = elim (descend cmp t top) [
  | none ↦ (fails eexist, t)
  | some p ↦ (eok, insert_balance (2 * length_of p + 2) (node red leaf z leaf) p)
]

-- lib_rbFindEx, 0 for NULL
pub rb_find : (ℕ → Ordering) → Tree → ℕ
rb_find cmp leaf = 0
rb_find cmp (node c l y r) = elim (cmp y) [
  | Ordering.eq ↦ y
  | Ordering.gt ↦ rb_find cmp l
  | Ordering.lt ↦ rb_find cmp r
]

-- lib_rbMinimum and lib_rbMaximum; 0 for NULL
pub rb_minimum : Tree → ℕ
rb_minimum leaf = 0
rb_minimum (node c leaf x r) = x
rb_minimum (node c (node c' l x' r') x r) = rb_minimum (node c' l x' r')

pub rb_maximum : Tree → ℕ
rb_maximum leaf = 0
rb_maximum (node c l x leaf) = x
rb_maximum (node c l x (node c' l' x' r)) = rb_maximum (node c' l' x' r)

-- The loops of lib_rbNext and lib_rbPrev: the first parent that is left from the given side.
pub climb : Side → Way → ℕ
climb d top = 0
climb d (step d' c x s p) = if same_side d d' then x else climb d p

-- lib_rbNext and lib_rbPrev of a node with the children `l` and `r` at the path
pub rb_next : Tree → Tree → Way → ℕ
unfolding climb
rb_next l leaf p = climb left p
rb_next l (node c a x b) p = rb_minimum (node c a x b)

pub rb_prev : Tree → Tree → Way → ℕ
unfolding climb
rb_prev leaf r p = climb right p
rb_prev (node c a x b) r p = rb_maximum (node c a x b)
