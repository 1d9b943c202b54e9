-- ===== src/Klib/Rb/Remove.antt =====
-- lib_rbRemove and lib_rbRemoveBalance of lib/rb.c. The node to remove is given by its position: its
-- color, children and path. A node `x` with its path stands for `x` and `parent` of the code, `nil`
-- included; `x = tree->root` is the whole tree with the empty path. Where the code would read a NULL
-- sibling, which no red-black tree has, nothing is changed.
pub mod Order
pub mod Colors
pub mod Rounds
pub mod Balanced
pub mod Whole
use phoenix_rtos_kernel.Base.{ℕ, zero, suc, ◌+◌, Bool, true, false, ◌||◌, if◌then◌else◌}
use phoenix_rtos_kernel.Klib.Rb.{
  Color, red, black, Tree, leaf, node, Side, left, right, Way, top, step, join, child, other, paint,
  plug, is_red, length_of, rb_minimum,
}

-- The sibling `w` is rotated away from `x`, below its red near child.
unfoldable pub rotate_sibling : Side → Tree → ℕ → Tree → Tree
rotate_sibling d leaf w far = join d red leaf w far
rotate_sibling d (node c a n b) w far =
    join d black (child d (node c a n b)) n (join d red (child (other d) (node c a n b)) w far)

-- What follows for a black sibling: with two black children it turns red, and the parent is the next
-- node; with a black far child it is rotated; else the parent is rotated, and the root is next.
unfoldable pub black_sibling : Tree → Side → Color → ℕ → Tree → Way → Tree × Way
unfolding rotate_sibling
black_sibling x d c y leaf q = (x, step d c y leaf q)
black_sibling x d c y (node cw a w b) q =
    let near = child d (node cw a w b) in
    let far = child (other d) (node cw a w b) in
    if is_red far
    then (plug (join d c (join d black x y near) w (paint black far)) q, top)
    else if is_red near
    then (x, step d c y (rotate_sibling d near w far) q)
    else (join d c x y (node red a w b), q)

-- A round of lib_rbRemoveBalance. Over a red sibling the parent is rotated first.
unfoldable pub sibling : Tree → Side → Color → ℕ → Tree → Way → Tree × Way
unfolding black_sibling
sibling x d c y (node red a w b) q =
    black_sibling x d red y (child d (node red a w b))
      (step d black w (child (other d) (node red a w b)) q)
sibling x d c y w q = black_sibling x d c y w q

-- lib_rbRemoveBalance of the node `x` at the path
unfoldable pub remove_balance : ℕ → Tree → Way → Tree
unfolding sibling
remove_balance zero x p = plug x p
remove_balance (suc fuel) x top = paint black x
remove_balance (suc fuel) x (step d c y w q) =
    if is_red x
    then plug (paint black x) (step d c y w q)
    else let (x', p') = sibling x d c y w q in remove_balance fuel x' p'

-- The leftmost node of a tree below a path: its color, its right child and the path to it.
unfoldable pub leftmost : Color → Tree → ℕ → Tree → Way → Color × Tree × Way
leftmost c leaf x r p = (c, r, p)
leftmost c (node c' l' x' r') x r p = leftmost c' l' x' r' (step left c x r p)

-- The end of lib_rbRemove: `c` is the color that is gone.
unfoldable pub unlinked : Color → Tree → Way → Tree
unfolding remove_balance
unlinked black x p = remove_balance (length_of p + 3) x p
unlinked red x p = plug x p

-- lib_rbRemove of the node with the color `c` and the children `l` and `r` at the path
unfoldable pub rb_remove : Color → Tree → Tree → Way → Tree
unfolding leftmost unlinked
rb_remove c leaf r p = unlinked c r p
rb_remove c (node cl l' x' r') leaf p = unlinked c (node cl l' x' r') p
rb_remove c (node cl l' x' r') (node cr a x b) p =
    let y = rb_minimum (node cr a x b) in
    let (cy, x', q) = leftmost cr a x b (step right c y (node cl l' x' r') p) in unlinked cy x' q
