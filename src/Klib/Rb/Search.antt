-- ===== src/Klib/Rb/Search.antt =====
-- lib_rbFindEx, lib_rbMinimum, lib_rbMaximum, lib_rbNext and lib_rbPrev of lib/rb.c on the sequence of
-- the nodes.
use Prim.Native.Nat.{Ordering}
use phoenix_rtos_kernel.Base.{ℕ, ◌≡◌, ◌≢◌, refl, ap, sym, ◌∙◌, inl, inr, List, [], ◌∷◌, ◌++◌, All}
use mathlib.Core.List.{append-nil, append_assoc}
use phoenix_rtos_kernel.Klib.Rb.{
  Color, Tree, leaf, node, left, right, Way, top, step, plug, rb_find, rb_minimum, rb_maximum,
  rb_next, rb_prev, climb,
}
use phoenix_rtos_kernel.Klib.Rb.Order.{in_order, before, after, appends, in_order-plug}
use phoenix_rtos_kernel.Klib.Rb.Sequence.{
  IsOrdered, IsOrdered-left, IsOrdered-right, Ordering-cases, before-lt,
}

-- The first and the last node of a sequence, and the first that equals the node looked for; 0 for NULL
abbrev pub first_of : List ℕ → ℕ
first_of [] = 0
first_of (x ∷ xs) = x

abbrev pub last_of : List ℕ → ℕ
last_of [] = 0
last_of (x ∷ []) = x
last_of (x ∷ y ∷ xs) = last_of (y ∷ xs)

abbrev pub seek : (ℕ → Ordering) → List ℕ → ℕ
seek cmp [] = 0
seek cmp (x ∷ xs) = elim (cmp x) [
  | Ordering.eq ↦ x
  | Ordering.gt ↦ seek cmp xs
  | Ordering.lt ↦ seek cmp xs
]

last_of-append : (xs : List ℕ) (y : ℕ) (ys : List ℕ) → last_of (xs ++ y ∷ ys) ≡ last_of (y ∷ ys)
last_of-append [] y ys = refl
last_of-append (x ∷ []) y ys = refl
last_of-append (x ∷ x' ∷ xs) y ys = last_of-append (x' ∷ xs) y ys

pub rb_minimum_leaf : (c : Color) (x : ℕ) (r : Tree) → rb_minimum (node c leaf x r) ≡ x
unfolding rb_minimum
rb_minimum_leaf c x r = refl

pub rb_minimum_left :
    (c c' : Color) (l' : Tree) (x' : ℕ) (r' : Tree) (x : ℕ) (r : Tree)
    → rb_minimum (node c (node c' l' x' r') x r) ≡ rb_minimum (node c' l' x' r')
unfolding rb_minimum
rb_minimum_left c c' l' x' r' x r = refl

rb_minimum_lem :
    (c : Color) (l : Tree) (x : ℕ) (r : Tree) (ys : List ℕ)
    → rb_minimum (node c l x r) ≡ first_of (in_order (node c l x r) ++ ys)
unfolding rb_minimum
rb_minimum_lem c leaf x r ys = refl
rb_minimum_lem c (node c' l' x' r') x r ys =
    rb_minimum_lem c' l' x' r' ((x ∷ in_order r) ++ ys)
    ∙ ap first_of (sym (append_assoc (in_order (node c' l' x' r')) (x ∷ in_order r) ys))

last_of-in_order :
    (l : Tree) (x : ℕ) (r : Tree)
    → last_of (in_order l ++ x ∷ in_order r) ≡ last_of (x ∷ in_order r)
last_of-in_order l x r = last_of-append (in_order l) x (in_order r)

rb_maximum_lem :
    (c : Color) (l : Tree) (x : ℕ) (r : Tree)
    → rb_maximum (node c l x r) ≡ last_of (in_order (node c l x r))
unfolding rb_maximum
rb_maximum_lem c l x leaf = sym (last_of-append (in_order l) x [])
rb_maximum_lem c l x (node c' l' x' r') =
    rb_maximum_lem c' l' x' r'
    ∙ last_of-in_order l' x' r'
    ∙ sym (last_of-append (in_order l ++ x ∷ in_order l') x' (in_order r'))
    ∙ ap last_of (append_assoc (in_order l) (x ∷ in_order l') (x' ∷ in_order r'))

climb_left : (p : Way) → climb left p ≡ first_of (after p)
unfolding climb
climb_left top = refl
climb_left (step left c x s p) = refl
climb_left (step right c x s p) = climb_left p

climb_right : (p : Way) → climb right p ≡ last_of (before p)
unfolding climb
climb_right top = refl
climb_right (step left c x s p) = climb_right p
climb_right (step right c x s p) = sym (last_of-append (before p ++ in_order s) x [])

-- A node of the tree with its subtrees stands between what is before and what is behind it.
pub around :
    (c : Color) (l : Tree) (x : ℕ) (r : Tree) (p : Way)
    → in_order (plug (node c l x r) p) ≡ (before p ++ in_order l) ++ x ∷ (in_order r ++ after p)
around c l x r p = in_order-plug (node c l x r) p ∙ simp appends

next_lem : (l r : Tree) (p : Way) → rb_next l r p ≡ first_of (in_order r ++ after p)
unfolding rb_next
next_lem l leaf p = climb_left p
next_lem l (node c a x b) p = rb_minimum_lem c a x b (after p)

prev_lem : (l r : Tree) (p : Way) → rb_prev l r p ≡ last_of (before p ++ in_order l)
unfolding rb_prev
prev_lem leaf r p = climb_right p ∙ ap last_of (sym (append-nil (before p)))
prev_lem (node c a x b) r p =
    rb_maximum_lem c a x b
    ∙ last_of-in_order a x b
    ∙ sym (last_of-append (before p ++ in_order a) x (in_order b))
    ∙ ap last_of (append_assoc (before p) (in_order a) (x ∷ in_order b))

-- A node of a tree parts the sequence of the nodes in two, such that lib_rbNext is the first node of
-- the second part and lib_rbPrev the last of the first part, each NULL for an empty part.
pub rb_next-rb_prev :
    (c : Color) (l : Tree) (x : ℕ) (r : Tree) (p : Way)
    → (xs : List ℕ) × (ys : List ℕ) × (in_order (plug (node c l x r) p) ≡ xs ++ x ∷ ys)
      × (rb_next l r p ≡ first_of ys)
      × (rb_prev l r p ≡ last_of xs)
rb_next-rb_prev c l x r p = (
  before p ++ in_order l,
  in_order r ++ after p,
  around c l x r p,
  next_lem l r p,
  prev_lem l r p,
)

module _ (cmp : ℕ → Ordering) where
  seek-gt : (xs : List ℕ) → All (λ y. cmp y ≡ Ordering.gt) xs → seek cmp xs ≡ 0
  seek-gt [] a = refl
  seek-gt (x ∷ xs) a = rw (a.0, seek) (seek-gt xs a.1)

  seek-front :
      (xs : List ℕ) (y : ℕ) (rs : List ℕ)
      → IsOrdered cmp (xs ++ y ∷ rs)
      → cmp y ≡ Ordering.gt
      → seek cmp (xs ++ y ∷ rs) ≡ seek cmp xs
  seek-front [] y rs o e = rw (e, seek) (seek-gt rs (o.0 (λ h. cc)))
  seek-front (x ∷ xs) y rs o e = elim (Ordering-cases (cmp x)) [
    | inl c ↦ rw (c, seek) (seek-front xs y rs o.1 e)
    | inr (inl c) ↦ rw (c, seek) refl
    | inr (inr c) ↦ rw (c, seek) (seek-front xs y rs o.1 e)
  ]

  seek-behind :
      (xs : List ℕ) (y : ℕ) (rs : List ℕ)
      → IsOrdered cmp (xs ++ y ∷ rs)
      → cmp y ≢ Ordering.gt
      → seek cmp (xs ++ y ∷ rs) ≡ seek cmp (y ∷ rs)
  seek-behind [] y rs o e = refl
  seek-behind (x ∷ xs) y rs o e =
      rw (before-lt cmp 0 x xs y rs o e, seek) (seek-behind xs y rs o.1 e)

  -- On a tree in the order of the comparison, lib_rbFindEx finds the first node of the sequence that
  -- compares as equal, and NULL when there is none.
  pub rb_find_lem : (t : Tree) → IsOrdered cmp (in_order t) → rb_find cmp t ≡ seek cmp (in_order t)
  unfolding rb_find
  rb_find_lem leaf o = refl
  rb_find_lem (node c l y r) o = elim (Ordering-cases (cmp y)) [
    | inl e ↦
        rw (e, rb_find)
          (rb_find_lem r (IsOrdered-right cmp 0 (in_order l) (y ∷ in_order r) o).1
            ∙ sym (seek-behind (in_order l) y (in_order r) o (λ h. cc) ∙ rw (e, seek) refl))
    | inr (inl e) ↦
        rw (e, rb_find)
          (sym (seek-behind (in_order l) y (in_order r) o (λ h. cc) ∙ rw (e, seek) refl))
    | inr (inr e) ↦
        rw (e, rb_find)
          (rb_find_lem l (IsOrdered-left cmp 0 (in_order l) (y ∷ in_order r) o)
            ∙ sym (seek-front (in_order l) y (in_order r) o e))
  ]
