-- ===== src/Klib/Rb/Balance.antt =====
-- The colors in lib/rb.c: what lib_rbInsertBalance keeps of a red-black tree.
use phoenix_rtos_kernel.Base.{ℕ, suc, ◌≡◌, refl, inl, inr, Bool, true, false, Bool-cases}
use phoenix_rtos_kernel.Klib.Rb.{
  Color, red, black, Tree, leaf, node, Side, left, right, Way, top, step, join, paint, plug, is_red,
}

-- A tree where no red node has a red child and every way down meets `n` black nodes.
abbrev pub IsRb : ℕ → Tree → Type 0
IsRb n leaf = n ≡ 0
IsRb n (node red l x r) = (is_red l ≡ false) × (is_red r ≡ false) × IsRb n l × IsRb n r
IsRb n (node black l x r) = (m : ℕ) × (n ≡ suc m) × IsRb m l × IsRb m r

-- With a black root
abbrev pub IsBalanced : Tree → Type 0
IsBalanced t = (is_red t ≡ false) × ((n : ℕ) × IsRb n t)

abbrev pub black_top : Way → Bool
black_top (step d black x s p) = true
black_top _ = false

-- A way up from a subtree with `n` black nodes on every way down.
abbrev pub WayIsRb : ℕ → Way → Type 0
WayIsRb n top = Unit
WayIsRb n (step d black x s p) = IsRb n s × WayIsRb (suc n) p
WayIsRb n (step d red x s p) = IsRb n s × (is_red s ≡ false) × (black_top p ≡ true) × WayIsRb n p

-- A red node stands below a black one.
abbrev pub Fits : Tree → Way → Type 0
Fits t p = is_red t ≡ true → black_top p ≡ true

pub join_black-IsRb :
    (n : ℕ) (d : Side) (t : Tree) (x : ℕ) (s : Tree)
    → IsRb n t
    → IsRb n s
    → IsRb (suc n) (join d black t x s)
join_black-IsRb n left t x s a b = (n, refl, a, b)
join_black-IsRb n right t x s a b = (n, refl, b, a)

pub join_red-IsRb :
    (n : ℕ) (d : Side) (t : Tree) (x : ℕ) (s : Tree)
    → is_red t ≡ false
    → is_red s ≡ false
    → IsRb n t
    → IsRb n s
    → IsRb n (join d red t x s)
join_red-IsRb n left t x s e f a b = (e, f, a, b)
join_red-IsRb n right t x s e f a b = (f, e, b, a)

pub is_red-join :
    (d : Side) (c : Color) (t : Tree) (x : ℕ) (s : Tree)
    → is_red (join d c t x s) ≡ is_red (node c t x s)
is_red-join left red t x s = refl
is_red-join left black t x s = refl
is_red-join right red t x s = refl
is_red-join right black t x s = refl

join-Fits : (d : Side) (t : Tree) (x : ℕ) (s : Tree) (p : Way) → Fits (join d black t x s) p
join-Fits left t x s p h = cc
join-Fits right t x s p h = cc

pub plug-IsRb :
    (n : ℕ) (t : Tree) (p : Way) → IsRb n t → WayIsRb n p → Fits t p → (m : ℕ) × IsRb m (plug t p)
plug-IsRb n t top a b f = (n, a)
plug-IsRb n t (step d black x s p) a (b, c) f =
    plug-IsRb (suc n) (join d black t x s) p (join_black-IsRb n d t x s a b) c (join-Fits d t x s p)
plug-IsRb n t (step d red x s p) a (b, e, k, c) f = elim (Bool-cases (is_red t)) [
  | inl h ↦ (let k = f h in cc)
  | inr h ↦ plug-IsRb n (join d red t x s) p (join_red-IsRb n d t x s h e a b) c (λ _. k)
]

paint-IsRb : (n : ℕ) (t : Tree) → IsRb n t → (m : ℕ) × IsRb m (paint black t)
paint-IsRb n leaf a = (n, a)
paint-IsRb n (node red l x r) (e, f, a, b) = (suc n, (n, refl, a, b))
paint-IsRb n (node black l x r) a = (n, a)

pub is_red-paint : (t : Tree) → is_red (paint black t) ≡ false
is_red-paint leaf = refl
is_red-paint (node c l x r) = refl

pub blackened : (n : ℕ) (t : Tree) → IsRb n t → IsBalanced (paint black t)
blackened n t a = (is_red-paint t, paint-IsRb n t a)

pub uncle-IsRb : (n : ℕ) (u : Tree) → is_red u ≡ true → IsRb n u → IsRb (suc n) (paint black u)
uncle-IsRb n leaf e a = cc
uncle-IsRb n (node red l x r) e (f, g, a, b) = (n, refl, a, b)
uncle-IsRb n (node black l x r) e a = cc

-- The rounds at which the loop ends: an outer node below a red parent.
pub outer-IsRb :
    (n : ℕ) (t : Tree) (d1 : Side) (y : ℕ) (s : Tree) (d2 : Side) (g : ℕ) (u : Tree) (p : Way)
    → IsRb n t
    → IsRb n s
    → is_red s ≡ false
    → IsRb n u
    → is_red u ≡ false
    → WayIsRb (suc n) p
    → IsBalanced (paint black (plug t (step d1 black y (join d2 red s g u) p)))
outer-IsRb n t d1 y s d2 g u p a b e c f k =
    let (m, r) =
      plug-IsRb n t (step d1 black y (join d2 red s g u) p) a (join_red-IsRb n d2 s g u e f b c, k)
        (λ _. refl) in
    blackened m (plug t (step d1 black y (join d2 red s g u) p)) r
