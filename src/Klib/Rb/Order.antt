-- ===== src/Klib/Rb/Order.antt =====
-- A tree of lib/rb.c as the sequence of its nodes in order.
use Prim.Native.Nat.{}
use phoenix_rtos_kernel.Base.{ℕ, ◌≡◌, refl, sym, ◌∙◌, List, [], ◌∷◌, ◌++◌}
use mathlib.Core.List.{append-nil, append_assoc}
use phoenix_rtos_kernel.Klib.Rb.{Color, Tree, leaf, node, left, right, Way, top, step, paint, plug}

abbrev pub in_order : Tree → List ℕ
in_order leaf = []
in_order (node c l x r) = in_order l ++ x ∷ in_order r

-- What stands before and behind the subtree at the end of a path.
abbrev pub before : Way → List ℕ
before top = []
before (step left c x s p) = before p
before (step right c x s p) = before p ++ in_order s ++ x ∷ []

abbrev pub after : Way → List ℕ
after top = []
after (step left c x s p) = x ∷ in_order s ++ after p
after (step right c x s p) = after p

pub ruleset appends = (append-nil, append_assoc)

pub in_order-plug : (t : Tree) (p : Way) → in_order (plug t p) ≡ before p ++ in_order t ++ after p
in_order-plug t top = simp appends
in_order-plug t (step left c x s p) = in_order-plug (node c t x s) p ∙ simp appends
in_order-plug t (step right c x s p) = in_order-plug (node c s x t) p ∙ simp appends

pub in_order-paint : (c : Color) (t : Tree) → in_order (paint c t) ≡ in_order t
in_order-paint c leaf = refl
in_order-paint c (node c' l x r) = refl

-- The subtrees of two positions hold the same in the same place.
pub in_order-plug_eq :
    (t t' : Tree) (p p' : Way)
    → before p ++ in_order t ++ after p ≡ before p' ++ in_order t' ++ after p'
    → in_order (plug t p) ≡ in_order (plug t' p')
in_order-plug_eq t t' p p' e = in_order-plug t p ∙ e ∙ sym (in_order-plug t' p')
