-- ===== src/Klib/Rb/Enough.antt =====
-- The number of rounds of lib_rbInsertBalance in lib/rb.c.
use mathlib.Core.Path.{subst}
use phoenix_rtos_kernel.Base.{
  Bool, false, ℕ, zero, suc, ◌≡◌, refl, sym, inl, inr, true, arith, Bool-cases, ◌*◌, ◌+◌, ◌≤◌,
}
use mathlib.Core.Bool.{false≢true}
use phoenix_rtos_kernel.Klib.Rb.{
  Color, red, black, Tree, leaf, node, Side, left, right, Way, top, step, join, child, paint, plug,
  round, rotate_inner, insert_balance, is_red, same_side, length_of,
}
use phoenix_rtos_kernel.Klib.Rb.Balance.{is_red-join}

-- Does the loop of lib_rbInsertBalance end at the node with this path? At the root, or below a black
-- parent; a red parent is never the root.
abbrev pub ends : Way → Bool
ends top = true
ends (step d black y s p) = true
ends (step d red y s top) = true
ends (step d red y s (step d2 c g u p)) = false

-- Where the loop is after so many rounds, or when it has ended
pub rounds : ℕ → Tree → Way → Tree × Way
rounds zero t p = (t, p)
rounds (suc n) t top = (t, top)
rounds (suc n) t (step d black y s p) = (t, step d black y s p)
rounds (suc n) t (step d red y s top) = (t, step d red y s top)
rounds (suc n) t (step d1 red y s (step d2 c g u p)) =
    let (t', p') = round t d1 y s d2 c g u p in rounds n t' p'

insert_balance-rounds :
    (n : ℕ) (t : Tree) (p : Way)
    → insert_balance n t p ≡ paint black (plug (rounds n t p).0 (rounds n t p).1)
unfolding insert_balance rounds
insert_balance-rounds zero t p = refl
insert_balance-rounds (suc n) t top = refl
insert_balance-rounds (suc n) t (step d black y s p) = refl
insert_balance-rounds (suc n) t (step d red y s top) = refl
insert_balance-rounds (suc n) t (step d1 red y s (step d2 c g u p)) =
    let r = round t d1 y s d2 c g u p in insert_balance-rounds n r.0 r.1

-- Below a black parent there are no more rounds.
black_ends :
    (n : ℕ) (t : Tree) (d : Side) (y : ℕ) (s : Tree) (p : Way)
    → ends (rounds n t (step d black y s p)).1 ≡ true
unfolding rounds
black_ends zero t d y s p = refl
black_ends (suc n) t d y s p = refl

same_side_refl : (d : Side) → same_side d d ≡ true
same_side_refl left = refl
same_side_refl right = refl

outer_round :
    (n : ℕ) (t : Tree) (d1 : Side) (y : ℕ) (s : Tree) (d2 : Side) (c : Color) (g : ℕ) (u : Tree)
    (p : Way)
    → is_red u ≡ false
    → same_side d1 d2 ≡ true
    → rounds (suc n) t (step d1 red y s (step d2 c g u p))
      ≡ rounds n t (step d1 black y (join d2 red s g u) p)
unfolding rounds round
outer_round n t d1 y s d2 c g u p e o = rw (e, o) refl

inner_round :
    (n : ℕ) (l : Tree) (x : ℕ) (r : Tree) (d1 : Side) (y : ℕ) (s : Tree) (d2 : Side) (c : Color)
    (g : ℕ) (u : Tree) (p : Way)
    → is_red u ≡ false
    → same_side d1 d2 ≡ false
    → let t = node red l x r in
      rounds (suc n) t (step d1 red y s (step d2 c g u p))
      ≡ rounds n (join d1 red (child d2 t) y s) (step d2 red x (child d1 t) (step d2 c g u p))
unfolding rounds round rotate_inner
inner_round n l x r d1 y s d2 c g u p e o = rw (e, o) refl

-- A round at an outer node is the last one.
outer_ends :
    (n : ℕ) (t : Tree) (d1 : Side) (y : ℕ) (s : Tree) (d2 : Side) (c : Color) (g : ℕ) (u : Tree)
    (p : Way)
    → is_red u ≡ false
    → same_side d1 d2 ≡ true
    → ends (rounds (suc n) t (step d1 red y s (step d2 c g u p))).1 ≡ true
outer_ends n t d1 y s d2 c g u p e o =
    subst (λ (q : Tree × Way). ends q.1 ≡ true) (sym (outer_round n t d1 y s d2 c g u p e o))
      (black_ends n t d1 y (join d2 red s g u) p)

-- A round at an inner node is the last but one.
inner_ends :
    (n : ℕ) (l : Tree) (x : ℕ) (r : Tree) (d1 : Side) (y : ℕ) (s : Tree) (d2 : Side) (c : Color)
    (g : ℕ) (u : Tree) (p : Way)
    → is_red u ≡ false
    → same_side d1 d2 ≡ false
    → ends (rounds (suc (suc n)) (node red l x r) (step d1 red y s (step d2 c g u p))).1 ≡ true
inner_ends n l x r d1 y s d2 c g u p e o =
    subst (λ (q : Tree × Way). ends q.1 ≡ true)
      (sym (inner_round (suc n) l x r d1 y s d2 c g u p e o))
      (outer_ends n (join d1 red (child d2 (node red l x r)) y s) d2 x (child d1 (node red l x r))
        d2 c g u p e (same_side_refl d2))

red_uncle_round :
    (n : ℕ) (t : Tree) (d1 : Side) (y : ℕ) (s : Tree) (d2 : Side) (c : Color) (g : ℕ) (u : Tree)
    (p : Way)
    → is_red u ≡ true
    → rounds (suc n) t (step d1 red y s (step d2 c g u p))
      ≡ rounds n (join d2 red (join d1 black t y s) g (paint black u)) p
unfolding rounds round
red_uncle_round n t d1 y s d2 c g u p e = rw e refl

rounds-ends :
    (n : ℕ) (t : Tree) (p : Way)
    → is_red t ≡ true
    → 2 * length_of p + 2 ≤ n
    → ends (rounds n t p).1 ≡ true
unfolding rounds
rounds-ends zero t p h a = absurd (omega arith)
rounds-ends (suc n) t top h a = refl
rounds-ends (suc n) t (step d black y s p) h a = refl
rounds-ends (suc n) t (step d red y s top) h a = refl
rounds-ends (suc zero) t (step d1 red y s (step d2 c g u p)) h a = absurd (omega arith)
rounds-ends (suc (suc n)) leaf (step d1 red y s (step d2 c g u p)) h a = absurd (false≢true h)
rounds-ends (suc (suc n)) (node black l x r) (step d1 red y s (step d2 c g u p)) h a =
    absurd (false≢true h)
rounds-ends (suc (suc n)) (node red l x r) (step d1 red y s (step d2 c g u p)) h a =
    elim (Bool-cases (is_red u)) [
      | inl e ↦
          subst (λ (q : Tree × Way). ends q.1 ≡ true)
            (sym (red_uncle_round (suc n) (node red l x r) d1 y s d2 c g u p e))
            (rounds-ends (suc n)
              (join d2 red (join d1 black (node red l x r) y s) g (paint black u)) p
              (is_red-join d2 red (join d1 black (node red l x r) y s) g (paint black u))
              (omega arith))
      | inr e ↦ elim (Bool-cases (same_side d1 d2)) [
        | inl o ↦ outer_ends (suc n) (node red l x r) d1 y s d2 c g u p e o
        | inr o ↦ inner_ends n l x r d1 y s d2 c g u p e o
      ]
    ]

-- From a red node, the condition of the loop of lib_rbInsertBalance fails after at most twice as many
-- rounds as there are nodes above, and two; and with as many rounds or more, the model of the function
-- gives the tree where the loop has ended, with a black root.
pub insert_balance-enough :
    (n : ℕ) (t : Tree) (p : Way)
    → is_red t ≡ true
    → 2 * length_of p + 2 ≤ n
    → (t' : Tree) × (p' : Way) × (rounds n t p ≡ (t', p'))
      × (ends p' ≡ true)
      × (insert_balance n t p ≡ paint black (plug t' p'))
insert_balance-enough n t p h a =
    ((rounds n t p).0, (rounds n t p).1, refl, rounds-ends n t p h a, insert_balance-rounds n t p)
