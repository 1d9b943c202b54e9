-- ===== src/Klib/Rb/Sequence.antt =====
-- What lib_rbInsert and lib_rbFind of lib/rb.c promise, on a sequence of nodes.
use Prim.Native.Nat.{Ordering}
use phoenix_rtos_kernel.Base.{
  ℕ, ◌≡◌, ◌≢◌, refl, ◌⊎◌, inl, inr, List, [], ◌∷◌, ◌++◌, All, Option, none, some,
}
use mathlib.Core.Path.{}
use phoenix_rtos_kernel.Klib.Rb.{}
use phoenix_rtos_kernel.Klib.Rb.Order.{}

-- In a sequence in the order of `cmp`, all that stands behind a node which is not before the new one
-- is behind it.
abbrev pub IsOrdered : (ℕ → Ordering) → List ℕ → Type 0
IsOrdered cmp [] = Unit
IsOrdered cmp (x ∷ xs) =
    (cmp x ≢ Ordering.lt → All (λ y. cmp y ≡ Ordering.gt) xs) × IsOrdered cmp xs

-- Insertion into the sequence: `none` for an equal node.
abbrev pub insert : (ℕ → Ordering) → ℕ → List ℕ → Option (List ℕ)
insert cmp z [] = some (z ∷ [])
insert cmp z (x ∷ xs) = elim (cmp x) [
  | Ordering.eq ↦ none
  | Ordering.gt ↦ some (z ∷ x ∷ xs)
  | Ordering.lt ↦ elim (insert cmp z xs) [ none ↦ none | some ys ↦ some (x ∷ ys) ]
]

abbrev pub over : (List ℕ → List ℕ) → Option (List ℕ) → Option (List ℕ)
over f none = none
over f (some ys) = some (f ys)

over-cons :
    (x : ℕ) (o : Option (List ℕ)) (y : ℕ) (rs : List ℕ)
    → elim (over (λ ys. ys ++ y ∷ rs) o) [ none ↦ none | some ys ↦ some (x ∷ ys) ]
      ≡ over (λ ys. ys ++ y ∷ rs) (elim o [ none ↦ none | some ys ↦ some (x ∷ ys) ])
over-cons x none y rs = refl
over-cons x (some ys) y rs = refl

over-eta :
    (y : ℕ) (o : Option (List ℕ))
    → elim o [ none ↦ none | some ys ↦ some (y ∷ ys) ] ≡ over (λ ys. y ∷ ys) o
over-eta y none = refl
over-eta y (some ys) = refl

over-cons_behind :
    (x : ℕ) (xs : List ℕ) (y : ℕ) (o : Option (List ℕ))
    → elim (over (λ ys. xs ++ y ∷ ys) o) [ none ↦ none | some ys ↦ some (x ∷ ys) ]
      ≡ over (λ ys. x ∷ xs ++ y ∷ ys) o
over-cons_behind x xs y none = refl
over-cons_behind x xs y (some ys) = refl

pub Ordering-cases : (o : Ordering) → (o ≡ Ordering.lt) ⊎ ((o ≡ Ordering.eq) ⊎ (o ≡ Ordering.gt))
Ordering-cases Ordering.lt = inl refl
Ordering-cases Ordering.eq = inr (inl refl)
Ordering-cases Ordering.gt = inr (inr refl)

pub All-behind : (P : ℕ → Type 0) (xs : List ℕ) (y : ℕ) (rs : List ℕ) → All P (xs ++ y ∷ rs) → P y
All-behind P [] y rs a = a.0
All-behind P (x ∷ xs) y rs a = All-behind P xs y rs a.1

All-left : (P : ℕ → Type 0) (xs ys : List ℕ) → All P (xs ++ ys) → All P xs
All-left P [] ys a = tt
All-left P (x ∷ xs) ys a = (a.0, All-left P xs ys a.1)

module _ (cmp : ℕ → Ordering) (z : ℕ) where
  pub insert-front :
      (xs : List ℕ) (y : ℕ) (rs : List ℕ)
      → cmp y ≡ Ordering.gt
      → insert cmp z (xs ++ y ∷ rs) ≡ over (λ ys. ys ++ y ∷ rs) (insert cmp z xs)
  insert-front [] y rs e = rw e refl
  insert-front (x ∷ xs) y rs e = elim (Ordering-cases (cmp x)) [
    | inl c ↦ rw (c, insert) (rw (insert-front xs y rs e) (over-cons x (insert cmp z xs) y rs))
    | inr (inl c) ↦ rw (c, insert) refl
    | inr (inr c) ↦ rw (c, insert) refl
  ]

  -- What stands before a node that is not behind the new one is before the new one.
  pub before-lt :
      (x : ℕ) (xs : List ℕ) (y : ℕ) (rs : List ℕ)
      → IsOrdered cmp (x ∷ xs ++ y ∷ rs)
      → cmp y ≢ Ordering.gt
      → cmp x ≡ Ordering.lt
  before-lt x xs y rs o n = elim (Ordering-cases (cmp x)) [
    | inl c ↦ c
    | inr (inl c) ↦ absurd (n (All-behind _ xs y rs (o.0 (λ h. cc))))
    | inr (inr c) ↦ absurd (n (All-behind _ xs y rs (o.0 (λ h. cc))))
  ]

  pub insert-behind :
      (xs : List ℕ) (y : ℕ) (rs : List ℕ)
      → IsOrdered cmp (xs ++ y ∷ rs)
      → cmp y ≡ Ordering.lt
      → insert cmp z (xs ++ y ∷ rs) ≡ over (λ ys. xs ++ y ∷ ys) (insert cmp z rs)
  insert-behind [] y rs o e = rw e (over-eta y (insert cmp z rs))
  insert-behind (x ∷ xs) y rs o e =
      rw (before-lt x xs y rs o (λ h. cc))
        (rw (insert-behind xs y rs o.1 e) (over-cons_behind x xs y (insert cmp z rs)))

  pub insert-equal :
      (xs : List ℕ) (y : ℕ) (rs : List ℕ)
      → IsOrdered cmp (xs ++ y ∷ rs)
      → cmp y ≡ Ordering.eq
      → insert cmp z (xs ++ y ∷ rs) ≡ none
  insert-equal [] y rs o e = rw e refl
  insert-equal (x ∷ xs) y rs o e =
      rw (before-lt x xs y rs o (λ h. cc)) (rw (insert-equal xs y rs o.1 e) refl)

  pub IsOrdered-left : (xs ys : List ℕ) → IsOrdered cmp (xs ++ ys) → IsOrdered cmp xs
  IsOrdered-left [] ys o = tt
  IsOrdered-left (x ∷ xs) ys o = (λ h. All-left _ xs ys (o.0 h), IsOrdered-left xs ys o.1)

  pub IsOrdered-right : (xs ys : List ℕ) → IsOrdered cmp (xs ++ ys) → IsOrdered cmp ys
  IsOrdered-right [] ys o = o
  IsOrdered-right (x ∷ xs) ys o = IsOrdered-right xs ys o.1
