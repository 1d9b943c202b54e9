-- ===== src/Klib/Clist/Ring.antt =====
-- A circular list stands for the sequence of its elements.
use phoenix_rtos_kernel.Base.{ℕ, ◌≡◌, sym, ◌≢◌, ◌∙◌, List, [], ◌∷◌, ◌++◌}
use phoenix_rtos_kernel.Klib.Clist.{Links}

-- From `p` the `next` fields lead through `xs` to `q`, and the `prev` fields lead back.
abbrev pub Linked : Links → ℕ → List ℕ → ℕ → Type 0
Linked s p [] q = (s.next p ≡ q) × (s.prev q ≡ p)
Linked s p (x ∷ xs) q = (s.next p ≡ x) × (s.prev x ≡ p) × Linked s x xs q

-- `a` is not among `xs`.
abbrev pub NotIn : ℕ → List ℕ → Type 0
NotIn a [] = Unit
NotIn a (x ∷ xs) = (a ≢ x) × NotIn a xs

-- No element is NULL, and none occurs twice.
abbrev pub Distinct : List ℕ → Type 0
Distinct [] = Unit
Distinct (x ∷ xs) = (x ≢ 0) × NotIn x xs × Distinct xs

-- `*list` is `head`, and the list holds `xs`, the first of them at the head.
abbrev pub IsRing : Links → ℕ → List ℕ → Type 0
IsRing s head [] = head ≡ 0
IsRing s head (x ∷ xs) = (head ≡ x) × Distinct (x ∷ xs) × Linked s x xs x

pub NotIn-append : (a : ℕ) (xs ys : List ℕ) → NotIn a xs → NotIn a ys → NotIn a (xs ++ ys)
NotIn-append a [] ys h k = k
NotIn-append a (x ∷ xs) ys h k = (h.0, NotIn-append a xs ys h.1 k)

pub Distinct-snoc :
    (xs : List ℕ) (t : ℕ) → Distinct xs → NotIn t xs → t ≢ 0 → Distinct (xs ++ (t ∷ []))
Distinct-snoc [] t d n z = (z, tt, tt)
Distinct-snoc (x ∷ xs) t d n z =
    (d.0, NotIn-append x xs (t ∷ []) d.1 (λ e. n.0 (sym e), tt), Distinct-snoc xs t d.2 n.1 z)

-- What stands before the end of a chain is one of its elements.
pub prev-NotIn :
    (s : Links) (p : ℕ) (xs : List ℕ) (q a : ℕ)
    → Linked s p xs q
    → a ≢ p
    → NotIn a xs
    → a ≢ s.prev q
prev-NotIn s p [] q a l h n = λ e. h (e ∙ l.1)
prev-NotIn s p (x ∷ xs) q a l h n = prev-NotIn s x xs q a l.2 n.0 n.1

-- The same at the front: the first element, `s.next p`, or the end.
pub next-NotIn :
    (s : Links) (p : ℕ) (xs : List ℕ) (q a : ℕ)
    → Linked s p xs q
    → a ≢ q
    → NotIn a xs
    → a ≢ s.next p
next-NotIn s p [] q a l h n = λ e. h (e ∙ l.0)
next-NotIn s p (x ∷ xs) q a l h n = λ e. n.0 (e ∙ l.0)

-- A chain survives changes of other fields.
pub Linked-frame :
    (s s' : Links) (p : ℕ) (xs : List ℕ) (q a b : ℕ)
    → ((y : ℕ) → y ≢ a → s'.next y ≡ s.next y)
    → ((y : ℕ) → y ≢ b → s'.prev y ≡ s.prev y)
    → a ≢ p
    → NotIn a xs
    → b ≢ q
    → NotIn b xs
    → Linked s p xs q
    → Linked s' p xs q
Linked-frame s s' p [] q a b f g ap na bq nb l =
    (f p (λ e. ap (sym e)) ∙ l.0, g q (λ e. bq (sym e)) ∙ l.1)
Linked-frame s s' p (x ∷ xs) q a b f g ap na bq nb l = (
  f p (λ e. ap (sym e)) ∙ l.0,
  g x (λ e. nb.0 (sym e)) ∙ l.1,
  Linked-frame s s' x xs q a b f g na.0 na.1 bq nb.1 l.2,
)
