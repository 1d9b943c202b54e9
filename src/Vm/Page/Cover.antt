-- ===== src/Vm/Page/Cover.antt =====
-- The pool invariant of the page allocator: how many free segments cover a page.
use native.Mathlib.Nat.{pow-suc}
use native.Mathlib.Decide.{dec_lt}
use phoenix_rtos_kernel.Base.{
  ℕ, zero, suc, ◌+◌, ◌-◌, ◌*◌, ◌%◌, ◌^◌, ◌≤◌, ◌<◌, ◌≡◌, refl, ap, true, false, ◌&&◌, List, [], ◌∷◌,
  ltb, leb, ◌==◌, if◌then◌else◌, upd, list_add, list_remove, has, All, arith, ==_refl, Bool-cases,
  inl, inr, two_pow_add, two_pow_pos, sym, ◌∙◌,
}
use phoenix_rtos_kernel.Vm.Page.{Pages, pages_of, size_vm_sizes}

-- 1 if page `i` lies in the segment of index `k` that starts at page `p`, and 0 otherwise
abbrev pub inside : ℕ → ℕ → ℕ → ℕ
inside k p i = if leb p i && ltb i (p + pages_of k) then 1 else 0

abbrev pub covers : ℕ → List ℕ → ℕ → ℕ
covers k [] i = 0
covers k (p ∷ ps) i = inside k p i + covers k ps i

-- The number of segments of index below `n` that hold page `i`
abbrev pub cover_below : ℕ → (ℕ → List ℕ) → ℕ → ℕ
cover_below zero sizes i = 0
cover_below (suc n) sizes i = covers n (sizes n) i + cover_below n sizes i

-- A page is marked free exactly when one free segment holds it, and no page is in two; every free
-- segment is as large as its first page says, and holds at least one page.
pub record IsPool (p : Pages) : Type 0 where
  pub counted : (i : ℕ) → cover_below size_vm_sizes p.sizes i ≡ p.flags i % 2
  pub heads : (k : ℕ) → k < size_vm_sizes → All (λ x. p.idx x ≡ k) (p.sizes k)
  pub least : (k : ℕ) → k < 12 → p.sizes k ≡ []

pub covers-add :
    (k : ℕ) (xs : List ℕ) (x i : ℕ) → covers k (list_add xs x) i ≡ covers k xs i + inside k x i
covers-add k [] x i = omega arith
covers-add k (y ∷ ys) x i = omega (arith, covers-add k ys x i)

pub covers-remove :
    (k : ℕ) (xs : List ℕ) (x i : ℕ)
    → has xs x ≡ true
    → covers k (list_remove xs x) i + inside k x i ≡ covers k xs i
covers-remove k [] x i h = ground arith
covers-remove k (y ∷ ys) x i h = ground (arith, covers-remove k ys x i)

-- Replacing one list changes the count by that list's.
upd-above :
    (n : ℕ) (sizes : ℕ → List ℕ) (k : ℕ) (xs : List ℕ) (i : ℕ)
    → n ≤ k
    → cover_below n (upd sizes k xs) i ≡ cover_below n sizes i
upd-above zero sizes k xs i h = refl
upd-above (suc n) sizes k xs i h =
    let other : (n == k) ≡ false = ground arith in
    rw (other, upd-above n sizes k xs i (omega arith))

pub cover-upd :
    (n : ℕ) (sizes : ℕ → List ℕ) (k : ℕ) (xs : List ℕ) (i : ℕ)
    → k < n
    → cover_below n (upd sizes k xs) i + covers k (sizes k) i
      ≡ cover_below n sizes i + covers k xs i
cover-upd zero sizes k xs i h = absurd (omega arith)
cover-upd (suc n) sizes k xs i h = elim (dec_lt k n) [
  | yes l ↦
      let other : (n == k) ≡ false = ground arith in
      rw other (omega (arith, cover-upd n sizes k xs i l))
  | no g ↦
      let e : n ≡ k = omega arith in
      rw (e, ==_refl k) (omega (arith, upd-above k sizes k xs i (omega arith)))
]

-- The first page of a listed segment is covered.
pub covers-pos :
    (k : ℕ) (xs : List ℕ) (x : ℕ) → has xs x ≡ true → 0 < pages_of k → 0 < covers k xs x
covers-pos k [] x h p = ground arith
covers-pos k (y ∷ ys) x h p = ground (arith, covers-pos k ys x)

pub cover-le :
    (n : ℕ) (sizes : ℕ → List ℕ) (k i : ℕ) → k < n → covers k (sizes k) i ≤ cover_below n sizes i
cover-le zero sizes k i h = absurd (omega arith)
cover-le (suc n) sizes k i h = elim (dec_lt k n) [
  | yes l ↦ omega (arith, cover-le n sizes k i l)
  | no g ↦ let e : n ≡ k = omega arith in rw e (omega arith)
]

pages_whole : (k : ℕ) → 12 ≤ k → 2 ^ k ≡ 4096 * 2 ^ (k - 12)
pages_whole k h =
    let e : k ≡ 12 + (k - 12) = omega arith in ap (λ (t : ℕ). 2 ^ t) e ∙ two_pow_add 12 (k - 12)

-- A segment of index 12 or more has a page.
pub pages_of-pos : (k : ℕ) → 12 ≤ k → 0 < pages_of k
pages_of-pos k h = omega (arith, pages_whole k h, two_pow_pos (k - 12))

-- Two halves make up a segment.
pub pages_of-halves : (k : ℕ) → 12 ≤ k → pages_of (suc k) ≡ pages_of k + pages_of k
pages_of-halves k h = omega (arith, pages_whole k h, pow-suc 2 k)

pub All-remove : (P : ℕ → Type 0) (xs : List ℕ) (x : ℕ) → All P xs → All P (list_remove xs x)
All-remove P [] x h = h
All-remove P (y ∷ ys) x h = elim (Bool-cases (y == x)) [
  | inl e ↦ rw e h.1
  | inr e ↦ rw e (h.0, All-remove P ys x h.1)
]

pub All-has :
    (f : ℕ → ℕ) (k : ℕ) (xs : List ℕ) (x : ℕ) → All (λ y. f y ≡ k) xs → has xs x ≡ true → f x ≡ k
All-has f k [] x h e = ground arith
All-has f k (y ∷ ys) x h e = elim (Bool-cases (y == x)) [
  | inl same ↦ let q : y ≡ x = ground arith in ap f (sym q) ∙ h.0
  | inr other ↦ All-has f k ys x h.1 (rw other at e)
]

-- Writing the index of a page that is in no list of the segment's size leaves that list's pages.
pub All-upd :
    (f : ℕ → ℕ) (k a v : ℕ) (xs : List ℕ)
    → All (λ y. f y ≡ k) xs
    → has xs a ≡ false
    → All (λ y. upd f a v y ≡ k) xs
All-upd f k a v [] h e = h
All-upd f k a v (y ∷ ys) h e = elim (Bool-cases (y == a)) [
  | inl same ↦ ground arith
  | inr other ↦ (rw other h.0, All-upd f k a v ys h.1 (rw other at e))
]
