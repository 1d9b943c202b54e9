-- ===== src/Vm/Page/Free/Buddy.antt =====
-- The halves that _page_free of vm/page.c joins: the other half of a free segment is a listed one.
use native.Mathlib.Nat.{mul-le-mul_right, mul_assoc, add-mul}
use native.Mathlib.Decide.{dec_lt}
use phoenix_rtos_kernel.Base.{
  ℕ, zero, suc, ◌+◌, ◌-◌, ◌*◌, ◌^◌, ◌≤◌, ◌<◌, ◌≡◌, ◌≢◌, refl, ap, sym, ◌∙◌, inl, inr, true, ◌&&◌,
  List, [], ◌∷◌, ltb, leb, ◌==◌, ==_refl, has, Bool-cases, arith, two_pow_add,
}
use phoenix_rtos_kernel.Vm.Page.{pages_of}
use phoenix_rtos_kernel.Vm.Page.Cover.{covers, cover_below}

-- The first `n` pages are in the order of their addresses, and no two of them overlap.
abbrev pub IsLaid : ℕ → (ℕ → ℕ) → Type 0
IsLaid n addr = (i j : ℕ) → i < j → j < n → addr i + 4096 * (j - i) ≤ addr j

-- A segment of the index is at a multiple of its size, within the pages, and its pages follow each
-- other in memory.
abbrev pub IsMultiple : ℕ → ℕ → Type 0
IsMultiple b x = (a : ℕ) × (x ≡ a * b)

abbrev pub IsSegment : ℕ → (ℕ → ℕ) → ℕ → ℕ → Type 0
IsSegment n addr k h =
    IsMultiple (2 ^ k) (addr h)
    × (h + pages_of k ≤ n)
    × ((j : ℕ) → j < pages_of k → addr (h + j) ≡ addr h + 4096 * j)

-- The free segment that covers a page
covering :
    (k : ℕ) (xs : List ℕ) (i : ℕ)
    → covers k xs i ≢ 0
    → (h : ℕ) × (has xs h ≡ true) × (h ≤ i) × (i < h + pages_of k)
covering k [] i e = absurd (e refl)
covering k (x ∷ xs) i e = elim (Bool-cases (leb x i && ltb i (x + pages_of k))) [
  | inl f ↦ (x, rw (==_refl x) refl, ground arith, ground arith)
  | inr f ↦
      let (h, m, a, b) = covering k xs i (λ g. e (rw f (omega (arith, g)))) in
      (h, (elim (Bool-cases (x == h)) [ inl g ↦ rw g refl | inr g ↦ rw g m ]), a, b)
]

pub covering_below :
    (n : ℕ) (sizes : ℕ → List ℕ) (i : ℕ)
    → cover_below n sizes i ≢ 0
    → (k : ℕ) × (h : ℕ) × (k < n) × (has (sizes k) h ≡ true) × (h ≤ i) × (i < h + pages_of k)
covering_below zero sizes i e = absurd (e refl)
covering_below (suc n) sizes i e = elim (Bool-cases (covers n (sizes n) i == 0)) [
  | inl f ↦
      let (k, h, l, m, a, b) = covering_below n sizes i (λ g. e (ground (arith, g))) in
      (k, h, omega arith, m, a, b)
  | inr f ↦
      let (h, m, a, b) = covering n (sizes n) i (λ g. ground (arith, g)) in
      (n, h, omega arith, m, a, b)
]

-- A multiple is not above another number unless it is above the multiple below that.
multiples : (b a t d : ℕ) → d < b → a * b ≤ t * b + d → a * b ≤ t * b
multiples b a t d l h = elim (dec_lt t a) [
  | yes g ↦
      let more : (t + 1) * b ≤ a * b = mul-le-mul_right b (omega arith) in absurd (omega arith)
  | no g ↦ mul-le-mul_right b (omega arith)
]

-- A block of the size `c * b` that holds a place of a block of the size `b` holds all of it.
pub block_within :
    (b c m t d : ℕ)
    → d < b
    → m * (c * b) ≤ t * b + d
    → t * b + d < m * (c * b) + c * b
    → (m * (c * b) ≤ t * b) × (t * b + b ≤ m * (c * b) + c * b)
block_within b c m t d l lo hi =
    let start : m * (c * b) ≡ (m * c) * b = sym (mul_assoc m c b) in
    let end : m * (c * b) + c * b ≡ (m * c + c) * b = omega (arith, start, add-mul (m * c) c b) in
    (
      omega (arith, start, multiples b (m * c) t d l (omega (arith, start))),
      elim (dec_lt t (m * c + c)) [
        | yes g ↦
            let more : (t + 1) * b ≤ (m * c + c) * b = mul-le-mul_right b (omega arith) in
            omega (arith, end, add-mul t 1 b)
        | no g ↦
            let more : (m * c + c) * b ≤ t * b = mul-le-mul_right b (omega arith) in
            absurd (omega (arith, end))
      ],
    )

-- A multiple that is less than the size behind another one is that one.
pub same_block : (b a t j : ℕ) → j < b → t * b ≡ a * b + j → j ≡ 0
same_block b a t j l e = omega (arith, multiples b t a j l (omega arith))

pub pages_whole : (k : ℕ) → 12 ≤ k → 2 ^ k ≡ 4096 * pages_of k
pages_whole k h =
    let e : k ≡ 12 + (k - 12) = omega arith in
    let w : 2 ^ k ≡ 4096 * 2 ^ (k - 12) = ap (λ (t : ℕ). 2 ^ t) e ∙ two_pow_add 12 (k - 12) in
    omega (arith, w)

module _ (n : ℕ) (addr : ℕ → ℕ) (laid : IsLaid n addr) where
  -- Two pages at one address are one.
  pub addr-injective : (i j : ℕ) → i < n → j < n → addr i ≡ addr j → i ≡ j
  addr-injective i j a b e = elim (dec_lt i j) [
    | yes l ↦ absurd (omega (arith, laid i j l b))
    | no g ↦ elim (dec_lt j i) [
      | yes l ↦ absurd (omega (arith, laid j i l a))
      | no g' ↦ omega arith
    ]
  ]
