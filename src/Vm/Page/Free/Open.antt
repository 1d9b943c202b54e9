-- ===== src/Vm/Page/Free/Open.antt =====
-- The pool of vm/page.c while _page_free has a segment in hand.
use mathlib.Core.Path.{subst}
use native.Mathlib.Nat.{pow-suc, mul_assoc, mul_left_comm}
use mathlib.Core.Bool.{false≢true}
use native.Mathlib.Decide.{dec_lt}
use phoenix_rtos_kernel.Base.{
  ℕ, suc, ◌+◌, ◌-◌, ◌*◌, ◌/◌, ◌%◌, ◌^◌, ◌≤◌, ◌<◌, ◌≡◌, ap, sym, ◌∙◌, ◌⊎◌, inl, inr, true, List, [],
  ◌∷◌, ◌==◌, has, All, Bool-cases, arith, two_pow_add, two_pow_pos,
}
use phoenix_rtos_kernel.Vm.Page.{Pages, pages_of, size_vm_sizes}
use phoenix_rtos_kernel.Vm.Page.Cover.{inside, covers, cover_below, cover-le, pages_of-pos}
use phoenix_rtos_kernel.Vm.Page.Free.Buddy.{
  IsLaid, IsMultiple, IsSegment, covering_below, block_within, same_block, pages_whole,
  addr-injective,
}

inside_self : (k x : ℕ) → 0 < pages_of k → inside k x x ≡ 1
inside_self k x h = ground arith

pub All-at : (P : ℕ → Type 0) (xs : List ℕ) (h : ℕ) → All P xs → has xs h ≡ true → P h
All-at P [] h a e = absurd (ground arith)
All-at P (x ∷ xs) h a e = elim (Bool-cases (x == h)) [
  | inl f ↦ let q : x ≡ h = ground arith in subst P q a.0
  | inr f ↦ All-at P xs h a.1 (rw f at e)
]

-- All free pages but those of the segment `x` of index `k` are in one listed segment each.
pub record IsOpen (s : Pages) (n k x : ℕ) : Type 0 where
  pub laid : IsLaid n s.addr
  pub counted : (i : ℕ) → cover_below size_vm_sizes s.sizes i + inside k x i ≡ s.flags i % 2
  pub heads : (j : ℕ) → j < size_vm_sizes → All (λ y. s.idx y ≡ j) (s.sizes j)
  pub least : (j : ℕ) → j < 12 → s.sizes j ≡ []
  pub segments : (j : ℕ) → j < size_vm_sizes → All (IsSegment n s.addr j) (s.sizes j)
  pub above : 12 ≤ k
  pub index : s.idx x ≡ k
  pub segment : IsSegment n s.addr k x

covers-in :
    (j : ℕ) (xs : List ℕ) (h i : ℕ)
    → has xs h ≡ true
    → h ≤ i
    → i < h + pages_of j
    → 0 < covers j xs i
covers-in j [] h i e a b = absurd (ground arith)
covers-in j (y ∷ ys) h i e a b = elim (Bool-cases (y == h)) [
  | inl f ↦ let q : y ≡ h = ground arith in ground arith
  | inr f ↦ omega (arith, covers-in j ys h i (rw f at e) a b)
]

module _ (s : Pages) (n k x : ℕ) (pool : IsOpen s n k x) where
  -- The page at an address within a segment
  page_at :
      (j h y : ℕ)
      → 12 ≤ j
      → IsSegment n s.addr j h
      → y < n
      → s.addr h ≤ s.addr y
      → s.addr y < s.addr h + 2 ^ j
      → (s.addr y - s.addr h) % 4096 ≡ 0
      → (h ≤ y) × (y < h + pages_of j)
  page_at j h y big (m, within, follows) small lo hi whole =
      let d : ℕ = (s.addr y - s.addr h) / 4096 in
      let near : d < pages_of j = omega (arith, pages_whole j big) in
      let same : s.addr y ≡ s.addr (h + d) = omega (arith, follows d near) in
      let found : y ≡ h + d =
        addr-injective n s.addr pool.laid y (h + d) small (omega arith) same in
      (omega arith, omega arith)

  -- No page of the segment in hand is in a listed one.
  in_hand :
      (j h : ℕ) → j < size_vm_sizes → has (s.sizes j) h ≡ true → h ≤ x → x < h + pages_of j → ⊥
  in_hand j h l m a b = omega (
    arith,
    covers-in j (s.sizes j) h x m a b,
    cover-le size_vm_sizes s.sizes j x l,
    pool.counted x,
    pages_of-pos k pool.above,
    inside_self k x (pages_of-pos k pool.above),
  )

  whole_pages : (j y : ℕ) → 12 ≤ j → IsMultiple (2 ^ j) y → y % 4096 ≡ 0
  whole_pages j y big (m, e) =
      let f : y ≡ m * (4096 * pages_of j) = e ∙ ap (λ (w : ℕ). m * w) (pages_whole j big) in
      omega (arith, f ∙ mul_left_comm m 4096 (pages_of j))

  abbrev pub size_both : ℕ
  size_both = 2 ^ (k + 1)

  both_halves : size_both ≡ 2 ^ k + 2 ^ k
  both_halves =
      let e : k + 1 ≡ suc k = omega arith in ap (λ (w : ℕ). 2 ^ w) e ∙ omega (arith, pow-suc 2 k)

  abbrev pub AreHalves : ℕ → ℕ → Type 0
  AreHalves o t =
      ((s.addr x ≡ t * size_both) × (s.addr o ≡ t * size_both + 2 ^ k))
      ⊎ ((s.addr o ≡ t * size_both) × (s.addr x ≡ t * size_both + 2 ^ k))

  -- How far the two are from the start of both
  offsets :
      (o t : ℕ)
      → AreHalves o t
      → (d : ℕ) × (e : ℕ) × (d < size_both)
        × (e < size_both)
        × (s.addr o ≡ t * size_both + d)
        × (s.addr x ≡ t * size_both + e)
  offsets o t (inl (f, g)) = (
    2 ^ k,
    0,
    omega (arith, both_halves, two_pow_pos k),
    omega (arith, both_halves, two_pow_pos k),
    g,
    omega (arith, f),
  )
  offsets o t (inr (f, g)) = (
    0,
    2 ^ k,
    omega (arith, both_halves, two_pow_pos k),
    omega (arith, both_halves, two_pow_pos k),
    omega (arith, f),
    g,
  )

  -- A larger listed segment with the other half would hold the segment in hand.
  larger_half :
      (j h o t : ℕ)
      → j < size_vm_sizes
      → has (s.sizes j) h ≡ true
      → h ≤ o
      → o < h + pages_of j
      → IsSegment n s.addr j h
      → k < j
      → AreHalves o t
      → ⊥
  larger_half j h o t l m a b seg larger halves =
      let (mm, at) = seg.0 in
      let big : 12 ≤ j = omega (arith, pool.above) in
      let c : ℕ = 2 ^ (j - (k + 1)) in
      let size : 2 ^ j ≡ c * size_both =
        (let e : j ≡ (j - (k + 1)) + (k + 1) = omega arith in
          ap (λ (w : ℕ). 2 ^ w) e ∙ two_pow_add (j - (k + 1)) (k + 1)) in
      let start : s.addr h ≡ mm * (c * size_both) = at ∙ ap (λ (w : ℕ). mm * w) size in
      let place : s.addr o ≡ s.addr h + 4096 * (o - h) =
        (let e : o ≡ h + (o - h) = omega arith in ap s.addr e ∙ seg.2 (o - h) (omega arith)) in
      let (d, e, dl, el, od, xe) = offsets o t halves in
      let (lo, hi) =
        block_within size_both c mm t d dl (omega (arith, start, place, od))
          (omega (arith, start, place, od, size, pages_whole j big)) in
      let (ha, hb) =
        page_at j h x big seg (omega (arith, pool.segment.1, pages_of-pos k pool.above))
          (omega (arith, start, xe, lo)) (omega (arith, start, xe, hi, size))
          (omega (
            arith,
            whole_pages j (s.addr h) big seg.0,
            whole_pages k (s.addr x) pool.above pool.segment.0,
          )) in
      in_hand j h l m ha hb

  -- A listed segment that is not larger starts at the other half, and so has its index.
  smaller_half :
      (j h o : ℕ)
      → j < size_vm_sizes
      → has (s.sizes j) h ≡ true
      → h ≤ o
      → o < h + pages_of j
      → IsSegment n s.addr j h
      → 12 ≤ j
      → j ≤ k
      → s.idx o ≡ k
      → IsMultiple (2 ^ k) (s.addr o)
      → has (s.sizes k) o ≡ true
  smaller_half j h o l m a b seg big le index multiple =
      let (mh, at) = seg.0 in
      let (mo, ot) = multiple in
      let size : 2 ^ k ≡ 2 ^ (k - j) * 2 ^ j =
        (let e : k ≡ (k - j) + j = omega arith in
          ap (λ (w : ℕ). 2 ^ w) e ∙ two_pow_add (k - j) j) in
      let other : s.addr o ≡ (mo * 2 ^ (k - j)) * 2 ^ j =
        ot ∙ ap (λ (w : ℕ). mo * w) size ∙ sym (mul_assoc mo (2 ^ (k - j)) (2 ^ j)) in
      let place : s.addr o ≡ s.addr h + 4096 * (o - h) =
        (let e : o ≡ h + (o - h) = omega arith in ap s.addr e ∙ seg.2 (o - h) (omega arith)) in
      let none_between : 4096 * (o - h) ≡ 0 =
        same_block (2 ^ j) mh (mo * 2 ^ (k - j)) (4096 * (o - h)) (omega (arith, pages_whole j big))
          (omega (arith, other, place, at)) in
      let same : h ≡ o = omega arith in
      let indices : j ≡ k =
        sym (All-at (λ y. s.idx y ≡ j) (s.sizes j) h (pool.heads j l) m) ∙ ap s.idx same ∙ index in
      subst (λ i. has (s.sizes i) o ≡ true) indices (subst (λ y. has (s.sizes j) y ≡ true) same m)

  -- The other half of the segment in hand, when it is free and has the same index, is a listed segment.
  pub other_half-listed :
      (o t : ℕ)
      → o < n
      → s.flags o % 2 ≡ 1
      → inside k x o ≡ 0
      → s.idx o ≡ k
      → IsMultiple (2 ^ k) (s.addr o)
      → AreHalves o t
      → has (s.sizes k) o ≡ true
  other_half-listed o t small free out index multiple halves =
      let (j, h, l, m, a, b) =
        covering_below size_vm_sizes s.sizes o (λ e. omega (arith, pool.counted o)) in
      elim (dec_lt j 12) [
        | yes g ↦ absurd (false≢true (ap (λ xs. has xs h) (sym (pool.least j g)) ∙ m))
        | no g ↦
            let seg = All-at (IsSegment n s.addr j) (s.sizes j) h (pool.segments j l) m in
            elim (dec_lt k j) [
              | yes larger ↦ absurd (larger_half j h o t l m a b seg larger halves)
              | no le ↦ smaller_half j h o l m a b seg (omega arith) (omega arith) index multiple
            ]
      ]
