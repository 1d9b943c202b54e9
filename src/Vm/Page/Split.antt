-- ===== src/Vm/Page/Split.antt =====
-- The loop of _page_alloc in vm/page.c that splits a segment, and the pages of its halves.
use native.Mathlib.Decide.{dec_lt}
use phoenix_rtos_kernel.Base.{
  ℕ, zero, suc, ◌+◌, ◌-◌, ◌%◌, ◌≤◌, ◌<◌, ◌≡◌, refl, ap, ◌∙◌, true, false, List, [], ◌==◌, upd,
  list_add, list_remove, has, has-add, All, All-add, arith, Bool-cases, inl, inr, ==_refl,
}
use phoenix_rtos_kernel.Vm.Page.{Pages, pages_of, size_vm_sizes, split_once, split}
use phoenix_rtos_kernel.Vm.Page.Cover.{
  IsPool, inside, cover_below, covers-add, covers-remove, cover-upd, covers-pos, cover-le,
  pages_of-pos, pages_of-halves, All-remove, All-has, All-upd,
}

-- What is listed when the segment `lh` of index `k` is taken off.
module _ (p : Pages) (k lh : ℕ) (pool : IsPool p) (above : 12 ≤ k) (below : k < size_vm_sizes)
    (listed : has (p.sizes k) lh ≡ true) where
  abbrev pub rest : ℕ → List ℕ
  rest = upd p.sizes k (list_remove (p.sizes k) lh)

  pub idx-listed : p.idx lh ≡ k
  idx-listed = All-has p.idx k (p.sizes k) lh (pool.heads k below) listed

  pub cover-rest : (i : ℕ) → cover_below size_vm_sizes rest i + inside k lh i ≡ p.flags i % 2
  cover-rest i = omega (
    arith,
    cover-upd size_vm_sizes p.sizes k (list_remove (p.sizes k) lh) i below,
    covers-remove k (p.sizes k) lh i listed,
    pool.counted i,
  )

  pub rest-least : (j : ℕ) → j < 12 → rest j ≡ []
  rest-least j h = let other : (j == k) ≡ false = ground arith in rw other (pool.least j h)

  pub rest-heads : (j : ℕ) → j < size_vm_sizes → All (λ x. p.idx x ≡ j) (rest j)
  rest-heads j h = elim (Bool-cases (j == k)) [
    | inl e ↦
        let q : j ≡ k = ground arith in
        rw (e, q) (All-remove (λ x. p.idx x ≡ k) (p.sizes k) lh (pool.heads k below))
    | inr e ↦ rw e (pool.heads j h)
  ]

  -- No page of the segment heads another one.
  not_listed : (j i : ℕ) → j < size_vm_sizes → inside k lh i ≡ 1 → has (rest j) i ≡ false
  not_listed j i h e = elim (Bool-cases (has (rest j) i)) [
    | inr out ↦ out
    | inl in_list ↦ elim (dec_lt j 12) [
      | yes small ↦ ap (λ (xs : List ℕ). has xs i) (rest-least j small)
      | no big ↦ absurd (
          omega (
            arith,
            covers-pos j (rest j) i in_list (pages_of-pos j (omega arith)),
            cover-le size_vm_sizes rest j i h,
            cover-rest i,
          ))
    ]
  ]

module _ (p : Pages) (k lh : ℕ) (pool : IsPool p) (above : 12 ≤ k) (below : suc k < size_vm_sizes)
    (listed : has (p.sizes (suc k)) lh ≡ true) where
  abbrev rh : ℕ
  rh = lh + pages_of k

  abbrev sizes' : ℕ → List ℕ
  sizes' = rest p (suc k) lh pool (omega arith) below listed

  abbrev after : ℕ → List ℕ
  after = upd sizes' k (list_add (list_add (sizes' k) lh) rh)

  abbrev idx' : ℕ → ℕ
  idx' = upd (upd p.idx lh k) rh k

  abbrev halves : Pages
  halves = record p { sizes = after; idx = idx' }

  split_once-halves : split_once p (suc k) lh ≡ halves
  unfolding split_once
  split_once-halves =
      let half : p.idx lh - 1 ≡ k =
        ap (λ (t : ℕ). t - 1) (idx-listed p (suc k) lh pool (omega arith) below listed)
        ∙ omega arith in
      let stop : suc k - 1 ≡ k = omega arith in rw (half, stop)

  halves-counted : (i : ℕ) → cover_below size_vm_sizes after i ≡ p.flags i % 2
  halves-counted i =
      let whole : inside (suc k) lh i ≡ inside k lh i + inside k rh i =
        ground (arith, pages_of-halves k above) in
      omega (
        arith,
        whole,
        cover-upd size_vm_sizes sizes' k (list_add (list_add (sizes' k) lh) rh) i (omega arith),
        covers-add k (list_add (sizes' k) lh) rh i,
        covers-add k (sizes' k) lh i,
        cover-rest p (suc k) lh pool (omega arith) below listed i,
      )

  lh-inside : inside (suc k) lh lh ≡ 1
  lh-inside = ground (arith, pages_of-pos (suc k) (omega arith))

  rh-inside : inside (suc k) lh rh ≡ 1
  rh-inside = ground (arith, pages_of-pos k above, pages_of-halves k above)

  old-heads : (j : ℕ) → j < size_vm_sizes → All (λ x. idx' x ≡ j) (sizes' j)
  old-heads j h =
      All-upd (upd p.idx lh k) j rh k (sizes' j)
        (All-upd p.idx j lh k (sizes' j)
          (rest-heads p (suc k) lh pool (omega arith) below listed j h)
          (not_listed p (suc k) lh pool (omega arith) below listed j lh h lh-inside))
        (not_listed p (suc k) lh pool (omega arith) below listed j rh h rh-inside)

  halves-heads : (j : ℕ) → j < size_vm_sizes → All (λ x. idx' x ≡ j) (after j)
  halves-heads j h = elim (Bool-cases (j == k)) [
    | inr e ↦ rw e (old-heads j h)
    | inl e ↦
        let q : j ≡ k = ground arith in
        rw (e, q)
          (All-add (λ x. idx' x ≡ k) (list_add (sizes' k) lh) rh
            (All-add (λ x. idx' x ≡ k) (sizes' k) lh (old-heads k (omega arith)) (ground arith))
            (ground arith))
  ]

  halves-least : (j : ℕ) → j < 12 → after j ≡ []
  halves-least j h =
      let other : (j == k) ≡ false = ground arith in
      rw other (rest-least p (suc k) lh pool (omega arith) below listed j h)

  listed-half : has (after k) lh ≡ true
  listed-half =
      rw (==_refl k)
        (ground (arith, has-add (list_add (sizes' k) lh) rh lh, has-add (sizes' k) lh lh))

  -- One split leaves a pool, with the lower half listed at its new size.
  pub split_once-IsPool :
      IsPool (split_once p (suc k) lh)
      × (has ((split_once p (suc k) lh).sizes k) lh ≡ true)
      × ((split_once p (suc k) lh).flags ≡ p.flags)
  split_once-IsPool = rw split_once-halves (
    record { counted = halves-counted; heads = halves-heads; least = halves-least },
    listed-half,
    refl,
  )

split_once-at :
    (p : Pages) (m lh : ℕ)
    → IsPool p
    → 12 < m
    → m < size_vm_sizes
    → has (p.sizes m) lh ≡ true
    → IsPool (split_once p m lh)
      × (has ((split_once p m lh).sizes (m - 1)) lh ≡ true)
      × ((split_once p m lh).flags ≡ p.flags)
split_once-at p zero lh pool above below listed = absurd (omega arith)
split_once-at p (suc m) lh pool above below listed =
    let d : suc m - 1 ≡ m = omega arith in
    let once = split_once-IsPool p m lh pool (omega arith) below listed in
    (once.0, rw d once.1, once.2)

-- So does the loop, from `m` down to any index from 12 on.
pub split-IsPool :
    (n : ℕ) (p : Pages) (m k lh : ℕ)
    → IsPool p
    → 12 ≤ k
    → m ≡ n + k
    → m < size_vm_sizes
    → has (p.sizes m) lh ≡ true
    → IsPool (split n p m lh)
      × (has ((split n p m lh).sizes k) lh ≡ true)
      × ((split n p m lh).flags ≡ p.flags)
unfolding split
split-IsPool zero p m k lh pool above e below listed =
    let same : m ≡ k = omega arith in (pool, rw same at listed, refl)
split-IsPool (suc n) p m k lh pool above e below listed =
    let once = split_once-at p m lh pool (omega arith) below listed in
    let more =
      split-IsPool n (split_once p m lh) (m - 1) k lh once.0 above (omega arith) (omega arith)
        once.1 in
    (more.0, more.1, more.2 ∙ once.2)
