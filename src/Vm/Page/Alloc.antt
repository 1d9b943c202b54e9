-- ===== src/Vm/Page/Alloc.antt =====
-- What _page_alloc returns, and what it does to the pool.
use native.Mathlib.Decide.{dec_lt}
use phoenix_rtos_kernel.Base.{
  ℕ, ◌+◌, ◌%◌, ◌^◌, ◌≤◌, ◌<◌, ◌≡◌, ◌⊎◌, true, none, has, arith, inl, inr, is_empty, bit_and, bit_or,
}
use phoenix_rtos_kernel.Vm.SizeIndex.{}
use phoenix_rtos_kernel.Vm.Page.{
  Pages, pages_of, size_vm_sizes, page_order, find_segment, mark_allocated, page_alloc,
}
use phoenix_rtos_kernel.Vm.Page.Cover.{IsPool, inside}
use phoenix_rtos_kernel.Vm.Page.Split.{cover-rest, rest}
use phoenix_rtos_kernel.Vm.Page.Search.{find-bounds, find-empty, find-nonempty, page_order-lt}

-- The segment taken off the pool, and its pages marked.
module _ (p : Pages) (k lh flags : ℕ) (pool : IsPool p) (above : 12 ≤ k) (below : k < size_vm_sizes)
    (listed : has (p.sizes k) lh ≡ true) (even : flags % 2 ≡ 0) where
  abbrev taken : Pages
  taken = record p { sizes = rest p k lh pool above below listed }

  abbrev marked : Pages
  marked = mark_allocated (pages_of k) taken lh flags

  -- The pages of the segment were free, all of them.
  were_free : (j : ℕ) → lh ≤ j → j < lh + pages_of k → p.flags j % 2 ≡ 1
  were_free j a b =
      let in_it : inside k lh j ≡ 1 = ground arith in
      omega (arith, in_it, cover-rest p k lh pool above below listed j)

-- A run that returns a segment, taken apart.
module _ (size flags : ℕ) (p : Pages) where
  abbrev first_index : ℕ
  first_index = page_order size

  abbrev found : ℕ
  found = find_segment size_vm_sizes p.sizes first_index

none-parts :
    (size flags : ℕ) (p p' : Pages)
    → page_alloc size flags p ≡ (none, p')
    → (p' ≡ p)
      × ((found size flags p ≡ size_vm_sizes) ⊎ (is_empty (p.sizes (found size flags p)) ≡ true))
unfolding page_alloc
none-parts size flags p p' e = ground arith

-- What holds of the pool `p'` that is left when the segment at `lh` has been given out.
pub record Gives (size flags : ℕ) (p : Pages) (lh : ℕ) (p' : Pages) : Type 0 where
  pub pool : IsPool p'
  pub enough : size ≤ 2 ^ p'.idx lh
  pub were_free : (j : ℕ) → lh ≤ j → j < lh + pages_of (p'.idx lh) → p.flags j % 2 ≡ 1
  pub now_used :
      (j : ℕ)
      → lh ≤ j
      → j < lh + pages_of (p'.idx lh)
      → p'.flags j ≡ bit_or (bit_and (p.flags j) 0xfe) flags
  pub others : (j : ℕ) → j < lh ⊎ lh + pages_of (p'.idx lh) ≤ j → p'.flags j ≡ p.flags j

module _ (s : Pages) (size k lh flags : ℕ) (pool : IsPool s) (above : 12 ≤ k)
    (below : k < size_vm_sizes) (listed : has (s.sizes k) lh ≡ true) (even : flags % 2 ≡ 0)
    (holds : size ≤ 2 ^ k) where
  abbrev out : Pages
  out = marked s k lh flags pool above below listed even

-- `_page_alloc` of a size up to 2^31 fails only when no segment of the size's index or above it is
-- free, and then it changes nothing.
pub page_alloc-none :
    (size flags : ℕ) (p p' : Pages) (k : ℕ)
    → size ≤ 2 ^ 31
    → page_alloc size flags p ≡ (none, p')
    → page_order size ≤ k
    → k < size_vm_sizes
    → (p' ≡ p) × (is_empty (p.sizes k) ≡ true)
page_alloc-none size flags p p' k small e from to =
    let (same, cause) = none-parts size flags p p' e in
    let in_range : page_order size < size_vm_sizes = page_order-lt size small in
    let bounds = find-bounds size_vm_sizes p.sizes (page_order size) (omega arith) (omega arith) in
    let searched : found size flags p ≡ size_vm_sizes = elim cause [
      | inl end ↦ end
      | inr empty ↦ elim (dec_lt (found size flags p) size_vm_sizes) [
        | no g ↦ omega (arith, bounds.1)
        | yes l ↦
            let full = find-nonempty size_vm_sizes p.sizes (page_order size) (omega arith) l in
            absurd (ground arith)
      ]
    ] in
    (same, find-empty size_vm_sizes p.sizes (page_order size) k (omega arith) from (omega arith))
