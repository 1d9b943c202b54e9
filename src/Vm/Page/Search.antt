-- ===== src/Vm/Page/Search.antt =====
-- The loops of _page_alloc: the search for a segment, and the marking of its pages.
use native.Mathlib.Decide.{dec_lt}
use phoenix_rtos_kernel.Base.{
  ℕ, zero, suc, ◌+◌, ◌-◌, ◌%◌, ◌^◌, ◌≤◌, ◌<◌, ◌≡◌, refl, true, false, List, ltb, leb, ◌&&◌,
  if◌then◌else◌, upd, arith, Bool-cases, inl, inr, is_empty, bit_and, bit_or, two_pow_mono,
}
use phoenix_rtos_kernel.Vm.SizeIndex.{size_index, size_index_lem}
use phoenix_rtos_kernel.Vm.Page.{
  Pages, size_vm_sizes, size_page, page_order, find_segment, mark_allocated,
}
use phoenix_rtos_kernel.Vm.Page.Cover.{}
use phoenix_rtos_kernel.Vm.Page.Split.{}

abbrev mark_one : Pages → ℕ → ℕ → Pages
mark_one p i flags = record p {
  flags = upd p.flags i (bit_or (bit_and (p.flags i) 0xfe) flags);
  freesz = (p.freesz + 2 ^ 64 - size_page) % 2 ^ 64;
  allocsz = (p.allocsz + size_page) % 2 ^ 64;
}

-- The loop that marks pages: which it changes, and to what.
pub mark-flags :
    (n : ℕ) (p : Pages) (i flags j : ℕ)
    → (mark_allocated n p i flags).flags j
      ≡ (if leb i j && ltb j (i + n) then bit_or (bit_and (p.flags j) 0xfe) flags else p.flags j)
unfolding mark_allocated
mark-flags zero p i flags j = ground arith
mark-flags (suc n) p i flags j = ground (arith, mark-flags n (mark_one p i flags) (i + 1) flags j)

pub mark-keeps :
    (n : ℕ) (p : Pages) (i flags : ℕ)
    → ((mark_allocated n p i flags).sizes ≡ p.sizes) × ((mark_allocated n p i flags).idx ≡ p.idx)
unfolding mark_allocated
mark-keeps zero p i flags = (refl, refl)
mark-keeps (suc n) p i flags = mark-keeps n _ (i + 1) flags

-- The search stops at the first size that has a segment.
pub find-bounds :
    (fuel : ℕ) (sizes : ℕ → List ℕ) (stop : ℕ)
    → size_vm_sizes ≤ stop + fuel
    → stop ≤ size_vm_sizes
    → (stop ≤ find_segment fuel sizes stop) × (find_segment fuel sizes stop ≤ size_vm_sizes)
unfolding find_segment
find-bounds zero sizes stop h k = omega arith
find-bounds (suc fuel) sizes stop h k = ground (arith, find-bounds fuel sizes (stop + 1))

pub find-empty :
    (fuel : ℕ) (sizes : ℕ → List ℕ) (stop j : ℕ)
    → size_vm_sizes ≤ stop + fuel
    → stop ≤ j
    → j < find_segment fuel sizes stop
    → is_empty (sizes j) ≡ true
unfolding find_segment
find-empty zero sizes stop j h a b = absurd (omega arith)
find-empty (suc fuel) sizes stop j h a b = elim (dec_lt stop j) [
  | yes l ↦ ground (arith, find-empty fuel sizes (stop + 1) j)
  | no g ↦
      let same : stop ≡ j = omega arith in
      rw (← same)
        (elim (Bool-cases (is_empty (sizes stop))) [ inl e ↦ e | inr e ↦ absurd (ground arith) ])
]

pub find-nonempty :
    (fuel : ℕ) (sizes : ℕ → List ℕ) (stop : ℕ)
    → size_vm_sizes ≤ stop + fuel
    → find_segment fuel sizes stop < size_vm_sizes
    → is_empty (sizes (find_segment fuel sizes stop)) ≡ false
unfolding find_segment
find-nonempty zero sizes stop h l = absurd (omega arith)
find-nonempty (suc fuel) sizes stop h l =
    elim (Bool-cases (ltb stop size_vm_sizes && is_empty (sizes stop))) [
      | inl e ↦ rw e (find-nonempty fuel sizes (stop + 1) (omega arith) (rw e at l))
      | inr e ↦ rw e (ground (arith, (rw e at l)))
    ]

-- The order is that of a page at least, and holds the size.
pub page_order-bounds :
    (size : ℕ) → size < 2 ^ 64 → (size ≤ 2 ^ page_order size) × (12 ≤ page_order size)
unfolding page_order
page_order-bounds size h =
    let s : ℕ = if ltb size size_page then size_page else size in
    let big : size_page ≤ s = ground arith in
    let holds : size ≤ s = ground arith in
    let small : s < 2 ^ 64 = ground arith in
    let index = size_index_lem s (omega arith) small in
    let enough : s ≤ 2 ^ size_index s = index.0 in
    (
      omega arith,
      elim (dec_lt (size_index s) 12) [
        | yes l ↦ absurd (omega (arith, two_pow_mono (size_index s) 11 (omega arith)))
        | no g ↦ omega arith
      ],
    )

pub page_order-lt : (size : ℕ) → size ≤ 2 ^ 31 → page_order size < size_vm_sizes
unfolding page_order
page_order-lt size h =
    let s : ℕ = if ltb size size_page then size_page else size in
    let pos : 0 < s = ground arith in
    let small : s ≤ 2 ^ 31 = ground arith in
    let index = size_index_lem s pos (omega arith) in
    elim (dec_lt (size_index s) 32) [
      | yes l ↦ l
      | no g ↦ absurd (omega (arith, index.1, two_pow_mono 32 (size_index s) (omega arith)))
    ]
