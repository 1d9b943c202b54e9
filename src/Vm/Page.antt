-- ===== src/Vm/Page.antt =====
-- vm/page.c: the page allocator, with power-of-two segments. A `page_t *` is its index in the array
-- `pages.pages`; an entry of `sizes` is the list of the segments of that size, each by its first
-- page. The words are those of the 64-bit port; `SIZE_PAGE` is 4096. The locks are held throughout.
mod Tests
pub mod Cover
pub mod Alloc
pub mod Search
pub mod Split
pub mod Free
use phoenix_rtos_kernel.Base.{
  ℕ, zero, suc, ◌+◌, ◌-◌, ◌*◌, ◌/◌, ◌%◌, ◌^◌, Bool, true, false, ◌&&◌, ◌||◌, not, Option, none,
  some, List, [], ◌∷◌, ltb, leb, ◌==◌, if◌then◌else◌, bit_and, bit_or, upd, list_add, list_remove,
  is_empty,
}
use phoenix_rtos_kernel.Vm.SizeIndex.{size_index}

abbrev pub size_page : ℕ
size_page = 4096

abbrev pub size_vm_sizes : ℕ
size_vm_sizes = 32

pub record Pages : Type 0 where
  pub sizes : ℕ → List ℕ
  pub idx : ℕ → ℕ
  pub flags : ℕ → ℕ
  pub addr : ℕ → ℕ
  pub allocsz : ℕ
  pub freesz : ℕ

-- The number of pages of a segment, `(1 << idx) / SIZE_PAGE`, for an index below 31, where the shift
-- stays within an `int`
abbrev pub pages_of : ℕ → ℕ
pages_of idx = 2 ^ idx / size_page

-- The first index that is tried for `size` bytes.
pub page_order : ℕ → ℕ
page_order size = size_index (if ltb size size_page then size_page else size)

-- `while ((stop < SIZE_VM_SIZES) && (pages.sizes[stop] == NULL)) stop++;` It stops within 32 rounds.
pub find_segment : ℕ → (ℕ → List ℕ) → ℕ → ℕ
find_segment zero sizes stop = stop
find_segment (suc fuel) sizes stop =
    let rest = find_segment fuel sizes (stop + 1) in
    if ltb stop size_vm_sizes && is_empty (sizes stop) then rest else stop

-- One round of the loop that splits a segment in two.
pub split_once : Pages → ℕ → ℕ → Pages
split_once p stop lh =
    let removed = upd p.sizes stop (list_remove (p.sizes stop) lh) in
    let half = p.idx lh - 1 in
    let rh = lh + pages_of half in
    let idx' = upd (upd p.idx lh half) rh half in
    let below = removed (stop - 1) in
    record p { sizes = upd removed (stop - 1) (list_add (list_add below lh) rh); idx = idx' }

-- `while (stop > start)`, by the number of rounds `stop - start`
pub split : ℕ → Pages → ℕ → ℕ → Pages
split zero p stop lh = p
split (suc n) p stop lh = split n (split_once p stop lh) (stop - 1) lh

-- The loop that marks allocated pages, from page `i` on, by the number of rounds left.
pub mark_allocated : ℕ → Pages → ℕ → ℕ → Pages
mark_allocated zero p i flags = p
mark_allocated (suc n) p i flags =
    mark_allocated n
      (record p {
        flags = upd p.flags i (bit_or (bit_and (p.flags i) 0xfe) flags);
        freesz = (p.freesz + 2 ^ 64 - size_page) % 2 ^ 64;
        allocsz = (p.allocsz + size_page) % 2 ^ 64;
      })
      (i + 1) flags

-- What follows the search: take the first segment, split it, take it off and mark it.
take_segment : Pages → ℕ → ℕ → ℕ → ℕ → Pages
take_segment p start stop lh flags =
    let s = split (stop - start) p stop lh in
    let taken = record s { sizes = upd s.sizes start (list_remove (s.sizes start) lh) } in
    mark_allocated (pages_of (taken.idx lh)) taken lh flags

-- An empty `sizes[stop]` is met only where `start` is above 32, past the end of `sizes`.
pub page_alloc : ℕ → ℕ → Pages → Option ℕ × Pages
page_alloc size flags p =
    let start = page_order size in
    let stop = find_segment size_vm_sizes p.sizes start in
    if stop == size_vm_sizes then (none, p) else elim (p.sizes stop) [
      | [] ↦ (none, p)
      | lh ∷ rest ↦ (some lh, take_segment p start stop lh flags)
    ]
