-- ===== src/Vm/Page/Free.antt =====
-- _page_free of vm/page.c. A `page_t *` is its index in `pages.pages`, and `none` one in
-- front of the array.
pub mod Mark
pub mod Buddy
pub mod Open
pub mod Merge
pub mod Join
pub mod Loop
pub mod Ends
pub mod Whole
use phoenix_rtos_kernel.Base.{
  ℕ, zero, suc, ◌+◌, ◌-◌, ◌*◌, ◌/◌, ◌%◌, ◌^◌, Bool, true, false, ◌&&◌, not, Option, none, some, ltb,
  leb, ◌==◌, if◌then◌else◌, bit_and, bit_or, upd, list_add, list_remove,
}
use phoenix_rtos_kernel.Vm.Page.{Pages, pages_of, size_page, size_vm_sizes}

-- The loop that marks freed pages, from page `i` on, by the number of rounds left
unfoldable pub mark_free : ℕ → Pages → ℕ → Pages
mark_free zero s i = s
mark_free (suc n) s i =
    mark_free n
      (record s {
        flags = upd s.flags i (bit_or (s.flags i) 1);
        freesz = (s.freesz + size_page) % 2 ^ 64;
        allocsz = (s.allocsz + 2 ^ 64 - size_page) % 2 ^ 64;
      })
      (i + 1)

-- `lh` and `rh` in front of a round, from what they were: the segment of the index at `p` is one, and
-- its other half is in front of it or behind it by its address. The index is below 30, so that the
-- masks stay within an `int`.
abbrev pub halves : Pages → ℕ → ℕ → Option ℕ → ℕ → Option ℕ × ℕ
halves s p idx lh rh =
    if bit_and (s.addr p) (2 ^ (idx + 1) - 1) == 0
    then (lh, p + pages_of idx)
    else (if leb (pages_of idx) p then some (p - pages_of idx) else none, rh)

-- The condition of the loop
abbrev pub is_pair : Pages → ℕ → ℕ → ℕ → Bool
is_pair s idx l rh =
    ltb rh ((s.allocsz + s.freesz) % 2 ^ 64 / size_page)
    && not (s.flags l % 2 == 0)
    && not (s.flags rh % 2 == 0)
    && (s.idx l == s.idx rh)
    && (s.addr l + 2 ^ s.idx l == s.addr rh)
    && ltb idx size_vm_sizes

-- What a round does: the other half is taken off its list, and the two are one segment at `l`.
abbrev pub merge : Pages → ℕ → ℕ → ℕ → ℕ → Pages
merge s p idx l rh = record s {
  sizes = upd s.sizes idx (list_remove (s.sizes idx) (if p == l then rh else l));
  idx = (let f = upd s.idx rh 12 in upd f l (f l + 1));
}

-- The loop that joins free halves, and the end of _page_free. There are 32 sizes.
unfoldable pub join_free : ℕ → Pages → ℕ → ℕ → Option ℕ → ℕ → Pages
join_free zero s p idx lh rh = record s { sizes = upd s.sizes idx (list_add (s.sizes idx) p) }
join_free (suc fuel) s p idx none rh = record s {
  sizes = upd s.sizes idx (list_add (s.sizes idx) p);
}
join_free (suc fuel) s p idx (some l) rh =
    let s' = merge s p idx l rh in
    let (lh', rh') = halves s' l (idx + 1) (some l) rh in
    let rest = join_free fuel s' l (idx + 1) lh' rh' in
    if is_pair s idx l rh
    then rest
    else record s { sizes = upd s.sizes idx (list_add (s.sizes idx) p) }

-- _page_free, `none` for a page that is free already, where the kernel stops
unfoldable pub page_free : Pages → ℕ → Option Pages
unfolding mark_free join_free
page_free s p =
    let k = s.idx p in
    let s' = mark_free (pages_of k) s p in
    let (lh, rh) = halves s' p k (some p) p in
    if not (s.flags p % 2 == 0) then none else some (join_free 32 s' p k lh rh)
