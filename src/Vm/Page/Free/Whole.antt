-- ===== src/Vm/Page/Free/Whole.antt =====
-- _page_free of vm/page.c as a whole.
use mathlib.Core.Path.{subst}
use phoenix_rtos_kernel.Base.{
  ◌⊎◌, ◌≢◌, inr, ℕ, zero, suc, ◌+◌, ◌*◌, ◌%◌, ◌^◌, ◌≤◌, ◌<◌, ◌≡◌, refl, ap, sym, ◌∙◌, inl, inr,
  true, false, ◌&&◌, Option, none, some, ltb, leb, ◌==◌, if◌then◌else◌, bit_or, bit_or-low,
  Bool-cases, arith,
}
use phoenix_rtos_kernel.Vm.Page.{Pages, pages_of, size_vm_sizes}
use phoenix_rtos_kernel.Vm.Page.Cover.{inside, cover_below, pages_of-pos}
use phoenix_rtos_kernel.Vm.Page.Free.Ends.{
  IsJoined, FreeHalves-is_pair, halves-left, halves-right, join_free-IsJoined,
}
use phoenix_rtos_kernel.Vm.Page.Free.{mark_free, merge, halves, is_pair, join_free, page_free}
use phoenix_rtos_kernel.Vm.Page.Free.Mark.{free-flags, free-keeps, free-total}
use phoenix_rtos_kernel.Vm.Page.Free.Buddy.{IsSegment}
use phoenix_rtos_kernel.Vm.Page.Free.Open.{IsOpen}
use phoenix_rtos_kernel.Vm.Page.Free.Join.{IsBuddies, halves-Ready}
use phoenix_rtos_kernel.Vm.Page.Free.Loop.{total, join_free-IsBuddies}

-- A segment that is in use: its first page says how large it is, and none of its pages is free.
pub record IsUsed (s : Pages) (n p : ℕ) : Type 0 where
  pub above : 12 ≤ s.idx p
  pub below : s.idx p < size_vm_sizes
  pub segment : IsSegment n s.addr (s.idx p) p
  pub used : (j : ℕ) → p ≤ j → j < p + pages_of (s.idx p) → s.flags j % 2 ≡ 0
  pub counted : 4096 * pages_of (s.idx p) ≤ s.allocsz

join_free-flags :
    (fuel : ℕ) (s : Pages) (p k : ℕ) (lh : Option ℕ) (rh : ℕ)
    → (join_free fuel s p k lh rh).flags ≡ s.flags
unfolding join_free
join_free-flags zero s p k lh rh = refl
join_free-flags (suc fuel) s p k none rh = refl
join_free-flags (suc fuel) s p k (some l) rh = elim (Bool-cases (is_pair s k l rh)) [
  | inl e ↦
      let r = halves (merge s p k l rh) l (k + 1) (some l) rh in
      rw e (join_free-flags fuel (merge s p k l rh) l (k + 1) r.0 r.1)
  | inr e ↦ rw e refl
]

-- One round more changes nothing: the loop ends by its own condition.
join_free-enough :
    (fuel : ℕ) (s : Pages) (p k : ℕ) (lh : Option ℕ) (rh : ℕ)
    → size_vm_sizes ≤ k + fuel
    → join_free (suc fuel) s p k lh rh ≡ join_free fuel s p k lh rh
unfolding join_free
join_free-enough zero s p k none rh h = refl
join_free-enough zero s p k (some l) rh h =
    let ended : is_pair s k l rh ≡ false = ground arith in rw ended refl
join_free-enough (suc fuel) s p k none rh h = refl
join_free-enough (suc fuel) s p k (some l) rh h = elim (Bool-cases (is_pair s k l rh)) [
  | inl e ↦
      let r = halves (merge s p k l rh) l (k + 1) (some l) rh in
      rw e (join_free-enough fuel (merge s p k l rh) l (k + 1) r.0 r.1 (omega arith))
  | inr e ↦ rw e refl
]

module _ (s : Pages) (n p : ℕ) (pool : IsBuddies s n) (used : IsUsed s n p) where
  abbrev k : ℕ
  k = s.idx p

  abbrev marked : Pages
  marked = mark_free (pages_of k) s p

  -- A page of the segment was in no free one, and is free now.
  marked-counted : (i : ℕ) → cover_below size_vm_sizes s.sizes i + inside k p i ≡ marked.flags i % 2
  marked-counted i =
      let now : marked.flags i
          ≡ (if leb p i && ltb i (p + pages_of k) then bit_or (s.flags i) 1 else s.flags i) =
        free-flags (pages_of k) s p i in
      elim (Bool-cases (leb p i && ltb i (p + pages_of k))) [
        | inl e ↦
            let was : s.flags i % 2 ≡ 0 = used.used i (ground arith) (ground arith) in
            ground (arith, now, pool.pool.counted i, bit_or-low (s.flags i) 1)
        | inr e ↦ ground (arith, now, pool.pool.counted i)
      ]

  marked-IsOpen : IsOpen marked n k p
  marked-IsOpen =
      let (sizes, idx, addr) = free-keeps (pages_of k) s p in
      record {
        laid = rw addr pool.laid;
        counted = λ i.
            subst (λ f. cover_below size_vm_sizes f i + inside k p i ≡ marked.flags i % 2)
              (sym sizes) (marked-counted i);
        heads = λ j h. rw (sizes, idx) (pool.pool.heads j h);
        least = λ j h. rw sizes (pool.pool.least j h);
        segments = λ j h. rw (sizes, addr) (pool.segments j h);
        above = used.above;
        index = ap (λ (f : ℕ → ℕ). f p) idx;
        segment = rw addr used.segment;
      }

  marked-total : s.allocsz + s.freesz ≡ 4096 * n → n < 2 ^ 20 → total marked ≡ n
  marked-total sum few = omega (arith, free-total (pages_of k) s p used.counted (omega arith))

abbrev pub freed : Pages → ℕ → ℕ → ℕ
freed s p j = if leb p j && ltb j (p + pages_of (s.idx p)) then bit_or (s.flags j) 1 else s.flags j

-- The other half of the segment `p`: it is the page behind when the segment is at a multiple of the
-- double size, and the page in front otherwise.
abbrev pub IsOtherHalf : Pages → ℕ → ℕ → ℕ → Type 0
IsOtherHalf s n p o =
    let k = s.idx p in
    ((s.addr p % 2 ^ (k + 1) ≡ 0) × (o ≡ p + pages_of k) × (o < n) × (s.addr p + 2 ^ k ≡ s.addr o))
    ⊎ ((s.addr p % 2 ^ (k + 1) ≢ 0) × (o + pages_of k ≡ p) × (s.addr o + 2 ^ k ≡ s.addr p))

module _ (s : Pages) (n p : ℕ) (pool : IsBuddies s n) (used : IsUsed s n p) where
  -- A page that is free or in the segment is free once that is marked.
  marked-free : (o : ℕ) → (s.flags o % 2 ≡ 1) ⊎ (o ≡ p) → (marked s n p pool used).flags o % 2 ≡ 1
  marked-free o h =
      let k : ℕ = s.idx p in
      let now = free-flags (pages_of k) s p o in
      let some_page : 0 < pages_of k = pages_of-pos k used.above in
      elim h [
        | inl e ↦ ground (arith, now, e, bit_or-low (s.flags o) 1)
        | inr e ↦ ground (arith, now, e, some_page, bit_or-low (s.flags o) 1)
      ]

  -- A free other half is a pair with the segment.
  first_pair :
      (o : ℕ)
      → total (marked s n p pool used) ≡ n
      → s.flags o % 2 ≡ 1
      → s.idx o ≡ s.idx p
      → IsOtherHalf s n p o
      → let m = marked s n p pool used in
        let r = halves m p (s.idx p) (some p) p in
        (l : ℕ) × (r.0 ≡ some l) × (is_pair m (s.idx p) l r.1 ≡ true)
  first_pair o sum free same which =
      let k : ℕ = s.idx p in
      let m : Pages = marked s n p pool used in
      let (sizes, idx, addr) = free-keeps (pages_of k) s p in
      let own = marked-free p (inr refl) in
      let other = marked-free o (inl free) in
      let io : m.idx o ≡ k = ap (λ (f : ℕ → ℕ). f o) idx ∙ same in
      let ip : m.idx p ≡ k = ap (λ (f : ℕ → ℕ). f p) idx in
      let small : p < n = omega (arith, used.segment.1, pages_of-pos k used.above) in
      elim which [
        | inl (e, f, g, h) ↦
            let way = halves-left m p k p (rw addr e) in
            let pair =
              FreeHalves-is_pair m n k p o used.below sum (g, own, other, ip, io, rw addr h) in
            (
              p,
              ap (λ (r : Option ℕ × ℕ). r.0) way,
              subst (λ y. is_pair m k p y ≡ true) (f ∙ sym (ap (λ (r : Option ℕ × ℕ). r.1) way))
                  pair,
            )
        | inr (e, f, h) ↦
            let way = halves-right m p k p o (rw addr e) f in
            let pair =
              FreeHalves-is_pair m n k o p used.below sum (small, other, own, io, ip, rw addr h) in
            (
              o,
              ap (λ (r : Option ℕ × ℕ). r.0) way,
              subst (λ y. is_pair m k o y ≡ true) (sym (ap (λ (r : Option ℕ × ℕ). r.1) way)) pair,
            )
      ]

-- The pool has fewer than 2 ^ 18 pages and no index above 30, so that the shifts of `1` and the masks of
-- them stay within an `int`. The free pages are in one listed segment each, and the segments at multiples
-- of their sizes. _page_free of a segment in use then marks its pages and no others, and leaves such a
-- pool again. The page is in a listed segment afterwards, which is not the left one of two free halves of
-- the same index; and when the other half of the segment was free and of its index, the two are joined.
pub page_free_lem :
    (s : Pages) (n p : ℕ)
    → IsBuddies s n
    → IsUsed s n p
    → s.allocsz + s.freesz ≡ 4096 * n
    → n < 2 ^ 18
    → ((j : ℕ) → s.idx j < 31)
    → (s' : Pages) × (page_free s p ≡ some s')
      × IsBuddies s' n
      × ((j : ℕ) → s'.flags j ≡ freed s p j)
      × ((j : ℕ) × (x : ℕ) × (s.idx p ≤ j)
          × IsJoined s' n p j x
          × ((o : ℕ) → s.flags o % 2 ≡ 1 → s.idx o ≡ s.idx p → IsOtherHalf s n p o → s.idx p < j))
unfolding page_free
page_free_lem s n p pool used sum few narrow =
    let k : ℕ = s.idx p in
    let m : Pages = mark_free (pages_of k) s p in
    let r = halves m p k (some p) p in
    let busy : (s.flags p % 2 == 0) ≡ true =
      ground (arith, used.used p (omega arith) (omega (arith, pages_of-pos k used.above))) in
    let taken : IsOpen m n k p = marked-IsOpen s n p pool used in
    let all : total m ≡ n = marked-total s n p pool used sum (omega arith) in
    let (j, x, more, joined, first) =
      join_free-IsJoined 32 m n k p p p r.0 r.1 (omega arith) taken used.below (omega arith) all
        (inl refl) refl (omega arith) (omega (arith, pages_of-pos k used.above)) in
    (
      join_free 32 m p k r.0 r.1,
      rw busy refl,
      join_free-IsBuddies 32 m n k p r taken used.below (omega arith) (omega (arith, all))
          (halves-Ready m n k p taken p (inl refl)),
      λ i.
          ap (λ (f : ℕ → ℕ). f i) (join_free-flags 32 m p k r.0 r.1)
          ∙ free-flags (pages_of k) s p i,
      (
        j,
        x,
        more,
        joined,
        λ o free same which.
            (let (l, e, pair) = first_pair s n p pool used o all free same which in first l e pair),
      ),
    )
