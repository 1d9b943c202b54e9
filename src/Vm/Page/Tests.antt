-- ===== src/Vm/Page/Tests.antt =====
-- vm/page.c on concrete inputs.
use phoenix_rtos_kernel.Base.{
  ◌<◌, ◌%◌, ℕ, ◌*◌, ◌≤◌, ◌≡◌, refl, none, some, Option, Bool-cases, inl, inr, List, [], ◌∷◌, arith,
  ltb, ◌==◌, if◌then◌else◌,
}
use phoenix_rtos_kernel.Hal.BitScan.{
  hal_cpu_get_last_bit, last_bit_steps, shift_up, hal_cpu_get_first_bit, first_bit_steps,
  shift_down,
}
use phoenix_rtos_kernel.Vm.SizeIndex.{size_index}
use phoenix_rtos_kernel.Vm.Page.{
  Pages, page_alloc, page_order, find_segment, take_segment, split, split_once, mark_allocated,
}
use phoenix_rtos_kernel.Vm.Page.Free.{page_free, mark_free, join_free}
use phoenix_rtos_kernel.Vm.Page.Free.Buddy.{}
use phoenix_rtos_kernel.Vm.Page.Free.Join.{IsBuddies}
use phoenix_rtos_kernel.Vm.Page.Free.Whole.{IsUsed, freed, IsOtherHalf, page_free_lem}
use phoenix_rtos_kernel.Vm.Page.Free.Ends.{IsJoined}

-- One free segment of two pages.
abbrev two_pages : Pages
two_pages = record {
  sizes = λ k. if k == 13 then 0 ∷ [] else [];
  idx = λ i. if i == 0 then 13 else 0;
  flags = λ i. if ltb i 2 then 1 else 0;
  addr = λ i. i * 4096;
  allocsz = 0;
  freesz = 8192;
}

two_pages-none : page_alloc 16384 4 two_pages ≡ (none, (page_alloc 16384 4 two_pages).1)
unfolding page_alloc page_order size_index hal_cpu_get_last_bit last_bit_steps shift_up
    hal_cpu_get_first_bit first_bit_steps shift_down find_segment take_segment split split_once
    mark_allocated
two_pages-none = refl

two_pages-order : page_order 16384 ≤ 20
unfolding page_order size_index hal_cpu_get_last_bit last_bit_steps shift_up hal_cpu_get_first_bit
    first_bit_steps shift_down
two_pages-order = omega arith

-- The second of two pages is in use.
abbrev one_used : Pages
one_used = record {
  sizes = λ k. if k == 12 then 0 ∷ [] else [];
  idx = λ i. 12;
  flags = λ i. if i == 0 then 1 else 0;
  addr = λ i. i * 4096;
  allocsz = 4096;
  freesz = 4096;
}

one_used-IsBuddies : IsBuddies one_used 2
one_used-IsBuddies = record {
  pool = record {
    counted = λ i. ground arith;
    heads = λ k h. ground arith;
    least = λ k h. ground arith;
  };
  laid = λ i j a b. omega arith;
  segments = λ k h. elim (Bool-cases (k == 12)) [
    | inl e ↦
        let q : k ≡ 12 = ground arith in
        rw (e, q) (((0, refl), omega arith, λ j b. omega arith), tt)
    | inr e ↦ rw e tt
  ];
}

one_used-IsUsed : IsUsed one_used 2 1
one_used-IsUsed = record {
  above = omega arith;
  below = omega arith;
  segment = ((1, refl), omega arith, λ j b. omega arith);
  used = λ j a b. ground arith;
  counted = omega arith;
}

-- What is seen of the pool afterwards
abbrev seen : Option Pages → Option (List ℕ × List ℕ × ℕ)
seen none = none
seen (some s) = some (s.sizes 12, s.sizes 13, s.idx 0)

-- The two are one segment again.
one_used-joined : seen (page_free one_used 1) ≡ some ([], 0 ∷ [], 13)
unfolding page_free mark_free join_free
one_used-joined = refl

page_free_lem_example :
    (s' : Pages) × (page_free one_used 1 ≡ some s')
    × IsBuddies s' 2
    × ((j : ℕ) → s'.flags j ≡ freed one_used 1 j)
    × ((j : ℕ) × (x : ℕ) × (12 ≤ j)
        × IsJoined s' 2 1 j x
        × ((o : ℕ)
            → one_used.flags o % 2 ≡ 1
            → one_used.idx o ≡ 12
            → IsOtherHalf one_used 2 1 o
            → 12 < j))
page_free_lem_example =
    page_free_lem one_used 2 1 one_used-IsBuddies one_used-IsUsed refl (omega arith)
      (λ j. omega arith)
