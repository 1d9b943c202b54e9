-- ===== src/Vm/Page/Free/Mark.antt =====
-- The loop of _page_free in vm/page.c that marks pages.
use phoenix_rtos_kernel.Base.{
  ℕ, zero, suc, ◌+◌, ◌-◌, ◌*◌, ◌%◌, ◌^◌, ◌≤◌, ◌<◌, ◌≡◌, refl, ◌&&◌, ltb, leb, if◌then◌else◌, bit_or,
  upd, arith,
}
use phoenix_rtos_kernel.Vm.Page.{Pages}
use phoenix_rtos_kernel.Vm.Page.Free.{mark_free}

abbrev free_one : Pages → ℕ → Pages
free_one s i = record s {
  flags = upd s.flags i (bit_or (s.flags i) 1);
  freesz = (s.freesz + 4096) % 2 ^ 64;
  allocsz = (s.allocsz + 2 ^ 64 - 4096) % 2 ^ 64;
}

pub free-flags :
    (n : ℕ) (s : Pages) (i j : ℕ)
    → (mark_free n s i).flags j
      ≡ (if leb i j && ltb j (i + n) then bit_or (s.flags j) 1 else s.flags j)
unfolding mark_free
free-flags zero s i j = ground arith
free-flags (suc n) s i j = ground (arith, free-flags n (free_one s i) (i + 1) j)

pub free-keeps :
    (n : ℕ) (s : Pages) (i : ℕ)
    → ((mark_free n s i).sizes ≡ s.sizes)
      × ((mark_free n s i).idx ≡ s.idx)
      × ((mark_free n s i).addr ≡ s.addr)
unfolding mark_free
free-keeps zero s i = (refl, refl, refl)
free-keeps (suc n) s i = free-keeps n (free_one s i) (i + 1)

-- The sum of the sizes stays.
pub free-total :
    (n : ℕ) (s : Pages) (i : ℕ)
    → 4096 * n ≤ s.allocsz
    → s.allocsz + s.freesz < 2 ^ 64
    → (mark_free n s i).allocsz + (mark_free n s i).freesz ≡ s.allocsz + s.freesz
unfolding mark_free
free-total zero s i a b = refl
free-total (suc n) s i a b =
    let back : (s.allocsz + 2 ^ 64 - 4096) % 2 ^ 64 ≡ s.allocsz - 4096 = omega arith in
    let more : (s.freesz + 4096) % 2 ^ 64 ≡ s.freesz + 4096 = omega arith in
    omega (arith, free-total n (free_one s i) (i + 1) (omega arith) (omega arith))
