-- ===== src/Vm/Kmalloc/Tests.antt =====
-- vm/kmalloc.c on concrete inputs.
use phoenix_rtos_kernel.Base.{◌≡◌, refl, some, [], ◌∷◌, ◌==◌, if◌then◌else◌, arith}
use phoenix_rtos_kernel.Hal.BitScan.{hal_cpu_get_last_bit}
use phoenix_rtos_kernel.Vm.Zone.{Zone, zfree}
use phoenix_rtos_kernel.Vm.Zone.FreeList.{IsZone}
use phoenix_rtos_kernel.Vm.Kmalloc.{Heap, kmalloc_alloc, free_block}
use phoenix_rtos_kernel.Vm.Kmalloc.Blocks.{kmalloc_alloc_lem, free_block_lem}

-- Two blocks of 32 bytes at 4096, of which the second is free.
abbrev blocks32 : Zone
blocks32 = record { blocksz = 32; blocks = 2; used = 1; vaddr = 4096; first = 4128; pages = some 1 }

abbrev heap : Heap
heap = record {
  zone = λ z. blocks32;
  mem = λ a. 0;
  sizes = λ k. if k == 5 then 77 ∷ [] else [];
  used = [];
  tree = 77 ∷ [];
  hdrblocks = 9;
  allocsz = 32;
  zonehdrs = 16;
  first_zone = 3;
}

blocks32-IsZone : IsZone blocks32 (λ a. 0) (4128 ∷ [])
blocks32-IsZone = record {
  chain = (refl, omega arith, refl);
  blocks = ((1, omega arith, omega arith), tt, tt);
  counted = refl;
  sized = omega arith;
  narrow = omega arith;
}

kmalloc_alloc_lem_example :
    let (p, h') = kmalloc_alloc heap 7 5 in
    (p ≡ 4128) × IsZone (h'.zone 77) h'.mem [] × (h'.sizes 5 ≡ []) × (h'.used ≡ 77 ∷ [])
kmalloc_alloc_lem_example = kmalloc_alloc_lem heap 7 5 77 [] 4128 [] refl blocks32-IsZone

free_block_lem_example :
    let idx = hal_cpu_get_last_bit (zfree blocks32 (λ a. 0) 4096).0.blocksz in
    let h' = free_block heap 7 77 4096 in
    IsZone (h'.zone 77) h'.mem (4096 ∷ 4128 ∷ []) × (h'.sizes idx ≡ heap.sizes idx) × (h'.used ≡ [])
free_block_lem_example =
    free_block_lem heap 7 77 4096 (4128 ∷ []) blocks32-IsZone (0, omega arith, omega arith)
      (omega arith, tt) (omega arith) (omega arith) (omega arith)
