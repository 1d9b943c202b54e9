-- ===== src/Vm/Kmalloc/Blocks.antt =====
-- Blocks taken from a zone of the heap and given back to it.
use phoenix_rtos_kernel.Base.{
  ℕ, ◌-◌, ◌^◌, ◌≤◌, ◌<◌, ◌≡◌, refl, inl, inr, List, [], ◌∷◌, ◌==◌, if◌then◌else◌, list_add,
  list_remove, is_empty, arith, ==_refl, Bool-cases,
}
use phoenix_rtos_kernel.Hal.BitScan.{hal_cpu_get_last_bit}
use phoenix_rtos_kernel.Vm.Zone.{Zone, Memory, zalloc, zfree}
use phoenix_rtos_kernel.Vm.Zone.FreeList.{IsZone, IsBlock, Outside, zalloc_lem, zfree_lem}
use phoenix_rtos_kernel.Vm.Kmalloc.{Heap, zone_of, kmalloc_alloc, free_block}

-- A zone is full exactly when no block is free.
full-empty :
    (z : Zone) (mem : Memory) (bs : List ℕ) → IsZone z mem bs → (z.used == z.blocks) ≡ is_empty bs
full-empty z mem [] v = ground (arith, v.counted)
full-empty z mem (b ∷ bs) v = ground (arith, v.counted)

-- One block is free exactly when there is no other.
first-empty :
    (z : Zone) (mem : Memory) (p : ℕ) (bs : List ℕ)
    → IsZone z mem (p ∷ bs)
    → (z.used == z.blocks - 1) ≡ is_empty bs
first-empty z mem p [] v = ground (arith, v.counted)
first-empty z mem p (b ∷ bs) v = ground (arith, v.counted)

-- `_kmalloc_alloc` from the first zone of a list, which has a free block, returns its first free block
-- and leaves it the others. If that was the last, the zone leaves the list for the used ones;
-- otherwise the list stays as it is.
pub kmalloc_alloc_lem :
    (h : Heap) (hdridx idx z : ℕ) (zs : List ℕ) (b : ℕ) (bs : List ℕ)
    → h.sizes idx ≡ z ∷ zs
    → IsZone (h.zone z) h.mem (b ∷ bs)
    → let (p, h') = kmalloc_alloc h hdridx idx in
      (p ≡ b)
      × IsZone (h'.zone z) h'.mem bs
      × (h'.sizes idx ≡ (if is_empty bs then zs else z ∷ zs))
      × (h'.used ≡ (if is_empty bs then list_add h.used z else h.used))
unfolding kmalloc_alloc
kmalloc_alloc_lem h hdridx idx z zs b bs e v =
    let got = zalloc_lem (h.zone z) h.mem b bs v in
    let full = full-empty (zalloc (h.zone z) h.mem).1 h.mem bs got.1 in
    rw (e, zone_of)
      (rw (==_refl z) (
        rw full (elim (Bool-cases (is_empty bs)) [
          | inl last ↦ rw last (got.0, rw (==_refl z) got.1, rw (==_refl idx) refl, refl)
          | inr more ↦ rw more (got.0, rw (==_refl z) got.1, e, refl)
        ])))

-- `_kmalloc_free` of a block in use puts it in front of the free blocks of its zone. A zone that was
-- full leaves the used ones for the list of its size; otherwise the lists stay as they are.
pub free_block_lem :
    (h : Heap) (hdridx z p : ℕ) (bs : List ℕ)
    → IsZone (h.zone z) h.mem bs
    → IsBlock (h.zone z) p
    → Outside p bs
    → 0 < (h.zone z).used
    → (h.zone z).blocksz ≤ p
    → p < 2 ^ 64
    → let idx = hal_cpu_get_last_bit (zfree (h.zone z) h.mem p).0.blocksz in
      let h' = free_block h hdridx z p in
      IsZone (h'.zone z) h'.mem (p ∷ bs)
      × (h'.sizes idx ≡ (if is_empty bs then list_add (h.sizes idx) z else h.sizes idx))
      × (h'.used ≡ (if is_empty bs then list_remove h.used z else h.used))
unfolding free_block
free_block_lem h hdridx z p bs v slot out busy high word =
    let freed = zfree_lem (h.zone z) h.mem p bs v slot out busy high word in
    let v' : Zone = (zfree (h.zone z) h.mem p).0 in
    let first = first-empty v' (zfree (h.zone z) h.mem p).1 p bs freed in
    rw (==_refl z) (
      rw first (elim (Bool-cases (is_empty bs)) [
        | inl last ↦ rw last (rw (==_refl z) freed, rw ==_refl refl, refl)
        | inr more ↦ rw more (rw (==_refl z) freed, refl, refl)
      ]))
