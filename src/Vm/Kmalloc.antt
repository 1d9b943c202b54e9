-- ===== src/Vm/Kmalloc.antt =====
-- vm/kmalloc.c: the kernel heap, made of the zones of vm/zone.c. A `vm_zone_t *` is a number, the
-- address of its header; the tree of zones is a list. Headers come from zones of their own index,
-- `hdridx`. For each new zone the page and the mapping that `_vm_zoneCreate` gets are an argument.
-- `zone_of` on an empty list of zones, which the code does not test for, stands for NULL.
mod Tests
pub mod Blocks
use phoenix_rtos_kernel.Base.{
  ℕ, zero, suc, ◌+◌, ◌-◌, ◌*◌, ◌/◌, ◌%◌, ◌^◌, Bool, true, false, ◌&&◌, ◌||◌, not, Option, none,
  some, List, [], ◌∷◌, ltb, leb, ◌==◌, if◌then◌else◌, upd, list_add, list_remove, Result, eok,
  fails, enomem,
}
use phoenix_rtos_kernel.Hal.BitScan.{hal_cpu_get_last_bit}
use phoenix_rtos_kernel.Vm.SizeIndex.{size_index}
use phoenix_rtos_kernel.Vm.Zone.{Zone, Memory, zone_create, zone_destroy, zalloc, zfree}

pub record Heap : Type 0 where
  pub zone : ℕ → Zone
  pub mem : Memory
  pub sizes : ℕ → List ℕ
  pub used : List ℕ
  pub tree : List ℕ
  pub hdrblocks : ℕ
  pub allocsz : ℕ
  pub zonehdrs : ℕ
  pub first_zone : ℕ

-- The number of lists in `sizes`.
abbrev pub size_lists : ℕ
size_lists = 17

abbrev pub zone_of : List ℕ → ℕ
zone_of [] = 0
zone_of (z ∷ zs) = z

-- A full zone goes from its list to the used ones.
abbrev pub retire : Heap → ℕ → ℕ → Heap
retire h idx z =
    let v = h.zone z in
    if v.used == v.blocks
    then record h {
      sizes = upd h.sizes idx (list_remove (h.sizes idx) z);
      used = list_add h.used z;
    }
    else h

-- _kmalloc_alloc
pub kmalloc_alloc : Heap → ℕ → ℕ → ℕ × Heap
kmalloc_alloc h hdridx idx =
    let z = zone_of (h.sizes idx) in
    let (b, v) = zalloc (h.zone z) h.mem in
    let h1 = record h {
      zone = upd h.zone z v;
      allocsz = (h.allocsz + 2 ^ idx) % 2 ^ 64;
      hdrblocks = if idx == hdridx then (h.hdrblocks + 2 ^ 32 - 1) % 2 ^ 32 else h.hdrblocks;
    } in
    (b, retire h1 idx z)

-- The zone in whose range `p` lies, by `kmalloc_zone_cmp`.
abbrev pub find_zone : (ℕ → Zone) → List ℕ → ℕ → ℕ
find_zone zone [] p = 0
find_zone zone (z ∷ zs) p =
    let v = zone z in
    if leb v.vaddr p && ltb p (v.vaddr + v.blocks * v.blocksz) then z else find_zone zone zs p

-- A zone with its first free block goes from the used ones to its list.
abbrev pub revive : Heap → ℕ → ℕ → Heap
revive h idx z =
    let v = h.zone z in
    if v.used == v.blocks - 1
    then record h {
      used = list_remove h.used z;
      sizes = upd h.sizes idx (list_add (h.sizes idx) z);
    }
    else h

-- _kmalloc_free, once the zone `z` is found
pub free_block : Heap → ℕ → ℕ → ℕ → Heap
free_block h hdridx z p =
    let (v, mem) = zfree (h.zone z) h.mem p in
    let idx = hal_cpu_get_last_bit v.blocksz in
    let h1 = record h {
      zone = upd h.zone z v;
      mem = mem;
      allocsz = (h.allocsz + 2 ^ 64 - v.blocksz) % 2 ^ 64;
      hdrblocks = if idx == hdridx then (h.hdrblocks + 1) % 2 ^ 32 else h.hdrblocks;
    } in
    revive h1 idx z

-- _kmalloc_free
pub kmalloc_free : Heap → ℕ → ℕ → ℕ × Heap
unfolding free_block
kmalloc_free h hdridx p =
    let z = find_zone h.zone h.tree p in if z == 0 then (0, h) else (z, free_block h hdridx z p)

-- What `vm_pageAlloc` and `vm_mmap` return for a new zone.
pub record Backing : Type 0 where
  pub page : Option ℕ
  pub mapped : Option ℕ

-- `max(((idx == hdridx) ? kmalloc_common.zonehdrs : 1), SIZE_PAGE / (1 << idx))`
abbrev pub zone_blocks : Heap → ℕ → ℕ → ℕ
zone_blocks h hdridx idx =
    let least = if idx == hdridx then h.zonehdrs else 1 in
    if ltb least (4096 / 2 ^ idx) then 4096 / 2 ^ idx else least

-- _kmalloc_addZone
pub add_zone : Heap → Backing → ℕ → ℕ → Result × Heap
unfolding kmalloc_alloc kmalloc_free
add_zone h0 g hdridx idx =
    let (nz, h) = kmalloc_alloc h0 hdridx hdridx in
    let (made, v, mem) =
      zone_create (h.zone nz) h.mem g.page g.mapped (2 ^ idx) (zone_blocks h hdridx idx) in
    let h1 = record h { zone = upd h.zone nz v; mem = mem } in
    elim made [
      | fails e ↦ (fails enomem, (kmalloc_free h1 hdridx nz).1)
      | eok ↦ (
        eok,
        record h1 {
          sizes = upd h1.sizes idx (list_add (h1.sizes idx) nz);
          tree = list_add h1.tree nz;
          hdrblocks = if idx == hdridx then (h1.hdrblocks + v.blocks) % 2 ^ 32 else h1.hdrblocks;
        },
      )
    ]

abbrev pub is_ok : Result → Bool
is_ok eok = true
is_ok (fails e) = false

-- vm_kmalloc; `hdr` is `sizeof(vm_zone_t)`, `g1` and `g2` back the zone of headers and of blocks.
pub kmalloc : Heap → Backing → Backing → ℕ → ℕ → ℕ × Heap
unfolding kmalloc_alloc add_zone
kmalloc h g1 g2 hdr size0 =
    let idx = size_index (if ltb size0 16 then 16 else size0) in
    let hdridx = size_index hdr in
    let (r1, h1) = if h.hdrblocks == 1 then add_zone h g1 hdridx hdridx else (eok, h) in
    let (r2, h2) =
      if is_ok r1 && zone_of (h1.sizes idx) == 0 then add_zone h1 g2 hdridx idx else (r1, h1) in
    if leb size_lists idx || leb size_lists hdridx
    then (0, h)
    else if is_ok r2
    then kmalloc_alloc h2 hdridx idx
    else (0, h2)

-- _kmalloc_freeAtom: the header of a zone that has become free, which is freed next.
pub free_atom : Heap → ℕ → ℕ → ℕ × Heap
unfolding kmalloc_free
free_atom h0 hdridx p =
    let (z, h) = kmalloc_free h0 hdridx p in
    let v = h.zone z in
    let idx = hal_cpu_get_last_bit v.blocksz in
    if z == 0
    then (0, h)
    else if v.used == 0 && not (z == h.first_zone)
    then (
      z,
      record h {
        zone = upd h.zone z (zone_destroy v).1;
        sizes = upd h.sizes idx (list_remove (h.sizes idx) z);
        tree = list_remove h.tree z;
        hdrblocks =
            if idx == hdridx then (h.hdrblocks + 2 ^ 32 - v.blocks) % 2 ^ 32 else h.hdrblocks;
      },
    )
    else (0, h)

-- vm_kfree. Each round but the last takes a zone off the tree.
kfree_loop : ℕ → Heap → ℕ → ℕ → Heap
kfree_loop zero h hdridx p = h
kfree_loop (suc fuel) h hdridx p =
    let (next, h') = free_atom h hdridx p in
    let rest = kfree_loop fuel h' hdridx next in if p == 0 then h else rest

abbrev count : List ℕ → ℕ
count [] = 0
count (x ∷ xs) = suc (count xs)

pub kfree : Heap → ℕ → ℕ → Heap
unfolding kfree_loop
kfree h hdr p = kfree_loop (count h.tree + 1) h (size_index hdr) p
