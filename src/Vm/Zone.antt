-- ===== src/Vm/Zone.antt =====
-- vm/zone.c: zones of equal blocks with a free list threaded through them. Memory is a function from
-- the address of a pointer-sized word to its value; 0 is NULL. The pages behind a zone and their
-- mapping come from vm/page.c and vm/map.c: what `vm_pageAlloc` and `vm_mmap` return are arguments.
pub mod Create
pub mod FreeList
pub mod Check
use phoenix_rtos_kernel.Base.{
  ℕ, zero, suc, ◌+◌, ◌-◌, ◌*◌, ◌%◌, ◌^◌, Bool, ◌||◌, Option, none, some, ltb, leb, ◌==◌,
  if◌then◌else◌, bit_and, upd, Result, eok, fails, einval, enomem, ebusy,
}

pub record Zone : Type 0 where
  pub blocksz : ℕ
  pub blocks : ℕ
  pub used : ℕ
  pub vaddr : ℕ
  pub first : ℕ
  pub pages : Option ℕ

abbrev pub Memory : Type 0
Memory = ℕ → ℕ

-- `x & ~(blocksz - 1)`, on 64-bit words
abbrev pub mask_off : ℕ → ℕ → ℕ
mask_off blocksz x = bit_and x (2 ^ 64 - blocksz)

-- `for (i = 0; i < blocks; i++)`, from `i` on by the number of rounds left, for blocks of the size of a
-- pointer or more, whose pointers do not overlap, and within the address space
link_blocks : ℕ → Memory → ℕ → ℕ → ℕ → Memory
link_blocks zero mem vaddr blocksz i = mem
link_blocks (suc n) mem vaddr blocksz i =
    link_blocks n (upd mem (vaddr + i * blocksz) (vaddr + (i + 1) * blocksz)) vaddr blocksz (i + 1)

pub prepare : Memory → ℕ → ℕ → ℕ → Memory
unfolding link_blocks
prepare mem vaddr blocksz blocks =
    upd (link_blocks blocks mem vaddr blocksz 0) (vaddr + (blocks - 1) * blocksz) 0

abbrev initialized : ℕ → ℕ → ℕ → ℕ → Zone
initialized page vaddr blocksz blocks = record {
  blocksz = blocksz;
  blocks = blocks;
  used = 0;
  vaddr = vaddr;
  first = vaddr;
  pages = some page;
}

-- `page` is what `vm_pageAlloc` returns, and `mapped` what `vm_mmap` does. On failure the fields that
-- the code has written by then hold: `pages` is set, to NULL where there was no page.
pub zone_create : Zone → Memory → Option ℕ → Option ℕ → ℕ → ℕ → Result × Zone × Memory
zone_create zone mem page mapped blocksz blocks =
    if (blocksz == 0) || (blocks == 0)
    then (fails einval, zone, mem)
    else if mask_off blocksz blocksz == 0
    then (fails einval, zone, mem)
    else elim page [
      | none ↦ (fails enomem, record zone { pages = none }, mem)
      | some p ↦ elim mapped [
        | none ↦ (fails enomem, record zone { pages = some p; vaddr = 0 }, mem)
        | some v ↦ (eok, initialized p v blocksz blocks, prepare mem v blocksz blocks)
      ]
    ]

-- `zone` is not NULL here, nor in the next functions.
pub zone_destroy : Zone → Result × Zone
zone_destroy zone =
    if zone.used == 0
    then (eok, record zone { vaddr = 0; first = 0; pages = none })
    else (fails ebusy, zone)

-- The block, 0 for none. (`*addr`, which is only computed from it, is left out.)
pub zalloc : Zone → Memory → ℕ × Zone
zalloc zone mem =
    if zone.used == zone.blocks
    then (0, zone)
    else (zone.first, record zone { first = mem zone.first; used = (zone.used + 1) % 2 ^ 32 })

pub zfree : Zone → Memory → ℕ → Zone × Memory
zfree zone mem block =
    if ltb block zone.vaddr || leb (zone.vaddr + zone.blocksz * zone.blocks) block
    then (zone, mem)
    else if mask_off zone.blocksz block == 0
    then (zone, mem)
    else (
      record zone { first = block; used = (zone.used + 2 ^ 32 - 1) % 2 ^ 32 },
      upd mem block zone.first,
    )
