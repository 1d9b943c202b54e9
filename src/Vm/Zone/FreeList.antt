-- ===== src/Vm/Zone/FreeList.antt =====
-- A zone as the stack of its free blocks.
use native.Mathlib.Nat.{mul-le-mul_left}
use phoenix_rtos_kernel.Base.{
  ℕ, suc, ◌+◌, ◌-◌, ◌*◌, ◌%◌, ◌^◌, ◌≤◌, ◌<◌, ◌≡◌, ◌≢◌, refl, false, List, [], ◌∷◌, ◌==◌, upd,
  length, arith, ==_refl,
}
use phoenix_rtos_kernel.Vm.Zone.{Zone, Memory, zalloc, zfree}
use phoenix_rtos_kernel.Vm.Zone.Check.{mask_off-ne}

-- From `first` the words of memory lead through the blocks to NULL.
abbrev pub Chain : Memory → ℕ → List ℕ → Type 0
Chain mem first [] = first ≡ 0
Chain mem first (b ∷ bs) = (first ≡ b) × (b ≢ 0) × Chain mem (mem b) bs

abbrev pub Outside : ℕ → List ℕ → Type 0
Outside a [] = Unit
Outside a (b ∷ bs) = (a ≢ b) × Outside a bs

-- A block of the zone is at one of its slots.
abbrev pub IsBlock : Zone → ℕ → Type 0
IsBlock z b = (i : ℕ) × (i < z.blocks) × (b ≡ z.vaddr + i * z.blocksz)

abbrev pub Blocks : Zone → List ℕ → Type 0
Blocks z [] = Unit
Blocks z (b ∷ bs) = IsBlock z b × Outside b bs × Blocks z bs

-- The blocks `bs` are free, in this order; they are different blocks of the zone, and the others are
-- in use.
pub record IsZone (z : Zone) (mem : Memory) (bs : List ℕ) : Type 0 where
  pub chain : Chain mem z.first bs
  pub blocks : Blocks z bs
  pub counted : length bs + z.used ≡ z.blocks
  pub sized : 0 < z.blocksz
  pub narrow : z.blocks < 2 ^ 32

Chain-frame :
    (mem : Memory) (a v first : ℕ) (bs : List ℕ)
    → Outside a bs
    → Chain mem first bs
    → Chain (upd mem a v) first bs
Chain-frame mem a v first [] o c = c
Chain-frame mem a v first (b ∷ bs) o c =
    let other : (b == a) ≡ false = ground arith in
    (c.0, c.1, rw other (Chain-frame mem a v (mem b) bs o.1 c.2))

Blocks-same :
    (z z' : Zone) (bs : List ℕ)
    → z'.blocks ≡ z.blocks
    → z'.vaddr ≡ z.vaddr
    → z'.blocksz ≡ z.blocksz
    → Blocks z bs
    → Blocks z' bs
Blocks-same z z' [] n v s h = h
Blocks-same z z' (b ∷ bs) n v s h =
    ((h.0.0, rw n h.0.1, rw (v, s) h.0.2), h.1, Blocks-same z z' bs n v s h.2)

abbrev allocated : Zone → Memory → Zone
allocated z mem = record z { first = mem z.first; used = (z.used + 1) % 2 ^ 32 }

-- `_vm_zalloc` gives out the first free block and leaves the others.
pub zalloc_lem :
    (z : Zone) (mem : Memory) (b : ℕ) (bs : List ℕ)
    → IsZone z mem (b ∷ bs)
    → ((zalloc z mem).0 ≡ b) × IsZone (zalloc z mem).1 mem bs
unfolding zalloc
zalloc_lem z mem b bs v =
    let more : (z.used == z.blocks) ≡ false = ground (arith, v.counted) in
    rw more (
      v.chain.0,
      record {
        chain = rw v.chain.0 v.chain.2;
        blocks = Blocks-same z (allocated z mem) bs refl refl refl v.blocks.2;
        counted = omega (arith, v.counted, v.narrow);
        sized = v.sized;
        narrow = v.narrow;
      },
    )

-- With no free block `_vm_zalloc` returns NULL and changes nothing.
pub zalloc-none : (z : Zone) (mem : Memory) → IsZone z mem [] → zalloc z mem ≡ (0, z)
unfolding zalloc
zalloc-none z mem v = ground (arith, v.counted)

abbrev freed : Zone → ℕ → Zone
freed z b = record z { first = b; used = (z.used + 2 ^ 32 - 1) % 2 ^ 32 }

zfree-steps :
    (z : Zone) (mem : Memory) (b : ℕ)
    → IsBlock z b
    → 0 < z.blocksz
    → z.blocksz ≤ b
    → b < 2 ^ 64
    → zfree z mem b ≡ (freed z b, upd mem b z.first)
unfolding zfree
zfree-steps z mem b slot pos high word =
    let i : ℕ = slot.0 in
    let below : b < z.vaddr + z.blocksz * z.blocks =
      omega (arith, slot.1, slot.2, mul-le-mul_left {m = suc i} {n = z.blocks} z.blocksz slot.1) in
    let from : z.vaddr ≤ b = omega (arith, slot.2) in
    ground (arith, mask_off-ne z.blocksz b pos high word)

-- `_vm_zfree` of a block in use, which lies no lower than the block size, puts it in front of the
-- free blocks.
pub zfree_lem :
    (z : Zone) (mem : Memory) (b : ℕ) (bs : List ℕ)
    → IsZone z mem bs
    → IsBlock z b
    → Outside b bs
    → 0 < z.used
    → z.blocksz ≤ b
    → b < 2 ^ 64
    → IsZone (zfree z mem b).0 (zfree z mem b).1 (b ∷ bs)
zfree_lem z mem b bs v slot out busy high word =
    rw (zfree-steps z mem b slot v.sized high word) (record {
      chain = (
        refl,
        omega (arith, v.sized),
        rw ==_refl (Chain-frame mem b z.first z.first bs out v.chain),
      );
      blocks = (slot, out, Blocks-same z (freed z b) bs refl refl refl v.blocks);
      counted = omega (arith, v.counted, v.narrow);
      sized = v.sized;
      narrow = v.narrow;
    })

-- Freed and allocated again, a block comes back, and the zone is as before.
pub zalloc-zfree :
    (z : Zone) (mem : Memory) (b : ℕ) (bs : List ℕ)
    → IsZone z mem bs
    → IsBlock z b
    → Outside b bs
    → 0 < z.used
    → z.blocksz ≤ b
    → b < 2 ^ 64
    → zalloc (zfree z mem b).0 (zfree z mem b).1 ≡ (b, z)
unfolding zalloc
zalloc-zfree z mem b bs v slot out busy high word =
    rw (zfree-steps z mem b slot v.sized high word) (ground (arith, ==_refl b, v.counted, v.narrow))
