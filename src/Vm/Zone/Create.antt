-- ===== src/Vm/Zone/Create.antt =====
-- _vm_zoneCreate of vm/zone.c, and the free list that it builds.
use native.Mathlib.Nat.{mul-le-mul_right}
use native.Mathlib.Decide.{dec_lt}
use phoenix_rtos_kernel.Base.{
  ℕ, zero, suc, ◌+◌, ◌-◌, ◌*◌, ◌^◌, ◌≤◌, ◌<◌, ◌≡◌, ◌≢◌, refl, ap, ◌∙◌, false, List, [], ◌∷◌, some,
  ◌==◌, upd, length, arith, ==_refl, eok,
}
use phoenix_rtos_kernel.Vm.Zone.{Zone, Memory, zone_create, prepare, link_blocks, mask_off}
use phoenix_rtos_kernel.Vm.Zone.Check.{mask_off-ne}
use phoenix_rtos_kernel.Vm.Zone.FreeList.{Chain, Outside, Blocks, IsZone}

module _ (v s : ℕ) (pos : 0 < s) where
  slot-lt : (i j : ℕ) → i < j → v + i * s < v + j * s
  slot-lt i j h = omega (arith, mul-le-mul_right {m = suc i} {n = j} s h)

  -- What the loop leaves below the block it starts at, and from there on.
  link-below :
      (n : ℕ) (mem : Memory) (i j : ℕ)
      → j < i
      → link_blocks n mem v s i (v + j * s) ≡ mem (v + j * s)
  unfolding link_blocks
  link-below zero mem i j h = refl
  link-below (suc n) mem i j h =
      ground (arith, link-below n (upd mem (v + i * s) (v + (i + 1) * s)) (i + 1) j, slot-lt j i h)

  link-at :
      (n : ℕ) (mem : Memory) (i j : ℕ)
      → i ≤ j
      → j < i + n
      → link_blocks n mem v s i (v + j * s) ≡ v + (j + 1) * s
  unfolding link_blocks
  link-at zero mem i j a b = absurd (omega arith)
  link-at (suc n) mem i j a b =
      let mem' : Memory = upd mem (v + i * s) (v + (i + 1) * s) in
      elim (dec_lt i j) [
        | yes l ↦ link-at n mem' (i + 1) j (omega arith) (omega arith)
        | no g ↦
            let e : j ≡ i = omega arith in
            rw e (link-below n mem' (i + 1) i (omega arith) ∙ rw ==_refl refl)
      ]

  prepared :
      (mem : Memory) (blocks j : ℕ)
      → j + 1 < blocks
      → prepare mem v s blocks (v + j * s) ≡ v + (j + 1) * s
  unfolding prepare
  prepared mem blocks j h = ground (
    arith,
    link-at blocks mem 0 j (omega arith) (omega arith),
    slot-lt j (blocks - 1) (omega arith),
  )

  prepared-last :
      (mem : Memory) (blocks j : ℕ) → j + 1 ≡ blocks → prepare mem v s blocks (v + j * s) ≡ 0
  unfolding prepare
  prepared-last mem blocks j h = let e : blocks - 1 ≡ j = omega arith in rw (e, ==_refl (v + j * s))

  -- The blocks from number `i` on.
  pub slots : ℕ → ℕ → List ℕ
  slots i zero = []
  slots i (suc n) = (v + i * s) ∷ slots (i + 1) n

  length-slots : (i n : ℕ) → length (slots i n) ≡ n
  unfolding slots
  length-slots i zero = refl
  length-slots i (suc n) = ap suc (length-slots (i + 1) n)

  Outside-slots : (a i n : ℕ) → a < i → Outside (v + a * s) (slots i n)
  unfolding slots
  Outside-slots a i zero h = tt
  Outside-slots a i (suc n) h =
      (λ e. omega (arith, slot-lt a i h), Outside-slots a (i + 1) n (omega arith))

  Chain-slots :
      (mem : Memory) (blocks n i : ℕ)
      → v ≢ 0
      → suc n + i ≡ blocks
      → Chain (prepare mem v s blocks) (v + i * s) (slots i (suc n))
  unfolding slots
  Chain-slots mem blocks zero i nz e = (refl, omega arith, prepared-last mem blocks i (omega arith))
  Chain-slots mem blocks (suc n) i nz e =
      let step : prepare mem v s blocks (v + i * s) ≡ v + (i + 1) * s =
        prepared mem blocks i (omega arith) in
      (refl, omega arith, rw step (Chain-slots mem blocks n (i + 1) nz (omega arith)))

  Blocks-slots :
      (z : Zone) (n i : ℕ) → z.vaddr ≡ v → z.blocksz ≡ s → n + i ≡ z.blocks → Blocks z (slots i n)
  unfolding slots
  Blocks-slots z zero i a b e = tt
  Blocks-slots z (suc n) i a b e = (
    (i, omega arith, rw (a, b) refl),
    Outside-slots i (i + 1) n (omega arith),
    Blocks-slots z n (i + 1) a b (omega arith),
  )

abbrev created : ℕ → ℕ → ℕ → ℕ → Zone
created page v s blocks = record {
  blocksz = s;
  blocks = blocks;
  used = 0;
  vaddr = v;
  first = v;
  pages = some page;
}

-- For blocks that have room for a pointer and lie within the address space, a call of
-- `_vm_zoneCreate` that gets its page and its mapping makes a zone whose blocks are all free, the
-- first one at the start of the mapping.
pub zone_create_lem :
    (zone : Zone) (mem : Memory) (page v s blocks : ℕ) (pos : 0 < s)
    → s < 2 ^ 64
    → 0 < blocks
    → blocks < 2 ^ 32
    → v ≢ 0
    → 8 ≤ s
    → v + blocks * s ≤ 2 ^ 64
    → let (result, zone', mem') = zone_create zone mem (some page) (some v) s blocks in
      (result ≡ eok) × IsZone zone' mem' (slots v s pos 0 blocks)
unfolding zone_create
zone_create_lem zone mem page v s zero pos word some_blocks narrow nz wide space =
    absurd (omega arith)
zone_create_lem zone mem page v s (suc n) pos word some_blocks narrow nz wide space =
    let sized : (s == 0) ≡ false = ground arith in
    let nonzero : (suc n == 0) ≡ false = ground arith in
    let accepted : (mask_off s s == 0) ≡ false =
      ground (arith, mask_off-ne s s pos (omega arith) word) in
    let front : v + 0 * s ≡ v = omega arith in
    rw (sized, nonzero, accepted)
      (
        refl,
        record {
          chain = rw front at (Chain-slots v s pos mem (suc n) n 0 nz (omega arith));
          blocks =
              Blocks-slots v s pos (created page v s (suc n)) (suc n) 0 refl refl (omega arith);
          counted = omega (arith, length-slots v s pos 0 (suc n));
          sized = pos;
          narrow = narrow;
        },
      )
