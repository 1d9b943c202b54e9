-- ===== src/Vm/Zone/Check.antt =====
-- The tests of _vm_zoneCreate and _vm_zfree in vm/zone.c on block sizes and block addresses.
use native.Mathlib.Nat.{pow-suc}
use native.Mathlib.Decide.{}
use phoenix_rtos_kernel.Base.{
  ℕ, zero, suc, ◌-◌, ◌/◌, ◌^◌, ◌≤◌, ◌<◌, ◌≡◌, ◌≢◌, ap, bit_and, bit_and-halves, some, eok, arith,
}
use phoenix_rtos_kernel.Vm.Zone.{Zone, Memory, mask_off, zone_create}

-- What a number shares no bit with the complement of, it does not exceed.
within : (w b c : ℕ) → b < 2 ^ w → c < 2 ^ w → bit_and b (2 ^ w - 1 - c) ≡ 0 → b ≤ c
within zero b c hb hc e = omega arith
within (suc w) b c hb hc e =
    let half : (2 ^ suc w - 1 - c) / 2 ≡ 2 ^ w - 1 - c / 2 = omega (arith, pow-suc 2 w) in
    let upper : bit_and (b / 2) (2 ^ w - 1 - c / 2) ≡ 0 =
      omega (arith, bit_and-halves b (2 ^ suc w - 1 - c), ap (λ (t : ℕ). bit_and (b / 2) t) half) in
    omega (
      arith,
      bit_and-halves b (2 ^ suc w - 1 - c),
      pow-suc 2 w,
      within w (b / 2) (c / 2) (omega (arith, pow-suc 2 w)) (omega (arith, pow-suc 2 w)) upper,
    )

-- The test on an address lets every one through that is not below the block size.
pub mask_off-ne : (blocksz x : ℕ) → 0 < blocksz → blocksz ≤ x → x < 2 ^ 64 → mask_off blocksz x ≢ 0
mask_off-ne blocksz x pos h lt e =
    let mask : 2 ^ 64 - blocksz ≡ 2 ^ 64 - 1 - (blocksz - 1) = omega arith in
    let none_shared : bit_and x (2 ^ 64 - 1 - (blocksz - 1)) ≡ 0 = rw (← mask) e in
    omega (arith, within 64 x (blocksz - 1) lt (omega arith) none_shared)

-- `_vm_zoneCreate` never refuses a block size other than 0: whether or not it is a power of two, the
-- call succeeds for any number of blocks other than 0 once it has its page and its mapping.
pub zone_create-any_size :
    (zone : Zone) (mem : Memory) (page vaddr blocksz blocks : ℕ)
    → 0 < blocksz
    → blocksz < 2 ^ 64
    → 0 < blocks
    → (zone_create zone mem (some page) (some vaddr) blocksz blocks).0 ≡ eok
unfolding zone_create
zone_create-any_size zone mem page vaddr blocksz blocks pos h some_blocks =
    ground (arith, mask_off-ne blocksz blocksz pos (omega arith) h)
