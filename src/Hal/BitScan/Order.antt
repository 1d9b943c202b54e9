-- ===== src/Hal/BitScan/Order.antt =====
-- hal_cpuGetLastBit of hal/riscv64/cpu.h, and the order of powers of two.
use native.Mathlib.Nat.{mul-le-mul_right, le_of_mul-le-mul_right, mod-lt, div-add-mod, div-eq_of_lt}
use native.Mathlib.Decide.{dec_lt}
use phoenix_rtos_kernel.Base.{
  ℕ, suc, ◌+◌, ◌-◌, ◌*◌, ◌/◌, ◌%◌, ◌^◌, ◌≤◌, ◌<◌, ◌≡◌, ap, ◌∙◌, sym, ◌==◌, bit_and, arith, ltb,
  true, false, high_mask-zero, two_pow_add, two_pow_pos,
}
use phoenix_rtos_kernel.Hal.BitScan.{shift_up, last_bit_steps, hal_cpu_get_last_bit}

-- `lb` and the shifted word, on the way: the word has been shifted left by `63 - lb`, and its highest
-- set bit is among the upper `w`.
lt→ltb : {a b : ℕ} → a < b → ltb a b ≡ true
lt→ltb h = ground arith

le→ltb : {a b : ℕ} → b ≤ a → ltb a b ≡ false
le→ltb h = ground arith

le_of_not-lt : {a b : ℕ} → ¬ (a < b) → b ≤ a
le_of_not-lt h = omega arith

record IsAligned (v w : ℕ) (s : ℕ × ℕ) : Type 0 where
  fits : s.1 < 2 ^ 64
  left : w ≤ s.0 + 1
  most : s.0 ≤ 63
  high : 2 ^ 64 ≤ s.1 * 2 ^ w
  moved : s.1 ≡ v * 2 ^ (63 - s.0)

shift_back : (v lb w : ℕ) → w ≤ lb → lb ≤ 63 → v * 2 ^ (63 - lb) * 2 ^ w ≡ v * 2 ^ (63 - (lb - w))
shift_back v lb w h m =
    let e : 63 - (lb - w) ≡ 63 - lb + w = omega arith in
    rw e (omega (arith, ap (λ (t : ℕ). v * t) (two_pow_add (63 - lb) w)))

-- The test of a step: the upper `w` bits are clear exactly when the word is below 2^k.
mask_test :
    (k w x mask : ℕ)
    → k + w ≡ 64
    → mask ≡ 2 ^ k * (2 ^ w - 1)
    → x < 2 ^ 64
    → (bit_and x mask == 0) ≡ ltb x (2 ^ k)
mask_test k w x mask e m h =
    let fits : x < 2 ^ (k + w) = rw e h in
    let value : bit_and x mask ≡ 2 ^ k * (x / 2 ^ k) = rw m (high_mask-zero k w x fits) in
    elim (dec_lt x (2 ^ k)) [
      | yes l ↦ ground (arith, value, ap (λ (t : ℕ). 2 ^ k * t) (div-eq_of_lt l))
      | no g ↦ ground (arith, value, div-add-mod x (2 ^ k), mod-lt x (two_pow_pos k))
    ]

module _ (v k w mask lb x : ℕ) (sum : k + w ≡ 64) (m : mask ≡ 2 ^ k * (2 ^ w - 1))
    (pos : 0 < w) where
  product : 2 ^ k * 2 ^ w ≡ 2 ^ 64
  product = sym (two_pow_add k w) ∙ ap (λ (t : ℕ). 2 ^ t) sum

  shifted-IsAligned :
      x < 2 ^ k → IsAligned v (w + w) (lb, x) → IsAligned v w (lb - w, x * 2 ^ w % 2 ^ 64)
  shifted-IsAligned l a =
      let small : x * 2 ^ w < 2 ^ 64 =
        omega (arith, product, mul-le-mul_right {m = suc x} {n = 2 ^ k} (2 ^ w) l, two_pow_pos w) in
      let same : x * 2 ^ w % 2 ^ 64 ≡ x * 2 ^ w = omega arith in
      rw same (record {
        fits = small;
        left = omega (arith, a.left);
        most = omega (arith, a.most);
        high = omega (arith, a.high, ap (λ (t : ℕ). x * t) (two_pow_add w w));
        moved =
            ap (λ (t : ℕ). t * 2 ^ w) a.moved ∙ shift_back v lb w (omega (arith, a.left)) a.most;
      })

  kept-IsAligned : 2 ^ k ≤ x → IsAligned v (w + w) (lb, x) → IsAligned v w (lb, x)
  kept-IsAligned l a = record {
    fits = a.fits;
    left = omega (arith, a.left);
    most = a.most;
    high = omega (arith, product, mul-le-mul_right {m = 2 ^ k} {n = x} (2 ^ w) l);
    moved = a.moved;
  }

  shift_up-IsAligned : IsAligned v (w + w) (lb, x) → IsAligned v w (shift_up mask w (lb, x))
  unfolding shift_up
  shift_up-IsAligned a = elim (dec_lt x (2 ^ k)) [
    | yes l ↦ rw (mask_test k w x mask sum m a.fits, lt→ltb l) (shifted-IsAligned l a)
    | no g ↦
        rw (mask_test k w x mask sum m a.fits, le→ltb (le_of_not-lt g))
          (kept-IsAligned (le_of_not-lt g) a)
  ]

steps-IsAligned : (v : ℕ) → 0 < v → v < 2 ^ 64 → IsAligned v 2 (last_bit_steps v)
unfolding last_bit_steps
steps-IsAligned v pos h =
    shift_up-IsAligned v 62 2 _ _ _ (omega arith) (omega arith) (omega arith) (
      shift_up-IsAligned v 60 4 _ _ _ (omega arith) (omega arith) (omega arith) (
        shift_up-IsAligned v 56 8 _ _ _ (omega arith) (omega arith) (omega arith) (
          shift_up-IsAligned v 48 16 _ _ _ (omega arith) (omega arith) (omega arith) (
            shift_up-IsAligned v 32 32 _ 63 v (omega arith) (omega arith) (omega arith) (record {
              fits = h;
              left = omega arith;
              most = omega arith;
              high = omega arith;
              moved = omega arith;
            })))))

-- The last step has a word with its upper bit set, unless it was moved.
aligned-bounds : (v lb x : ℕ) → IsAligned v 1 (lb, x) → (2 ^ lb ≤ v) × (v < 2 ^ (lb + 1))
aligned-bounds v lb x a =
    let e : lb + (63 - lb) ≡ 63 = omega (arith, a.most) in
    let e' : lb + 1 + (63 - lb) ≡ 64 = omega (arith, a.most) in
    let whole : 2 ^ lb * 2 ^ (63 - lb) ≡ 2 ^ 63 =
      sym (two_pow_add lb (63 - lb)) ∙ ap (λ (t : ℕ). 2 ^ t) e in
    let above : 2 ^ (lb + 1) * 2 ^ (63 - lb) ≡ 2 ^ 64 =
      sym (two_pow_add (lb + 1) (63 - lb)) ∙ ap (λ (t : ℕ). 2 ^ t) e' in
    let low : 2 ^ lb * 2 ^ (63 - lb) ≤ v * 2 ^ (63 - lb) = omega arith in
    (
      le_of_mul-le-mul_right low (two_pow_pos (63 - lb)),
      elim (dec_lt v (2 ^ (lb + 1))) [
        | yes l ↦ l
        | no g ↦ absurd (
            omega
              (arith, mul-le-mul_right {m = 2 ^ (lb + 1)} {n = v} (2 ^ (63 - lb)) (le_of_not-lt g)))
      ],
    )

result : (v : ℕ) → (shift_up 0x8000000000000000 1 (last_bit_steps v)).0 ≡ hal_cpu_get_last_bit v
unfolding hal_cpu_get_last_bit shift_up
result v = ground arith

-- `hal_cpuGetLastBit` of a 64-bit word other than 0 is the exponent of the greatest power of two that
-- is not above it.
pub last_bit_lem :
    (v : ℕ)
    → 0 < v
    → v < 2 ^ 64
    → (2 ^ hal_cpu_get_last_bit v ≤ v) × (v < 2 ^ (hal_cpu_get_last_bit v + 1))
last_bit_lem v pos h =
    let s = shift_up 0x8000000000000000 1 (last_bit_steps v) in
    let a : IsAligned v 1 s =
      shift_up-IsAligned v 63 1 _ _ _ (omega arith) (omega arith) (omega arith)
        (steps-IsAligned v pos h) in
    rw (← result v) (aligned-bounds v s.0 s.1 a)
