-- ===== src/Vm/SizeIndex.antt =====
-- The index that vm/page.c and vm/kmalloc.c compute for a size: the binary logarithm, rounded up.
use native.Mathlib.Decide.{dec_lt}
use native.Mathlib.Nat.{pow-suc, mul-le-mul_right, le_of_mul-le-mul_right}
use phoenix_rtos_kernel.Base.{
  ℕ, suc, ◌+◌, ◌-◌, ◌*◌, ◌%◌, ◌^◌, ◌≤◌, ◌<◌, ◌≡◌, ap, ◌∙◌, ltb, if◌then◌else◌, arith, two_pow_add,
  two_pow_pos, two_pow_mono,
}
use phoenix_rtos_kernel.Hal.BitScan.{hal_cpu_get_last_bit, hal_cpu_get_first_bit}
use phoenix_rtos_kernel.Hal.BitScan.Order.{last_bit_lem}
use phoenix_rtos_kernel.Hal.BitScan.First.{first_bit_lem}

unfoldable pub size_index : ℕ → ℕ
size_index size =
    let start = hal_cpu_get_last_bit size in
    if ltb (hal_cpu_get_first_bit size) start then start + 1 else start

-- A power of two has no odd multiple of a smaller one.
odd_multiple : (x fb lb : ℕ) → x % 2 ≡ 1 → fb < lb → ¬ (2 ^ lb ≡ x * 2 ^ fb)
odd_multiple x fb lb odd h e =
    let sum : lb ≡ suc (lb - fb - 1) + fb = omega arith in
    let whole : 2 ^ lb ≡ 2 ^ suc (lb - fb - 1) * 2 ^ fb =
      ap (λ (t : ℕ). 2 ^ t) sum ∙ two_pow_add (suc (lb - fb - 1)) fb in
    let ge : x ≤ 2 ^ suc (lb - fb - 1) =
      le_of_mul-le-mul_right {k = 2 ^ fb} (omega arith) (two_pow_pos fb) in
    let le : 2 ^ suc (lb - fb - 1) ≤ x =
      le_of_mul-le-mul_right {k = 2 ^ fb} (omega arith) (two_pow_pos fb) in
    omega (arith, pow-suc 2 (lb - fb - 1))

module _ (v fb lb x : ℕ) (low : 2 ^ lb ≤ v) (high : v < 2 ^ (lb + 1)) (whole : v ≡ x * 2 ^ fb)
    (odd : x % 2 ≡ 1) where
  double : 2 ^ (lb + 1) ≡ 2 * 2 ^ lb
  double = omega (arith, two_pow_add lb 1)

  -- The lowest bit below the highest: the size is no power of two.
  between : fb < lb → (v ≤ 2 ^ (lb + 1)) × (2 ^ (lb + 1) < 2 * v)
  between h = elim (dec_lt (2 ^ lb) v) [
    | yes l ↦ omega (arith, double)
    | no g ↦ absurd (odd_multiple x fb lb odd h (omega arith))
  ]

  -- One bit: the size is 2^lb.
  single : lb ≤ fb → v ≡ 2 ^ lb
  single h =
      let one : x ≡ 1 = elim (dec_lt x 2) [
        | yes l ↦ omega arith
        | no g ↦ absurd (
            omega (
              arith,
              double,
              two_pow_mono lb fb h,
              mul-le-mul_right {m = 2} {n = x} (2 ^ fb) (omega arith),
            ))
      ] in
      let power : v ≡ 2 ^ fb = omega (arith, ap (λ (t : ℕ). t * 2 ^ fb) one) in
      elim (dec_lt lb fb) [
        | yes l ↦ absurd (omega (arith, two_pow_mono (lb + 1) fb (omega arith)))
        | no g ↦ let e : fb ≡ lb = omega arith in power ∙ ap (λ (t : ℕ). 2 ^ t) e
      ]

-- `size_index` of a size other than 0 is the index of the smallest power of two that holds it.
pub size_index_lem :
    (v : ℕ) → 0 < v → v < 2 ^ 64 → (v ≤ 2 ^ size_index v) × (2 ^ size_index v < 2 * v)
unfolding size_index
size_index_lem v pos h =
    let (low, high) = last_bit_lem v pos h in
    let (x, whole, odd) = first_bit_lem v pos h in
    ground (
      arith,
      between v (hal_cpu_get_first_bit v) (hal_cpu_get_last_bit v) x low high whole odd,
      single v (hal_cpu_get_first_bit v) (hal_cpu_get_last_bit v) x low high whole odd,
    )
