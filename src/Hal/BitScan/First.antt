-- ===== src/Hal/BitScan/First.antt =====
-- hal_cpuGetFirstBit of hal/riscv64/cpu.h, and divisibility by powers of two.
use native.Mathlib.Decide.{}
use native.Mathlib.Nat.{mul-le-mul_right, mod-lt, div-add-mod, mod-eq_of_lt, mul-add-mod_self_left}
use phoenix_rtos_kernel.Base.{
  ℕ, suc, ◌+◌, ◌-◌, ◌*◌, ◌/◌, ◌%◌, ◌^◌, ◌<◌, ◌≡◌, ◌≢◌, ap, ◌∙◌, ◌==◌, bit_and, arith, bit_and-mask,
  two_pow_add, two_pow_pos, Bool-cases, inl, inr,
}
use phoenix_rtos_kernel.Hal.BitScan.{shift_down, first_bit_steps, hal_cpu_get_first_bit}

-- On the way: the word has been shifted right by `fb` zeros, and one of its lowest `w` bits is set.
record IsLow (v w : ℕ) (s : ℕ × ℕ) : Type 0 where
  moved : v ≡ s.1 * 2 ^ s.0
  low : s.1 % 2 ^ w ≢ 0

-- The lowest `w + w` bits, by halves.
mod-twice : (x w : ℕ) → x % 2 ^ (w + w) ≡ 2 ^ w * (x / 2 ^ w % 2 ^ w) + x % 2 ^ w
mod-twice x w =
    let p : ℕ = 2 ^ w in
    let q : ℕ = x / p / p in
    let rest : ℕ = p * (x / p % p) + x % p in
    let whole : x ≡ p * p * q + rest =
      omega (arith, div-add-mod x p, ap (λ (t : ℕ). p * t) (div-add-mod (x / p) p)) in
    let below : rest < p * p = omega (
      arith,
      mod-lt x (two_pow_pos w),
      mul-le-mul_right {m = suc (x / p % p)} {n = p} p (mod-lt (x / p) (two_pow_pos w)),
    ) in
    ap (λ t. x % t) (two_pow_add w w)
    ∙ ap (λ t. t % (p * p)) whole
    ∙ mul-add-mod_self_left (p * p) q rest
    ∙ mod-eq_of_lt below

module _ (v w mask fb x : ℕ) (m : mask ≡ 2 ^ w - 1) where
  value : bit_and x mask ≡ x % 2 ^ w
  value = rw m (bit_and-mask w x)

  shift_down-IsLow : IsLow v (w + w) (fb, x) → IsLow v w (shift_down mask w (fb, x))
  unfolding shift_down
  shift_down-IsLow a = elim (Bool-cases (bit_and x mask == 0)) [
    | inl e ↦
        let clear : x % 2 ^ w ≡ 0 = ground (arith, value) in
        rw e (record {
          moved =
              a.moved
              ∙ omega (
                arith,
                ap (λ (t : ℕ). t * 2 ^ fb) (div-add-mod x (2 ^ w)),
                ap (λ (t : ℕ). t * 2 ^ fb) clear,
                ap (λ (t : ℕ). x / 2 ^ w * t) (two_pow_add fb w),
              );
          low = λ z. a.low (omega (arith, mod-twice x w, ap (λ (t : ℕ). 2 ^ w * t) z));
        })
    | inr e ↦ rw e (record { moved = a.moved; low = λ z. ground (arith, value) })
  ]

steps-IsLow : (v : ℕ) → 0 < v → v < 2 ^ 64 → IsLow v 2 (first_bit_steps v)
unfolding first_bit_steps
steps-IsLow v pos h = shift_down-IsLow v 2 _ _ _ (omega arith) (
    shift_down-IsLow v 4 _ _ _ (omega arith) (
      shift_down-IsLow v 8 _ _ _ (omega arith) (
        shift_down-IsLow v 16 _ _ _ (omega arith) (
          shift_down-IsLow v 32 _ 0 v (omega arith)
            (record { moved = omega arith; low = omega arith })))))

result : (v : ℕ) → (shift_down 0x1 1 (first_bit_steps v)).0 ≡ hal_cpu_get_first_bit v
unfolding hal_cpu_get_first_bit shift_down
result v = ground arith

-- `hal_cpuGetFirstBit` of a 64-bit word other than 0 is the number of zero bits at its low end: the
-- word is an odd number shifted left by it.
pub first_bit_lem :
    (v : ℕ) → 0 < v → v < 2 ^ 64 → (x : ℕ) × (v ≡ x * 2 ^ hal_cpu_get_first_bit v) × (x % 2 ≡ 1)
first_bit_lem v pos h =
    let s = shift_down 0x1 1 (first_bit_steps v) in
    let a : IsLow v 1 s = shift_down-IsLow v 1 _ _ _ (omega arith) (steps-IsLow v pos h) in
    (s.1, rw (← result v) a.moved, omega (arith, a.low))
