-- ===== src/Base/Shifts.antt =====
-- Masks of a run of bits above the lowest ones, and sums of exponents.
use Prim.Native.Nat.{
  ℕ, zero, suc, ◌+◌, ◌-◌, ◌*◌, ◌/◌, ◌%◌, ◌^◌, ◌≤◌, ◌<◌, min, max, bit_and, bit_or, bit_or-bitwise,
}
use mathlib.Core.Path.{◌≡◌, ap, ◌∙◌}
use native.Mathlib.Nat.{
  pow-suc, one-le-pow, div-div-eq-div-mul, mod-eq_of_lt, div-add-mod, mul-le-mul_left,
  mul-le-mul_right,
}
use native.Mathlib.Decide.{dec_lt}
use native.Mathlib.Omega.{arith}
use phoenix_rtos_kernel.Base.Bits.{bit_and-halves, bit_and-mask, spare_rounds}

pub two_pow_add : (a b : ℕ) → 2 ^ (a + b) ≡ 2 ^ a * 2 ^ b
two_pow_add zero b = let e : 0 + b ≡ b = omega arith in rw e (omega arith)
two_pow_add (suc a) b =
    let e : suc a + b ≡ suc (a + b) = omega arith in
    rw e
      (omega (arith, pow-suc 2 (a + b), ap (λ (t : ℕ). t * 2 ^ b) (pow-suc 2 a), two_pow_add a b))

pub two_pow_pos : (a : ℕ) → 0 < 2 ^ a
two_pow_pos a = one-le-pow a 2 (omega arith)

pub two_pow_mono : (a b : ℕ) → a ≤ b → 2 ^ a ≤ 2 ^ b
two_pow_mono a b h =
    let e : b ≡ b - a + a = omega arith in
    rw e (
      omega (
        arith,
        two_pow_add (b - a) a,
        mul-le-mul_right {m = 1} {n = 2 ^ (b - a)} (2 ^ a) (two_pow_pos (b - a)),
      ))

-- A mask shifted up reads the shifted word.
pub bit_and-shifted : (k m x : ℕ) → bit_and x (2 ^ k * m) ≡ 2 ^ k * bit_and (x / 2 ^ k) m
bit_and-shifted zero m x =
    let e : 1 * m ≡ m = omega arith in let d : x / 1 ≡ x = omega arith in rw (e, d) (omega arith)
bit_and-shifted (suc k) m x =
    let mask : 2 ^ suc k * m ≡ 2 * (2 ^ k * m) =
      omega (arith, ap (λ (t : ℕ). t * m) (pow-suc 2 k)) in
    let half : 2 * (2 ^ k * m) / 2 ≡ 2 ^ k * m = omega arith in
    let low : 2 * (2 ^ k * m) % 2 ≡ 0 = omega arith in
    let twice : 2 * 2 ^ k ≡ 2 ^ suc k = omega (arith, pow-suc 2 k) in
    let shifted : x / 2 / 2 ^ k ≡ x / 2 ^ suc k =
      div-div-eq-div-mul x 2 (2 ^ k) ∙ ap (λ t. x / t) twice in
    let rest : bit_and (x / 2) (2 ^ k * m) ≡ 2 ^ k * bit_and (x / 2 ^ suc k) m =
      bit_and-shifted k m (x / 2) ∙ ap (λ t. 2 ^ k * bit_and t m) shifted in
    rw mask (
      omega (
        arith,
        bit_and-halves x (2 * (2 ^ k * m)),
        ap (λ t. bit_and (x / 2) t) half,
        low,
        rest,
        ap (λ (t : ℕ). t * bit_and (x / 2 ^ suc k) m) twice,
      ))

pub quotient-lt : (k j x : ℕ) → x < 2 ^ (k + j) → x / 2 ^ k < 2 ^ j
quotient-lt k j x h = elim (dec_lt (x / 2 ^ k) (2 ^ j)) [
  | yes l ↦ l
  | no g ↦ absurd (
      omega (
        arith,
        two_pow_add k j,
        div-add-mod x (2 ^ k),
        mul-le-mul_left {m = 2 ^ j} {n = x / 2 ^ k} (2 ^ k) (omega arith),
      ))
]

-- Of a word of `k + j` bits, the mask of the upper `j` is zero exactly when the word fits `k` bits.
pub high_mask-zero :
    (k j x : ℕ) → x < 2 ^ (k + j) → bit_and x (2 ^ k * (2 ^ j - 1)) ≡ 2 ^ k * (x / 2 ^ k)
high_mask-zero k j x h =
    bit_and-shifted k (2 ^ j - 1) x
    ∙ ap (λ t. 2 ^ k * t) (bit_and-mask j (x / 2 ^ k) ∙ mod-eq_of_lt (quotient-lt k j x h))

-- The lowest bit of a conjunction and of a disjunction.
pub bit_and-low : (a b : ℕ) → bit_and a b % 2 ≡ min (a % 2) (b % 2)
bit_and-low a b = omega (arith, bit_and-halves a b)

pub bit_or-halves : (a b : ℕ) → bit_or a b ≡ bit_or (a / 2) (b / 2) * 2 + max (a % 2) (b % 2)
bit_or-halves zero b = omega (arith, bit_or-bitwise 0 (b / 2), bit_or-bitwise 0 b)
bit_or-halves (suc a) b =
    let half : ℕ = suc a / 2 in
    let shorter =
      spare_rounds (λ c. c) max (a - half) half a half (b / 2) (omega arith) (omega arith) in
    omega (arith, shorter, bit_or-bitwise half (b / 2), bit_or-bitwise (suc a) b)

pub bit_or-low : (a b : ℕ) → bit_or a b % 2 ≡ max (a % 2) (b % 2)
bit_or-low a b = omega (arith, bit_or-halves a b)
