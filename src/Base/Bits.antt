-- ===== src/Base/Bits.antt =====
-- Digits and masks: the native bit operations by their lowest bit.
use Prim.Native.Nat.{
  ℕ, zero, suc, ◌+◌, ◌-◌, ◌*◌, ◌/◌, ◌%◌, ◌^◌, ◌≤◌, ◌<◌, min, bit_and, digits, bit_and-bitwise,
}
use mathlib.Core.Path.{◌≡◌, refl, ap, ◌∙◌}
use native.Mathlib.Nat.{
  pow-suc, one-le-pow, mod-lt, mod-eq_of_lt, div-add-mod, mul-add-mod_self_left,
}
use native.Mathlib.Omega.{arith}

-- A bit operation done in rounds, one binary digit each; `z` gives the result where the first operand
-- has no digits left.
module _ (z : ℕ → ℕ) (f : ℕ → ℕ → ℕ) where
  one_more : (n a b : ℕ) → a ≤ n → digits z f (suc n) a b ≡ digits z f n a b
  one_more zero zero b enough = refl
  one_more (suc n) zero b enough = refl
  one_more zero (suc a) b enough = absurd (omega arith)
  one_more (suc n) (suc a) b enough = omega (arith, one_more n (suc a / 2) (b / 2) (omega arith))

  -- Rounds beyond the size of the first operand change nothing.
  pub spare_rounds :
      (spare n m a b : ℕ) → m ≡ spare + n → a ≤ n → digits z f m a b ≡ digits z f n a b
  spare_rounds zero n m a b e enough =
      let same : m ≡ n = omega arith in ap (λ k. digits z f k a b) same
  spare_rounds (suc spare) n zero a b e enough = absurd (omega arith)
  spare_rounds (suc spare) n (suc m) a b e enough =
      one_more m a b (omega arith) ∙ spare_rounds spare n m a b (omega arith) enough

-- The law for the lowest bit.
pub bit_and-halves : (a b : ℕ) → bit_and a b ≡ bit_and (a / 2) (b / 2) * 2 + min (a % 2) (b % 2)
bit_and-halves zero b = omega (arith, bit_and-bitwise 0 (b / 2), bit_and-bitwise 0 b)
bit_and-halves (suc a) b =
    let half : ℕ = suc a / 2 in
    let shorter =
      spare_rounds (λ c. zero) min (a - half) half a half (b / 2) (omega arith) (omega arith) in
    omega (arith, shorter, bit_and-bitwise half (b / 2), bit_and-bitwise (suc a) b)

rounds-zero : (n a : ℕ) → digits (λ c. zero) min n a 0 ≡ 0
rounds-zero zero zero = refl
rounds-zero zero (suc a) = refl
rounds-zero (suc n) zero = refl
rounds-zero (suc n) (suc a) = omega (arith, rounds-zero n (suc a / 2))

pub bit_and-zero : (a : ℕ) → bit_and a 0 ≡ 0
bit_and-zero a = bit_and-bitwise a 0 ∙ rounds-zero a a

-- The remainder by the mask's width, from the one half the size.
mod-halves : (a p : ℕ) → 0 < p → a % (2 * p) ≡ a / 2 % p * 2 + a % 2
mod-halves a p h =
    let rest : ℕ = a / 2 % p * 2 + a % 2 in
    let q : ℕ = a / 2 / p in
    let whole : a ≡ 2 * p * q + rest = omega (arith, div-add-mod (a / 2) p) in
    let small : rest < 2 * p = omega (arith, mod-lt (a / 2) h) in
    ap (λ x. x % (2 * p)) whole ∙ mul-add-mod_self_left (2 * p) q rest ∙ mod-eq_of_lt small

pub bit_and-mask : (k a : ℕ) → bit_and a (2 ^ k - 1) ≡ a % 2 ^ k
bit_and-mask zero a = omega (arith, bit_and-zero a)
bit_and-mask (suc k) a = ground (
  arith,
  bit_and-halves a (2 ^ suc k - 1),
  pow-suc 2 k,
  one-le-pow k 2,
  bit_and-mask k (a / 2),
  mod-halves a (2 ^ k) (one-le-pow k 2 (omega arith)),
)
