-- ===== src/Posix/Files/Count.antt =====
-- The number of descriptors of a file in the table of posix/posix.c.
use phoenix_rtos_kernel.Base.{
  ℕ, zero, suc, ◌+◌, ◌≤◌, ◌<◌, ◌≡◌, refl, false, ◌==◌, ==_refl, if◌then◌else◌, upd, Bool-cases, inl,
  inr, arith,
}

abbrev pub one : ℕ → ℕ → ℕ
one g f = if g == f then 1 else 0

-- How many of the first `n` descriptors are of the file
unfoldable pub count : ℕ → (ℕ → ℕ) → ℕ → ℕ
count zero t f = 0
count (suc n) t f = one (t n) f + count n t f

count-above : (n : ℕ) (t : ℕ → ℕ) (i g f : ℕ) → n ≤ i → count n (upd t i g) f ≡ count n t f
unfolding count
count-above zero t i g f h = refl
count-above (suc n) t i g f h =
    let other : (n == i) ≡ false = ground arith in
    rw (other, count-above n t i g f (omega arith)) refl

pub count-upd :
    (n : ℕ) (t : ℕ → ℕ) (i g f : ℕ)
    → i < n
    → count n (upd t i g) f + one (t i) f ≡ count n t f + one g f
unfolding count
count-upd zero t i g f h = absurd (omega arith)
count-upd (suc n) t i g f h = elim (Bool-cases (n == i)) [
  | inl e ↦
      let same : n ≡ i = ground arith in
      rw (e, count-above n t i g f (omega arith), same) (omega arith)
  | inr e ↦ rw e (omega (arith, count-upd n t i g f (ground arith)))
]

-- A descriptor of a file is counted.
pub count-pos : (n : ℕ) (t : ℕ → ℕ) (i : ℕ) → i < n → 0 < count n t (t i)
unfolding count
count-pos zero t i h = absurd (omega arith)
count-pos (suc n) t i h = elim (Bool-cases (n == i)) [
  | inl e ↦ let same : n ≡ i = ground arith in rw (same, ==_refl (t i)) (omega arith)
  | inr e ↦ omega (arith, count-pos n t i (ground arith))
]
