-- ===== src/Posix/Files/Slot.antt =====
-- The search for a free descriptor in posix/posix.c.
use phoenix_rtos_kernel.Base.{
  ℕ, zero, suc, ◌+◌, ◌≤◌, ◌<◌, ◌≡◌, ◌≢◌, ◌==◌, Bool-cases, inl, inr, arith,
}
use phoenix_rtos_kernel.Posix.Files.{free_slot}

-- The search gives the first free descriptor, or one above the last.
pub free_slot_lem :
    (n : ℕ) (t : ℕ → ℕ) (fd : ℕ)
    → let r = free_slot n t fd in
      (fd ≤ r) × (r ≤ fd + n + 1) × (r ≤ fd + n → t r ≡ 0) × ((j : ℕ) → fd ≤ j → j < r → t j ≢ 0)
unfolding free_slot
free_slot_lem zero t fd = elim (Bool-cases (t fd == 0)) [
  | inl e ↦ rw e (omega arith, omega arith, λ h. ground arith, λ j a b. absurd (omega arith))
  | inr e ↦ rw e (
    omega arith,
    omega arith,
    λ h. absurd (omega arith),
    λ j a b f. let q : j ≡ fd = omega arith in ground (arith, q),
  )
]
free_slot_lem (suc n) t fd =
    let (a, b, c, d) = free_slot_lem n t (fd + 1) in
    elim (Bool-cases (t fd == 0)) [
      | inl e ↦ rw e (omega arith, omega arith, λ h. ground arith, λ j a b. absurd (omega arith))
      | inr e ↦ rw e (
        omega arith,
        omega arith,
        λ h. c (omega arith),
        λ j p q. elim (Bool-cases (fd == j)) [
          | inl g ↦ λ f. let same : fd ≡ j = ground arith in ground (arith, same)
          | inr g ↦ d j (ground arith) q
        ],
      )
    ]
