-- ===== src/Posix/Splitname/Parts.antt =====
-- What splitname of posix/posix.c makes of a path.
use mathlib.Core.Path.{}
use mathlib.Core.Bool.{true≢false}
use phoenix_rtos_kernel.Base.{
  is_empty, ℕ, zero, suc, ◌+◌, ◌≡◌, ◌≢◌, ◌⊎◌, inl, inr, refl, ap, sym, ◌∙◌, false, List, [], ◌∷◌,
  Option, none, some, ◌==◌, if◌then◌else◌, has, Bool-cases, arith,
}
use phoenix_rtos_kernel.Posix.Splitname.{slash, strrchr, first_bytes, behind, splitname}

-- The directory, a slash and the base
abbrev pub joined : List ℕ → List ℕ → List ℕ
joined [] base = slash ∷ base
joined (x ∷ xs) base = x ∷ joined xs base

strrchr_lem :
    (xs : List ℕ) (i : ℕ) (p : Option ℕ)
    → ((strrchr xs slash i p ≡ p) × (has xs slash ≡ false))
      ⊎ ((k : ℕ) × (strrchr xs slash i p ≡ some (i + k))
          × (xs ≡ joined (first_bytes k xs) (behind (suc k) xs))
          × (has (behind (suc k) xs) slash ≡ false))
unfolding strrchr
strrchr_lem [] i p = inl (refl, refl)
strrchr_lem (x ∷ xs) i p = elim (strrchr_lem xs (i + 1) (if x == slash then some i else p)) [
  | inr (k, e, f, g) ↦ inr (suc k, e ∙ ap some (omega arith), ap (λ (ys : List ℕ). x ∷ ys) f, g)
  | inl (e, f) ↦ elim (Bool-cases (x == slash)) [
    | inl g ↦
        let same : x ≡ slash = ground arith in
        inr (0, e ∙ rw g (ap some (omega arith)), ap (λ (y : ℕ). y ∷ xs) same, f)
    | inr g ↦ inl (e ∙ rw g refl, rw g f)
  ]
]

some_bytes :
    (k : ℕ) (path base : List ℕ)
    → path ≡ joined (first_bytes (suc k) path) base
    → first_bytes (suc k) path ≢ []
some_bytes k [] base e = absurd (true≢false (ap is_empty e))
some_bytes k (x ∷ xs) base e = λ z. true≢false (sym (ap is_empty z))

-- The base of a path has no slash. A path without one is the base, in the directory `.`; a path
-- whose only slash is the first byte is that and the base, in the directory `/`; any other is the
-- directory, which is not empty, a slash, and the base.
pub splitname_lem :
    (path : List ℕ)
    → let r = splitname path in
      (has r.0 slash ≡ false)
      × (((path ≡ r.0) × (r.1 ≡ 46 ∷ []))
          ⊎ (((path ≡ slash ∷ r.0) × (r.1 ≡ slash ∷ [])) ⊎ ((path ≡ joined r.1 r.0) × (r.1 ≢ []))))
unfolding splitname
splitname_lem path = elim (strrchr_lem path 0 none) [
  | inl (e, f) ↦ rw e (f, inl (refl, refl))
  | inr (zero, e, f, g) ↦ rw e (g, inr (inl (f, refl)))
  | inr (suc k, e, f, g) ↦
      let place : strrchr path slash 0 none ≡ some (suc k) = e ∙ ap some (omega arith) in
      rw place (g, inr (inr (f, some_bytes k path (behind (suc (suc k)) path) f)))
]
