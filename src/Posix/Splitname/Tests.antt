-- ===== src/Posix/Splitname/Tests.antt =====
-- splitname of posix/posix.c on a concrete path.
use phoenix_rtos_kernel.Base.{ℕ, ◌≡◌, ◌≢◌, ◌⊎◌, refl, false, List, [], ◌∷◌, has}
use phoenix_rtos_kernel.Posix.Splitname.{slash, strrchr, splitname}
use phoenix_rtos_kernel.Posix.Splitname.Parts.{joined, splitname_lem}

-- `/a/b`
abbrev two_names : List ℕ
two_names = 47 ∷ 97 ∷ 47 ∷ 98 ∷ []

two_names-split : splitname two_names ≡ (98 ∷ [], 47 ∷ 97 ∷ [])
unfolding splitname strrchr
two_names-split = refl

splitname_lem_example :
    let r = splitname two_names in
    (has r.0 slash ≡ false)
    × (((two_names ≡ r.0) × (r.1 ≡ 46 ∷ []))
        ⊎ (((two_names ≡ slash ∷ r.0) × (r.1 ≡ slash ∷ []))
            ⊎ ((two_names ≡ joined r.1 r.0) × (r.1 ≢ []))))
splitname_lem_example = splitname_lem two_names
