-- ===== src/Base/Seq.antt =====
-- What a circular list of the kernel (Klib.Clist) holds, as a list: LIST_ADD appends at the end,
-- LIST_REMOVE takes out one element. Also stores that are updated at one key.
use Prim.Native.Nat.{ℕ}
use mathlib.Core.Path.{◌≡◌}
use mathlib.Core.Bool.{Bool, true, false}
use mathlib.Core.List.{List, [], ◌∷◌, ◌++◌}
use native.Mathlib.Omega.{arith}
use phoenix_rtos_kernel.Base.Tests.{◌==◌, if◌then◌else◌}

abbrev pub upd {ℓ} : {A : Type ℓ} → (ℕ → A) → ℕ → A → ℕ → A
upd f k v j = if j == k then v else f j

abbrev pub list_add : List ℕ → ℕ → List ℕ
list_add xs x = xs ++ (x ∷ [])

abbrev pub list_remove : List ℕ → ℕ → List ℕ
list_remove [] x = []
list_remove (y ∷ ys) x = if y == x then ys else y ∷ list_remove ys x

abbrev pub is_empty {ℓ} : {A : Type ℓ} → List A → Bool
is_empty [] = true
is_empty (x ∷ xs) = false

abbrev pub has : List ℕ → ℕ → Bool
has [] x = false
has (y ∷ ys) x = if y == x then true else has ys x

abbrev pub All {ℓ} : (ℕ → Type ℓ) → List ℕ → Type ℓ
All P [] = Unit
All P (x ∷ xs) = P x × All P xs

pub has-add : (xs : List ℕ) (x y : ℕ) → has (list_add xs x) y ≡ (if has xs y then true else x == y)
has-add [] x y = ground arith
has-add (z ∷ zs) x y = ground (arith, has-add zs x y)

pub All-add : (P : ℕ → Type 0) (xs : List ℕ) (x : ℕ) → All P xs → P x → All P (list_add xs x)
All-add P [] x h p = (p, tt)
All-add P (y ∷ ys) x h p = (h.0, All-add P ys x h.1 p)
