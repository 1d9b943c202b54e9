-- ===== src/Posix/Splitname.antt =====
-- splitname of posix/posix.c. A path is the list of its bytes without the last, which is 0; `*slash = 0`
-- ends the directory there.
mod Tests
pub mod Parts
use phoenix_rtos_kernel.Base.{
  ℕ, zero, suc, ◌+◌, List, [], ◌∷◌, Option, none, some, ◌==◌, if◌then◌else◌,
}

abbrev pub slash : ℕ
slash = 47

-- strrchr, from byte `i` on, with the last place before that
unfoldable pub strrchr : List ℕ → ℕ → ℕ → Option ℕ → Option ℕ
strrchr [] c i p = p
strrchr (x ∷ xs) c i p = strrchr xs c (i + 1) (if x == c then some i else p)

abbrev pub first_bytes : ℕ → List ℕ → List ℕ
first_bytes zero xs = []
first_bytes (suc n) [] = []
first_bytes (suc n) (x ∷ xs) = x ∷ first_bytes n xs

abbrev pub behind : ℕ → List ℕ → List ℕ
behind zero xs = xs
behind (suc n) [] = []
behind (suc n) (x ∷ xs) = behind n xs

-- `*base` and `*dir` for the place of the last slash
abbrev pub parts : Option ℕ → List ℕ → List ℕ × List ℕ
parts none path = (path, 46 ∷ [])
parts (some zero) path = (behind 1 path, slash ∷ [])
parts (some (suc i)) path = (behind (suc (suc i)) path, first_bytes (suc i) path)

-- splitname
unfoldable pub splitname : List ℕ → List ℕ × List ℕ
splitname path = parts (strrchr path slash 0 none) path
