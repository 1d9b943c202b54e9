-- ===== src/Klib/Bsearch/Correct.antt =====
-- The loop of lib_bsearch in lib/bsearch.c on a sorted array.
use Prim.Native.Nat.{Ordering}
use phoenix_rtos_kernel.Base.{
  ℕ, zero, suc, ◌+◌, ◌-◌, ◌/◌, ◌≤◌, ◌<◌, ◌≡◌, none, some, arith, ◌≢◌, Option-cases, inl, inr,
}
use phoenix_rtos_kernel.Klib.Bsearch.{search_loop, lib_bsearch}

-- Items above the key stand behind the others, and items below it in front.
pub record IsOrdered (compar : ℕ → Ordering) (nmemb : ℕ) : Type 0 where
  pub above : (i j : ℕ) → i < j → j < nmemb → compar i ≡ Ordering.lt → compar j ≡ Ordering.lt
  pub below : (i j : ℕ) → i < j → j < nmemb → compar j ≡ Ordering.gt → compar i ≡ Ordering.gt

module _ (compar : ℕ → Ordering) where
  loop_sound :
      (fuel l hi m : ℕ)
      → search_loop compar fuel l hi ≡ some m
      → (l ≤ m) × (m < hi) × (compar m ≡ Ordering.eq)
  unfolding search_loop
  loop_sound zero l hi m h = ground arith
  loop_sound (suc fuel) l hi m h =
      let mid : ℕ = (l + (hi - 1)) / 2 in
      ground (arith, loop_sound fuel (mid + 1) hi m, loop_sound fuel l mid m)

  -- With fuel for every item left, the loop finds an equal one.
  loop_complete :
      (nmemb fuel l hi i : ℕ)
      → IsOrdered compar nmemb
      → hi ≤ nmemb
      → hi ≤ l + fuel
      → l ≤ i
      → i < hi
      → compar i ≡ Ordering.eq
      → search_loop compar fuel l hi ≢ none
  unfolding search_loop
  loop_complete nmemb zero l hi i o h f a b e = absurd (omega arith)
  loop_complete nmemb (suc fuel) l hi i o h f a b e =
      let mid : ℕ = (l + (hi - 1)) / 2 in
      ground (
        arith,
        o.above mid i,
        o.below i mid,
        loop_complete nmemb fuel (mid + 1) hi i o,
        loop_complete nmemb fuel l mid i o,
      )

-- What `lib_bsearch` returns, on an array in any order, is in the array and equal to the key.
pub lib_bsearch_sound :
    (compar : ℕ → Ordering) (nmemb m : ℕ)
    → lib_bsearch compar nmemb ≡ some m
    → (m < nmemb) × (compar m ≡ Ordering.eq)
unfolding lib_bsearch
lib_bsearch_sound compar nmemb m h = ground (arith, loop_sound compar nmemb 0 nmemb m)

lib_bsearch_complete :
    (compar : ℕ → Ordering) (nmemb i : ℕ)
    → IsOrdered compar nmemb
    → i < nmemb
    → compar i ≡ Ordering.eq
    → lib_bsearch compar nmemb ≢ none
unfolding lib_bsearch
lib_bsearch_complete compar nmemb i o b e =
    ground (arith, loop_complete compar nmemb nmemb 0 nmemb i o)

-- On a sorted array `lib_bsearch` returns an item that compares equal to the key, if there is one.
pub lib_bsearch_lem :
    (compar : ℕ → Ordering) (nmemb i : ℕ)
    → IsOrdered compar nmemb
    → i < nmemb
    → compar i ≡ Ordering.eq
    → (m : ℕ) × (lib_bsearch compar nmemb ≡ some m) × (m < nmemb) × (compar m ≡ Ordering.eq)
lib_bsearch_lem compar nmemb i o b e = elim (Option-cases (lib_bsearch compar nmemb)) [
  | inl n ↦ absurd (lib_bsearch_complete compar nmemb i o b e n)
  | inr (m, f) ↦ let s = lib_bsearch_sound compar nmemb m f in (m, f, s.0, s.1)
]
