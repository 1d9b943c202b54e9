-- ===== src/Klib/Bsearch.antt =====
-- lib/bsearch.c. The items are known through `compar`: the sign of `compar(key, base + i * size)`
-- as a function of the index. The result is the index of the item returned.
pub mod Correct
use Prim.Native.Nat.{Ordering}
use phoenix_rtos_kernel.Base.{
  ℕ, zero, suc, ◌+◌, ◌-◌, ◌/◌, Option, none, some, ltb, ◌==◌, if◌then◌else◌,
}

-- The loop; `hi` stands for `r + 1`, since `r` may be -1. The number of items bounds its rounds, and
-- is below 2^30, so `l + r` does not overflow.
search_loop : (ℕ → Ordering) → ℕ → ℕ → ℕ → Option ℕ
search_loop compar zero l hi = none
search_loop compar (suc fuel) l hi =
    let m = (l + (hi - 1)) / 2 in
    let right = search_loop compar fuel (m + 1) hi in
    let left = search_loop compar fuel l m in
    if ltb l hi
    then elim (compar m) [ Ordering.eq ↦ some m | Ordering.gt ↦ right | Ordering.lt ↦ left ]
    else none

unfoldable pub lib_bsearch : (ℕ → Ordering) → ℕ → Option ℕ
unfolding search_loop
lib_bsearch compar nmemb = if nmemb == 0 then none else search_loop compar nmemb 0 nmemb
