-- ===== src/Klib/Cbuffer/Content.antt =====
-- What a ring holds, oldest byte first, and its representation invariant.
use native.Mathlib.Decide.{dec_lt}
use native.Mathlib.Nat.{mod-eq_of_lt, mod-eq-sub-mod}
use phoenix_rtos_kernel.Base.{
  ℕ, zero, suc, ◌+◌, ◌-◌, ◌%◌, ◌^◌, ◌≤◌, ◌<◌, ◌≡◌, refl, ap, true, List, [], ◌∷◌, ltb,
  if◌then◌else◌, length, get_or, arith, bit_and, bit_and-mask, ◌∙◌, sym,
}
use phoenix_rtos_kernel.Klib.Cbuffer.{Cbuffer, advance}

-- The size is 2^k with k ≤ 30, the indices are in range, and `full` is only set when they meet.
pub record IsValid (buf : Cbuffer) (k : ℕ) : Type 0 where
  pub size : buf.sz ≡ 2 ^ k
  pub size_pos : 0 < buf.sz
  pub small : buf.sz ≤ 2 ^ 30
  pub store : length buf.bytes ≡ buf.sz
  pub r_in : buf.r < buf.sz
  pub w_in : buf.w < buf.sz
  pub meet : buf.full ≡ true → buf.r ≡ buf.w

-- How many bytes are stored.
abbrev pub used : Cbuffer → ℕ
used buf =
    if buf.full then buf.sz else if ltb buf.w buf.r then buf.w + buf.sz - buf.r else buf.w - buf.r

-- An index that may run past the end once.
abbrev pub fold : ℕ → ℕ → ℕ
fold sz x = if ltb x sz then x else x - sz

abbrev pub at : Cbuffer → ℕ → ℕ
at buf i = get_or buf.bytes (fold buf.sz (buf.r + i)) 0

pub tabulate : ℕ → (ℕ → ℕ) → List ℕ
tabulate zero f = []
tabulate (suc n) f = f 0 ∷ tabulate n (λ i. f (suc i))

pub length-tabulate : (n : ℕ) (f : ℕ → ℕ) → length (tabulate n f) ≡ n
unfolding tabulate
length-tabulate zero f = refl
length-tabulate (suc n) f = ap suc (length-tabulate n (λ i. f (suc i)))

pub get_or-tabulate : (n : ℕ) (f : ℕ → ℕ) (i : ℕ) → i < n → get_or (tabulate n f) i 0 ≡ f i
unfolding tabulate
get_or-tabulate zero f i h = absurd (omega arith)
get_or-tabulate (suc n) f zero h = refl
get_or-tabulate (suc n) f (suc i) h = get_or-tabulate n (λ i. f (suc i)) i (omega arith)

-- The stored bytes in the order in which they were written.
pub contents : Cbuffer → List ℕ
unfolding tabulate
contents buf = tabulate (used buf) (at buf)

pub length-contents : (buf : Cbuffer) → length (contents buf) ≡ used buf
unfolding contents
length-contents buf = length-tabulate (used buf) (at buf)

pub get_or-contents : (buf : Cbuffer) (i : ℕ) → i < used buf → get_or (contents buf) i 0 ≡ at buf i
unfolding contents
get_or-contents buf i h = get_or-tabulate (used buf) (at buf) i h

mod-fold : (x sz : ℕ) → x < sz + sz → x % sz ≡ fold sz x
mod-fold x sz h = elim (dec_lt x sz) [
  | yes l ↦ ground (arith, mod-eq_of_lt l)
  | no g ↦ ground (
    arith,
    mod-eq-sub-mod {n = x} {m = sz} (omega arith),
    mod-eq_of_lt {n = x - sz} {m = sz} (omega arith),
  )
]

-- Moving an index on by at most the size is one fold.
pub advance-fold :
    {buf : Cbuffer} {k : ℕ} (x n : ℕ)
    → IsValid buf k
    → x < buf.sz
    → n ≤ buf.sz
    → advance buf x n ≡ fold buf.sz (x + n)
advance-fold {buf} {k} x n v hx hn =
    let masked : bit_and (x + n) (buf.sz - 1) ≡ (x + n) % buf.sz =
      ap (λ s. bit_and (x + n) (s - 1)) v.size
      ∙ bit_and-mask k (x + n)
      ∙ ap (λ s. (x + n) % s) (sym v.size) in
    masked ∙ mod-fold (x + n) buf.sz (omega arith)
