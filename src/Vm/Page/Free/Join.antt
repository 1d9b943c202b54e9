-- ===== src/Vm/Page/Free/Join.antt =====
-- The loop of _page_free in vm/page.c that joins free halves.
use mathlib.Core.Path.{}
use native.Mathlib.Nat.{pow-suc, mod-add-div', add-mul, mul-add, mul-mod_left}
use native.Mathlib.Decide.{}
use phoenix_rtos_kernel.Base.{
  ℕ, suc, ◌+◌, ◌-◌, ◌*◌, ◌/◌, ◌%◌, ◌^◌, ◌<◌, ◌≡◌, ◌≢◌, refl, ap, sym, ◌∙◌, ◌⊎◌, inl, inr, false,
  Option, none, some, leb, ◌==◌, bit_and, bit_and-mask, upd, list_add, All, All-add, Bool-cases,
  arith, two_pow_pos,
}
use phoenix_rtos_kernel.Vm.Page.{Pages, pages_of, size_vm_sizes}
use phoenix_rtos_kernel.Vm.Page.Cover.{IsPool, covers-add, cover-upd}
use phoenix_rtos_kernel.Vm.Page.Free.{halves}
use phoenix_rtos_kernel.Vm.Page.Free.Buddy.{IsLaid, IsMultiple, IsSegment}
use phoenix_rtos_kernel.Vm.Page.Free.Open.{IsOpen}
use phoenix_rtos_kernel.Vm.Page.Free.Merge.{}

-- The pool of `n` pages, with its segments at multiples of their sizes.
pub record IsBuddies (s : Pages) (n : ℕ) : Type 0 where
  pub pool : IsPool s
  pub laid : IsLaid n s.addr
  pub segments : (j : ℕ) → j < size_vm_sizes → All (IsSegment n s.addr j) (s.sizes j)

module _ (s : Pages) (n k x : ℕ) (pool : IsOpen s n k x) (below : k < size_vm_sizes) where
  abbrev pub closed : Pages
  closed = record s { sizes = upd s.sizes k (list_add (s.sizes k) x) }

  added :
      (P : ℕ → ℕ → Type 0)
      → ((j : ℕ) → j < size_vm_sizes → All (P j) (s.sizes j))
      → P k x
      → (j : ℕ) → j < size_vm_sizes
      → All (P j) (closed.sizes j)
  added P all px j h = elim (Bool-cases (j == k)) [
    | inl e ↦
        let q : j ≡ k = ground arith in rw (e, q) (All-add (P k) (s.sizes k) x (all k below) px)
    | inr e ↦ rw e (all j h)
  ]

  -- `LIST_ADD(&pages.sizes[idx], p)` at the end
  pub closed-IsBuddies : IsBuddies closed n
  closed-IsBuddies = record {
    pool = record {
      counted = λ i. omega (
        arith,
        cover-upd size_vm_sizes s.sizes k (list_add (s.sizes k) x) i below,
        covers-add k (s.sizes k) x i,
        pool.counted i,
      );
      heads = added (λ j y. s.idx y ≡ j) pool.heads pool.index;
      least = λ j h.
          let other : (j == k) ≡ false = ground (arith, pool.above) in rw other (pool.least j h);
    };
    laid = pool.laid;
    segments = added (λ j y. IsSegment n s.addr j y) pool.segments pool.segment;
  }

-- `lh` and `rh` in front of a round. In the last case `rh` is a half of an earlier round, which is not
-- next to `lh`.
abbrev pub Ready : Pages → ℕ → ℕ → Option ℕ × ℕ → Type 0
Ready s k x r =
    ((r.0 ≡ some x) × (r.1 ≡ x + pages_of k) × IsMultiple (2 ^ (k + 1)) (s.addr x))
    ⊎ (((l : ℕ) × (r.0 ≡ some l)
          × (l + pages_of k ≡ x)
          × (r.1 ≡ x)
          × ((t : ℕ) × (s.addr x ≡ t * 2 ^ (k + 1) + 2 ^ k)))
        ⊎ ((r.0 ≡ none)
            ⊎ ((l : ℕ) × (r.0 ≡ some l) × (l + pages_of k ≡ x) × (x < r.1) × (s.idx r.1 ≡ 12))))

pub double : (k : ℕ) → 2 ^ (k + 1) ≡ 2 ^ k + 2 ^ k
double k =
    let e : k + 1 ≡ suc k = omega arith in ap (λ (w : ℕ). 2 ^ w) e ∙ omega (arith, pow-suc 2 k)

-- A multiple of a size that is none of the double size is one with the size on top.
odd_multiple : (b m y : ℕ) → y ≡ m * b → 0 < b → y % (b + b) ≢ 0 → (t : ℕ) × (y ≡ t * (b + b) + b)
odd_multiple b m y e pos ne =
    let q : ℕ = m / 2 in
    let even_part : (q + q) * b ≡ q * (b + b) = add-mul q q b ∙ sym (mul-add q b b) in
    elim (Bool-cases (m % 2 == 0)) [
      | inl f ↦
          let m_even : m ≡ q + q = ground arith in
          absurd (
            ne (
              ap (λ (w : ℕ). w % (b + b)) (e ∙ ap (λ (w : ℕ). w * b) m_even ∙ even_part)
              ∙ mul-mod_left q (b + b)))
      | inr f ↦
          let m_odd : m ≡ q + q + 1 = ground arith in
          (q, e ∙ ap (λ (w : ℕ). w * b) m_odd ∙ add-mul (q + q) 1 b ∙ omega (arith, even_part))
    ]

module _ (s : Pages) (n k x : ℕ) (pool : IsOpen s n k x) where
  -- A new pair, for `lh` at the segment in hand and `rh` there or left behind
  pub halves-Ready :
      (rh : ℕ) → ((rh ≡ x) ⊎ ((x < rh) × (s.idx rh ≡ 12))) → Ready s k x (halves s x k (some x) rh)
  halves-Ready rh o =
      let mask : bit_and (s.addr x) (2 ^ (k + 1) - 1) ≡ s.addr x % 2 ^ (k + 1) =
        bit_and-mask (k + 1) (s.addr x) in
      elim (Bool-cases (bit_and (s.addr x) (2 ^ (k + 1) - 1) == 0)) [
        | inl e ↦
            let whole : s.addr x % 2 ^ (k + 1) ≡ 0 = ground (arith, mask) in
            rw e (
              inl (
                refl,
                refl,
                (
                  s.addr x / 2 ^ (k + 1),
                  omega (arith, mod-add-div' (s.addr x) (2 ^ (k + 1)), whole),
                ),
              ))
        | inr e ↦ elim (Bool-cases (leb (pages_of k) x)) [
          | inr f ↦ rw (e, f) (inr (inr (inl refl)))
          | inl f ↦
              let back : x - pages_of k + pages_of k ≡ x = ground arith in
              let (m, at) = pool.segment.0 in
              let part : s.addr x % (2 ^ k + 2 ^ k) ≢ 0 = λ g. ground (arith, mask, double k, g) in
              let (t, top) = odd_multiple (2 ^ k) m (s.addr x) at (two_pow_pos k) part in
              rw (e, f)
                (elim o [
                  | inl g ↦ inr (
                      inl (
                        x - pages_of k,
                        refl,
                        back,
                        g,
                        (t, top ∙ ap (λ (w : ℕ). t * w + 2 ^ k) (sym (double k))),
                      ))
                  | inr (g, h) ↦ inr (inr (inr (x - pages_of k, refl, back, g, h)))
                ])
        ]
      ]
