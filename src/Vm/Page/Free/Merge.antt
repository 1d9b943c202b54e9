-- ===== src/Vm/Page/Free/Merge.antt =====
-- A round of the loop of _page_free in vm/page.c that joins two halves.
use mathlib.Core.Path.{subst, ap₂}
use mathlib.Core.Bool.{false≢true}
use native.Mathlib.Decide.{dec_lt}
use phoenix_rtos_kernel.Base.{
  ℕ, suc, ◌+◌, ◌-◌, ◌%◌, ◌^◌, ◌<◌, ◌≡◌, ap, sym, ◌∙◌, ◌⊎◌, inl, inr, true, false, List, [], ◌==◌,
  ==_refl, if◌then◌else◌, upd, list_remove, has, All, Bool-cases, arith,
}
use phoenix_rtos_kernel.Vm.Page.{Pages, pages_of, size_vm_sizes}
use phoenix_rtos_kernel.Vm.Page.Cover.{
  inside, cover_below, covers-pos, cover-le, cover-upd, covers-remove, pages_of-pos,
  pages_of-halves, All-remove, All-upd,
}
use phoenix_rtos_kernel.Vm.Page.Free.{merge}
use phoenix_rtos_kernel.Vm.Page.Free.Buddy.{IsMultiple, IsSegment, pages_whole}
use phoenix_rtos_kernel.Vm.Page.Free.Open.{IsOpen, All-at}

-- `l` and `rh` are the segment in hand `x` and a listed one `o`, the halves of a larger one.
pub record IsJoint (s : Pages) (n k x o l rh : ℕ) : Type 0 where
  pub pool : IsOpen s n k x
  pub which : ((l ≡ x) × (rh ≡ o)) ⊎ ((l ≡ o) × (rh ≡ x))
  pub behind : rh ≡ l + pages_of k
  pub listed : has (s.sizes k) o ≡ true
  pub start : IsMultiple (2 ^ (k + 1)) (s.addr l)
  pub follows : s.addr rh ≡ s.addr l + 2 ^ k
  pub small : k + 1 < size_vm_sizes

module _ (s : Pages) (n k x o l rh : ℕ) (joint : IsJoint s n k x o l rh) where
  abbrev pool : IsOpen s n k x
  pool = joint.pool

  some_page : 0 < pages_of k
  some_page = pages_of-pos k pool.above

  twice : pages_of (k + 1) ≡ pages_of k + pages_of k
  twice = let e : k + 1 ≡ suc k = omega arith in ap pages_of e ∙ pages_of-halves k pool.above

  taken_off : (if x == l then rh else l) ≡ o
  taken_off = elim joint.which [
    | inl (f, g) ↦ rw (f, ==_refl x) g
    | inr (f, g) ↦
        let other : (x == l) ≡ false = ground (arith, joint.behind, some_page) in rw other f
  ]

  abbrev after : Pages
  after = merge s x k l rh

  sizes_after : after.sizes ≡ upd s.sizes k (list_remove (s.sizes k) o)
  sizes_after = ap (λ y. upd s.sizes k (list_remove (s.sizes k) y)) taken_off

  both-inside : (i : ℕ) → inside (k + 1) l i ≡ inside k x i + inside k o i
  both-inside i =
      let split : inside (k + 1) l i ≡ inside k l i + inside k rh i =
        ground (arith, twice, joint.behind) in
      elim joint.which [
        | inl (f, g) ↦ split ∙ ap₂ (λ y z. inside k y i + inside k z i) f g
        | inr (f, g) ↦ split ∙ ap₂ (λ y z. inside k y i + inside k z i) f g ∙ omega arith
      ]

  after-counted :
      (i : ℕ) → cover_below size_vm_sizes after.sizes i + inside (k + 1) l i ≡ s.flags i % 2
  after-counted i =
      subst (λ (f : ℕ → List ℕ). cover_below size_vm_sizes f i + inside (k + 1) l i ≡ s.flags i % 2)
        (sym sizes_after)
        (omega (
          arith,
          cover-upd size_vm_sizes s.sizes k (list_remove (s.sizes k) o) i
              (omega (arith, joint.small)),
          covers-remove k (s.sizes k) o i joint.listed,
          pool.counted i,
          both-inside i,
        ))

  after-least : (j : ℕ) → j < 12 → after.sizes j ≡ []
  after-least j h =
      let other : (j == k) ≡ false = ground (arith, pool.above) in rw other (pool.least j h)

  -- A page of the joined segment heads no listed one.
  not_listed :
      (i : ℕ) → inside (k + 1) l i ≡ 1 → (j : ℕ) → j < size_vm_sizes → has (after.sizes j) i ≡ false
  not_listed i e j h = elim (Bool-cases (has (after.sizes j) i)) [
    | inr out ↦ out
    | inl in_list ↦ elim (dec_lt j 12) [
      | yes less ↦ absurd (false≢true (ap (λ xs. has xs i) (sym (after-least j less)) ∙ in_list))
      | no big ↦ absurd (
          omega (
            arith,
            covers-pos j (after.sizes j) i in_list (pages_of-pos j (omega arith)),
            cover-le size_vm_sizes after.sizes j i h,
            after-counted i,
            e,
          ))
    ]
  ]

  kept :
      (P : ℕ → ℕ → Type 0)
      → ((j : ℕ) → j < size_vm_sizes → All (P j) (s.sizes j))
      → (j : ℕ) → j < size_vm_sizes
      → All (P j) (after.sizes j)
  kept P all j h = elim (Bool-cases (j == k)) [
    | inl e ↦
        let q : j ≡ k = ground arith in
        rw (e, q)
          (All-remove (P k) (s.sizes k) (if x == l then rh else l)
            (all k (omega (arith, joint.small))))
    | inr e ↦ rw e (all j h)
  ]

  after-heads : (j : ℕ) → j < size_vm_sizes → All (λ y. after.idx y ≡ j) (after.sizes j)
  after-heads j h =
      let f = upd s.idx rh 12 in
      All-upd f j l (f l + 1) (after.sizes j)
        (All-upd s.idx j rh 12 (after.sizes j) (kept (λ i y. s.idx y ≡ i) pool.heads j h)
          (not_listed rh (ground (arith, twice, joint.behind, some_page)) j h))
        (not_listed l (ground (arith, twice, some_page)) j h)

  l-index : s.idx l ≡ k
  l-index = elim joint.which [
    | inl (f, g) ↦ ap s.idx f ∙ pool.index
    | inr (f, g) ↦
        ap s.idx f
        ∙ All-at (λ y. s.idx y ≡ k) (s.sizes k) o (pool.heads k (omega (arith, joint.small)))
            joint.listed
  ]

  after-index : after.idx l ≡ k + 1
  after-index =
      let apart : (l == rh) ≡ false = ground (arith, joint.behind, some_page) in
      rw (==_refl l, apart) (omega (arith, l-index))

  o-IsSegment : IsSegment n s.addr k o
  o-IsSegment =
      All-at (IsSegment n s.addr k) (s.sizes k) o (pool.segments k (omega (arith, joint.small)))
        joint.listed

  -- What holds of both the segment in hand and the other half holds of the left and the right half.
  of_halves : (P : ℕ → Type 0) → P x → P o → P l × P rh
  of_halves P px po = elim joint.which [
    | inl (f, g) ↦ (subst P (sym f) px, subst P (sym g) po)
    | inr (f, g) ↦ (subst P (sym f) po, subst P (sym g) px)
  ]

  after-IsSegment : IsSegment n s.addr (k + 1) l
  after-IsSegment =
      let (left_half, right_half) = of_halves (IsSegment n s.addr k) pool.segment o-IsSegment in
      let size = pages_whole k pool.above in
      (
        joint.start,
        omega (arith, right_half.1, joint.behind, twice),
        λ j h. elim (dec_lt j (pages_of k)) [
          | yes less ↦ left_half.2 j less
          | no more ↦
              let e : l + j ≡ rh + (j - pages_of k) = omega (arith, joint.behind) in
              ap s.addr e
              ∙ right_half.2 (j - pages_of k) (omega (arith, twice))
              ∙ omega (arith, joint.follows, size)
        ],
      )

  pub merge-IsOpen : IsOpen after n (k + 1) l
  merge-IsOpen = record {
    laid = pool.laid;
    counted = after-counted;
    heads = after-heads;
    least = after-least;
    segments = kept (λ j h. IsSegment n s.addr j h) pool.segments;
    above = omega (arith, pool.above);
    index = after-index;
    segment = after-IsSegment;
  }
