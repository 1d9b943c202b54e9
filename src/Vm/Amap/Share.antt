-- ===== src/Vm/Amap/Share.antt =====
-- The counts of anons that two amaps share.
use phoenix_rtos_kernel.Base.{
  ℕ, zero, suc, ◌+◌, ◌/◌, ◌^◌, ◌≤◌, ◌<◌, ◌≡◌, ◌≢◌, inl, inr, refl, ap, ◌∙◌, false, ◌==◌,
  if◌then◌else◌, arith, ==_refl, Bool-cases,
}
use phoenix_rtos_kernel.Vm.Amap.{
  Amap, Store, less_one, amap_put_anon, amap_get_anon, put_loop, get_loop, entries, size_page,
  amap_put_anons, amap_get_anons,
}

-- How often the anon `x` stands among the `n` entries from `i` on.
abbrev pub uses : ℕ → (ℕ → ℕ) → ℕ → ℕ → ℕ
uses zero f i x = 0
uses (suc n) f i x = (if f i == x then 1 else 0) + uses n f (i + 1) x

get_anon-amap : (s : Store) (a : ℕ) → (amap_get_anon s a).amap ≡ s.amap
unfolding amap_get_anon
get_anon-amap s a = elim (Bool-cases (a == 0)) [ inl e ↦ rw e refl | inr e ↦ rw e refl ]

get_anon-freed : (s : Store) (a : ℕ) → (amap_get_anon s a).freed ≡ s.freed
unfolding amap_get_anon
get_anon-freed s a = elim (Bool-cases (a == 0)) [ inl e ↦ rw e refl | inr e ↦ rw e refl ]

get_anon-refs :
    (s : Store) (a x : ℕ)
    → x ≢ 0
    → (if a == x then 1 else 0) + (s.anon x).refs < 2 ^ 32
    → ((amap_get_anon s a).anon x).refs ≡ (if a == x then 1 else 0) + (s.anon x).refs
unfolding amap_get_anon
get_anon-refs s a x nz room = elim (Bool-cases (a == x)) [
  | inl e ↦
      let same : a ≡ x = ground arith in
      let some : (x == 0) ≡ false = ground (arith, nz) in
      let room' : 1 + (s.anon x).refs < 2 ^ 32 = rw e at room in
      rw (e, same, some) (rw ==_refl (omega (arith, room')))
  | inr e ↦
      let other : (x == a) ≡ false = ground arith in
      elim (Bool-cases (a == 0)) [
        | inl z ↦ rw (e, z) (omega arith)
        | inr z ↦ rw (e, z, other) (omega arith)
      ]
]

get_loop-refs :
    (n : ℕ) (s : Store) (m i : ℕ) (f : ℕ → ℕ) (x : ℕ)
    → (s.amap m).anons ≡ f
    → x ≢ 0
    → (s.anon x).refs + uses n f i x < 2 ^ 32
    → ((get_loop n s m i).anon x).refs ≡ uses n f i x + (s.anon x).refs
unfolding get_loop
get_loop-refs zero s m i f x e nz room = omega arith
get_loop-refs (suc n) s m i f x e nz room =
    let at : (s.amap m).anons i ≡ f i = ap (λ (h : ℕ → ℕ). h i) e in
    let s' : Store = amap_get_anon s (f i) in
    let e' : (s'.amap m).anons ≡ f =
      ap (λ (h : ℕ → Amap). (h m).anons) (get_anon-amap s (f i)) ∙ e in
    let step = get_anon-refs s (f i) x nz (omega (arith, room)) in
    ap (λ (a : ℕ). ((get_loop n (amap_get_anon s a) m (i + 1)).anon x).refs) at
    ∙ omega (arith, step, get_loop-refs n s' m (i + 1) f x e' nz (omega (arith, room, step)))

get_loop-amap : (n : ℕ) (s : Store) (m i : ℕ) → (get_loop n s m i).amap ≡ s.amap
unfolding get_loop
get_loop-amap zero s m i = refl
get_loop-amap (suc n) s m i =
    get_loop-amap n (amap_get_anon s ((s.amap m).anons i)) m (i + 1)
    ∙ get_anon-amap s ((s.amap m).anons i)

get_loop-freed : (n : ℕ) (s : Store) (m i : ℕ) → (get_loop n s m i).freed ≡ s.freed
unfolding get_loop
get_loop-freed zero s m i = refl
get_loop-freed (suc n) s m i =
    get_loop-freed n (amap_get_anon s ((s.amap m).anons i)) m (i + 1)
    ∙ get_anon-freed s ((s.amap m).anons i)

put_anon-amap : (s : Store) (a : ℕ) → (amap_put_anon s a).amap ≡ s.amap
unfolding amap_put_anon
put_anon-amap s a = elim (Bool-cases (a == 0)) [
  | inl e ↦ rw e refl
  | inr e ↦ elim (Bool-cases (less_one (s.anon a).refs == 0)) [
    | inl l ↦ rw (e, l) refl
    | inr l ↦ rw (e, l) refl
  ]
]

put_anon-refs :
    (s : Store) (a x : ℕ)
    → x ≢ 0
    → (if a == x then 1 else 0) ≤ (s.anon x).refs
    → (s.anon x).refs < 2 ^ 32
    → (if a == x then 1 else 0) + ((amap_put_anon s a).anon x).refs ≡ (s.anon x).refs
unfolding amap_put_anon
put_anon-refs s a x nz some_refs room = elim (Bool-cases (a == x)) [
  | inl e ↦
      let same : a ≡ x = ground arith in
      let some : (x == 0) ≡ false = ground (arith, nz) in
      let one : 1 ≤ (s.anon x).refs = rw e at some_refs in
      let left : 1 + less_one (s.anon x).refs ≡ (s.anon x).refs = omega (arith, one, room) in
      elim (Bool-cases (less_one (s.anon x).refs == 0)) [
        | inl l ↦ rw (e, same, some, l) (rw ==_refl left)
        | inr l ↦ rw (e, same, some, l) (rw ==_refl left)
      ]
  | inr e ↦
      let other : (x == a) ≡ false = ground arith in
      elim (Bool-cases (a == 0)) [
        | inl z ↦ rw (e, z) (omega arith)
        | inr z ↦ elim (Bool-cases (less_one (s.anon a).refs == 0)) [
          | inl l ↦ rw (e, z, l) (rw other (omega arith))
          | inr l ↦ rw (e, z, l) (rw other (omega arith))
        ]
      ]
]

put_anon-freed :
    (s : Store) (a : ℕ)
    → (a ≢ 0 → 1 < (s.anon a).refs)
    → (s.anon a).refs < 2 ^ 32
    → (amap_put_anon s a).freed ≡ s.freed
unfolding amap_put_anon
put_anon-freed s a shared room = elim (Bool-cases (a == 0)) [
  | inl e ↦ rw e refl
  | inr e ↦
      let more : 1 < (s.anon a).refs = shared (λ z. ground (arith, z)) in
      let left : (less_one (s.anon a).refs == 0) ≡ false = ground (arith, more, room) in
      rw (e, left) refl
]

put_loop-refs :
    (n : ℕ) (s : Store) (m i : ℕ) (f : ℕ → ℕ) (x : ℕ)
    → (s.amap m).anons ≡ f
    → x ≢ 0
    → uses n f i x ≤ (s.anon x).refs
    → (s.anon x).refs < 2 ^ 32
    → uses n f i x + ((put_loop n s m i).anon x).refs ≡ (s.anon x).refs
unfolding put_loop
put_loop-refs zero s m i f x e nz some room = omega arith
put_loop-refs (suc n) s m i f x e nz some room =
    let at : (s.amap m).anons i ≡ f i = ap (λ (h : ℕ → ℕ). h i) e in
    let s' : Store = amap_put_anon s (f i) in
    let e' : (s'.amap m).anons ≡ f =
      ap (λ (h : ℕ → Amap). (h m).anons) (put_anon-amap s (f i)) ∙ e in
    let step = put_anon-refs s (f i) x nz (omega (arith, some)) room in
    ap (λ (a : ℕ). uses (suc n) f i x + ((put_loop n (amap_put_anon s a) m (i + 1)).anon x).refs) at
    ∙ omega (
      arith,
      step,
      put_loop-refs n s' m (i + 1) f x e' nz (omega (arith, some, step))
          (omega (arith, room, step)),
    )

-- References that `amap_getanons` takes for a range of an amap are given back by `amap_putanons` of
-- the same range: every anon has the count from before.
pub amap_put_anons-get_anons :
    (s : Store) (m offset size x : ℕ)
    → m ≢ 0
    → x ≢ 0
    → (s.anon x).refs + uses (entries offset size) (s.amap m).anons (offset / size_page) x < 2 ^ 32
    → ((amap_put_anons (amap_get_anons s m offset size) m offset size).anon x).refs
      ≡ (s.anon x).refs
unfolding amap_put_anons amap_get_anons
amap_put_anons-get_anons s m offset size x nz some room =
    let there : (m == 0) ≡ false = ground (arith, nz) in
    let n : ℕ = entries offset size in
    let i : ℕ = offset / size_page in
    let f : ℕ → ℕ = (s.amap m).anons in
    let s' : Store = get_loop n s m i in
    let got = get_loop-refs n s m i f x refl some room in
    let same : (s'.amap m).anons ≡ f = ap (λ (h : ℕ → Amap). (h m).anons) (get_loop-amap n s m i) in
    let put =
      put_loop-refs n s' m i f x same some (omega (arith, got)) (omega (arith, got, room)) in
    rw there (omega (arith, got, put))
