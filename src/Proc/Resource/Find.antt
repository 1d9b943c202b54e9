-- ===== src/Proc/Resource/Find.antt =====
-- The tree of a process as a map from ids to resources.
use mathlib.Core.Path.{subst}
use phoenix_rtos_kernel.Base.{
  ℕ, ◌<◌, ◌≡◌, ◌≢◌, refl, ap, ◌∙◌, ◌⊎◌, false, List, [], ◌∷◌, ltb, ◌==◌, if◌then◌else◌, upd,
  list_remove, All, arith, ==_refl, Bool-cases, inl, inr,
}
use phoenix_rtos_kernel.Proc.Resource.{Kind, Resource, Table, find, insert, resource_alloc}

-- The ids grow along the list.
abbrev pub Sorted : (ℕ → Resource) → List ℕ → Type 0
Sorted f [] = Unit
Sorted f (x ∷ xs) = All (λ y. (f x).id < (f y).id) xs × Sorted f xs

-- `r` is not in the tree, nor is a resource of the id.
abbrev pub Absent : (ℕ → Resource) → List ℕ → ℕ → ℕ → Type 0
Absent f [] r id = Unit
Absent f (x ∷ xs) r id = (x ≢ r) × ((f x).id ≢ id) × Absent f xs r id

-- Writing a resource that is not in the tree does not change what is found.
find-upd :
    (f : ℕ → Resource) (xs : List ℕ) (r id : ℕ) (v : Resource) (k : ℕ)
    → Absent f xs r id
    → find (upd f r v) xs k ≡ find f xs k
find-upd f [] r id v k a = refl
find-upd f (x ∷ xs) r id v k a =
    let other : (x == r) ≡ false = ground (arith, a.0) in
    rw other (ap (λ (t : ℕ). if (f x).id == k then x else t) (find-upd f xs r id v k a.2))

module _ (f : ℕ → Resource) (r : ℕ) (v : Resource) where
  find-insert :
      (xs : List ℕ) → Absent f xs r v.id → find (upd f r v) (insert (upd f r v) r xs) v.id ≡ r
  find-insert [] a = rw (==_refl r, ==_refl v.id) refl
  find-insert (x ∷ xs) a =
      let other : (x == r) ≡ false = ground (arith, a.0) in
      let differ : ((f x).id == v.id) ≡ false = ground (arith, a.1) in
      rw (==_refl r, other, differ)
        (elim (Bool-cases (ltb v.id (f x).id)) [
          | inl l ↦ rw (l, ==_refl r, ==_refl v.id) refl
          | inr g ↦ rw (g, other, differ) (find-insert xs a.2)
        ])

  find-insert_other :
      (xs : List ℕ) (k : ℕ)
      → Absent f xs r v.id
      → k ≢ v.id
      → find (upd f r v) (insert (upd f r v) r xs) k ≡ find f xs k
  find-insert_other [] k a ne =
      let no : (v.id == k) ≡ false = ground (arith, ne) in rw (==_refl r, no) refl
  find-insert_other (x ∷ xs) k a ne =
      let other : (x == r) ≡ false = ground (arith, a.0) in
      let differ : ((f x).id == v.id) ≡ false = ground (arith, a.1) in
      let no : (v.id == k) ≡ false = ground (arith, ne) in
      rw (==_refl r, other, differ)
        (elim (Bool-cases (ltb v.id (f x).id)) [
          | inl l ↦
              rw (l, ==_refl r, no, other)
                (ap (λ (t : ℕ). if (f x).id == k then x else t) (find-upd f xs r v.id v k a.2))
          | inr g ↦
              rw (g, other)
                (ap (λ (t : ℕ). if (f x).id == k then x else t) (find-insert_other xs k a.2 ne))
        ])

-- Writing a resource without a change of its id does not change what is found.
pub find-same_id :
    (f : ℕ → Resource) (xs : List ℕ) (r : ℕ) (v : Resource) (k : ℕ)
    → v.id ≡ (f r).id
    → find (upd f r v) xs k ≡ find f xs k
find-same_id f [] r v k e = refl
find-same_id f (x ∷ xs) r v k e = elim (Bool-cases (x == r)) [
  | inl same ↦
      let eq : x ≡ r = ground arith in
      rw (same, eq, e) (ap (λ (t : ℕ). if (f r).id == k then r else t) (find-same_id f xs r v k e))
  | inr other ↦
      rw other (ap (λ (t : ℕ). if (f x).id == k then x else t) (find-same_id f xs r v k e))
]

-- `resource_alloc` of a resource that is not in the tree, with an id that is not taken, makes the
-- resource the one of that id, with two references, and leaves the resources of all other ids.
pub resource_alloc_lem :
    (s : Table) (r : ℕ) (kind : Kind) (id k : ℕ)
    → Absent s.resource s.resources r id
    → k ≢ id
    → let (handle, s') = resource_alloc s r kind id in
      (handle ≡ id)
      × (find s'.resource s'.resources id ≡ r)
      × ((s'.resource r).refs ≡ 2)
      × ((s'.resource r).kind ≡ kind)
      × (find s'.resource s'.resources k ≡ find s.resource s.resources k)
unfolding resource_alloc
resource_alloc_lem s r kind id k a ne =
    let v : Resource = record { refs = 2; kind = kind; id = id } in
    (
      refl,
      find-insert s.resource r v s.resources a,
      rw ==_refl refl,
      rw ==_refl refl,
      find-insert_other s.resource r v s.resources k a ne,
    )

-- Behind a resource of a smaller id there is none of that id.
find-above : (f : ℕ → Resource) (xs : List ℕ) (k : ℕ) → All (λ y. k < (f y).id) xs → find f xs k ≡ 0
find-above f [] k a = refl
find-above f (x ∷ xs) k a =
    let no : ((f x).id == k) ≡ false = ground (arith, a.0) in rw no (find-above f xs k a.1)

-- What is found has the id.
find-id : (f : ℕ → Resource) (xs : List ℕ) (k : ℕ) → (find f xs k ≡ 0) ⊎ ((f (find f xs k)).id ≡ k)
find-id f [] k = inl refl
find-id f (x ∷ xs) k = elim (Bool-cases ((f x).id == k)) [
  | inl e ↦ let same : (f x).id ≡ k = ground arith in inr (rw e same)
  | inr e ↦ rw e (find-id f xs k)
]

pub find-remove :
    (f : ℕ → Resource) (xs : List ℕ) (k : ℕ)
    → Sorted f xs
    → find f (list_remove xs (find f xs k)) k ≡ 0
find-remove f [] k o = refl
find-remove f (x ∷ xs) k o = elim (Bool-cases ((f x).id == k)) [
  | inl e ↦
      let same : (f x).id ≡ k = ground arith in
      rw (e, ==_refl x) (find-above f xs k (subst (λ (t : ℕ). All (λ y. t < (f y).id) xs) same o.0))
  | inr e ↦ elim (Bool-cases (x == find f xs k)) [
    | inl same ↦
        let eq : x ≡ find f xs k = ground arith in
        rw (e, same)
          (elim (find-id f xs k) [
            | inl none ↦ none
            | inr id ↦
                let same_id : (f x).id ≡ k = ap (λ (t : ℕ). (f t).id) eq ∙ id in
                absurd (ground (arith, same_id))
          ])
    | inr other ↦ rw (e, other) (rw e (find-remove f xs k o.1))
  ]
]

pub find-remove_other :
    (f : ℕ → Resource) (xs : List ℕ) (r k : ℕ)
    → (f r).id ≢ k
    → find f (list_remove xs r) k ≡ find f xs k
find-remove_other f [] r k ne = refl
find-remove_other f (x ∷ xs) r k ne = elim (Bool-cases (x == r)) [
  | inl e ↦
      let same : x ≡ r = ground arith in
      let no : ((f x).id == k) ≡ false = rw same (ground (arith, ne)) in rw (e, no) refl
  | inr e ↦ rw e (ap (λ (t : ℕ). if (f x).id == k then x else t) (find-remove_other f xs r k ne))
]
