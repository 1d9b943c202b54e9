-- ===== src/Proc/Names/Chain.antt =====
-- Chains of entries in the cache of proc/name.c.
use mathlib.Core.Path.{ap₂}
use phoenix_rtos_kernel.Base.{
  ℕ, ◌≡◌, refl, ap, sym, ◌∙◌, inl, inr, Bool, true, false, Option, none, some, List, [], ◌∷◌, ◌==◌,
  ==_refl, if◌then◌else◌, Bool-cases, arith,
}
use phoenix_rtos_kernel.Proc.Names.{
  Oid, Entry, name_eq, lookup_loop, unlink_entry, unregister_chain,
}

pub name_eq_refl : (xs : List ℕ) → name_eq xs xs ≡ true
name_eq_refl [] = refl
name_eq_refl (c ∷ cs) = rw (==_refl c, name_eq_refl cs) refl

pub name_eq_sound : (xs ys : List ℕ) → name_eq xs ys ≡ true → xs ≡ ys
name_eq_sound [] [] e = refl
name_eq_sound [] (d ∷ ds) e = absurd (ground arith)
name_eq_sound (c ∷ cs) [] e = absurd (ground arith)
name_eq_sound (c ∷ cs) (d ∷ ds) e = elim (Bool-cases (c == d)) [
  | inl h ↦ let q : c ≡ d = ground arith in ap₂ ◌∷◌ q (name_eq_sound cs ds (rw h at e))
  | inr h ↦ absurd (ground arith)
]

-- No name stands twice in a chain.
abbrev pub IsDistinct : List Entry → Type 0
IsDistinct [] = Unit
IsDistinct (e ∷ es) = (lookup_loop es e.name ≡ none) × IsDistinct es

abbrev pub is_first : List Entry → List ℕ → Bool
is_first [] name = false
is_first (e ∷ es) name = name_eq e.name name

-- The walk with the entry of one name gone
removed_first :
    (e : Entry) (es : List Entry) (name n : List ℕ)
    → lookup_loop es e.name ≡ none
    → name_eq e.name name ≡ true
    → lookup_loop es n ≡ (if name_eq name n then none else lookup_loop (e ∷ es) n)
removed_first e es name n a h =
    let same : e.name ≡ name = name_eq_sound e.name name h in
    elim (Bool-cases (name_eq name n)) [
      | inl k ↦
          let gone : lookup_loop es n ≡ none =
            ap (lookup_loop es) (sym (same ∙ name_eq_sound name n k)) ∙ a in
          rw k gone
      | inr k ↦ rw (k, same, k) refl
    ]

-- An entry that stays in front
kept_first :
    (e : Entry) (name n : List ℕ) (rest rest' : Option Oid)
    → name_eq e.name name ≡ false
    → rest ≡ (if name_eq name n then none else rest')
    → (if name_eq e.name n then some e.oid else rest)
      ≡ (if name_eq name n then none else if name_eq e.name n then some e.oid else rest')
kept_first e name n rest rest' h r = elim (Bool-cases (name_eq name n)) [
  | inl k ↦
      let other : name_eq e.name n ≡ false =
        ap (name_eq e.name) (sym (name_eq_sound name n k)) ∙ h in
      rw (other, k) (rw k at r)
  | inr k ↦ rw k (ap (λ o. if name_eq e.name n then some e.oid else o) (rw k at r))
]

pub lookup-unlink :
    (es : List Entry) (name n : List ℕ)
    → IsDistinct es
    → lookup_loop (unlink_entry es name) n ≡ (if name_eq name n then none else lookup_loop es n)
lookup-unlink [] name n d = ground arith
lookup-unlink (e ∷ es) name n d = elim (Bool-cases (name_eq e.name name)) [
  | inl h ↦ rw h (removed_first e es name n d.0 h)
  | inr h ↦ rw h (
      kept_first e name n (lookup_loop (unlink_entry es name) n) (lookup_loop es n) h
        (lookup-unlink es name n d.1))
]

pub lookup-unregister :
    (es : List Entry) (name n : List ℕ)
    → IsDistinct es
    → lookup_loop (unregister_chain es name) n
      ≡ (if is_first es name then none else if name_eq name n then none else lookup_loop es n)
lookup-unregister [] name n d = ground arith
lookup-unregister (e ∷ es) name n d = elim (Bool-cases (name_eq e.name name)) [
  | inl h ↦ rw h refl
  | inr h ↦ rw h (
      kept_first e name n (lookup_loop (unlink_entry es name) n) (lookup_loop es n) h
        (lookup-unlink es name n d.1))
]

unlink-IsDistinct :
    (es : List Entry) (name : List ℕ) → IsDistinct es → IsDistinct (unlink_entry es name)
unlink-IsDistinct [] name d = d
unlink-IsDistinct (e ∷ es) name d = elim (Bool-cases (name_eq e.name name)) [
  | inl h ↦ rw h d.1
  | inr h ↦ rw h (
    lookup-unlink es name e.name d.1
        ∙ (elim (Bool-cases (name_eq name e.name)) [ inl k ↦ rw k refl | inr k ↦ rw k d.0 ]),
    unlink-IsDistinct es name d.1,
  )
]

pub unregister-IsDistinct :
    (es : List Entry) (name : List ℕ) → IsDistinct es → IsDistinct (unregister_chain es name)
unregister-IsDistinct [] name d = d
unregister-IsDistinct (e ∷ es) name d = elim (Bool-cases (name_eq e.name name)) [
  | inl h ↦ rw h tt
  | inr h ↦ let kept = unlink-IsDistinct (e ∷ es) name d in rw h (rw h at kept)
]
