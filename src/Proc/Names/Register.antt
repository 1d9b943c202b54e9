-- ===== src/Proc/Names/Register.antt =====
-- proc_portRegister and proc_portUnregister of proc/name.c as changes of a map from names.
use mathlib.Core.Path.{subst}
use phoenix_rtos_kernel.Base.{
  ℕ, ◌≡◌, refl, ap, sym, ◌∙◌, inl, inr, true, false, ◌&&◌, ◌||◌, Option, none, some, List, ◌∷◌,
  ◌==◌, ==_refl, if◌then◌else◌, Bool-cases, arith, upd, Result, eok,
}
use phoenix_rtos_kernel.Proc.Names.{
  Oid, Entry, Names, name_eq, str_hash, lookup_loop, entry_lookup, is_root, new_entry,
  port_register, port_unregister, unregister_chain,
}
use phoenix_rtos_kernel.Proc.Names.Chain.{
  name_eq_sound, IsDistinct, is_first, lookup-unregister, unregister-IsDistinct,
}

-- No name stands twice in the cache.
abbrev pub IsCache : Names → Type 0
IsCache s = (h : ℕ) → IsDistinct (s.dcache h)

abbrev with_chain : Names → ℕ → List Entry → Names
with_chain s h chain = record s { dcache = upd s.dcache h chain }

lookup-with_chain :
    (s : Names) (h : ℕ) (chain : List Entry) (n : List ℕ)
    → entry_lookup (with_chain s h chain) n
      ≡ (if str_hash n == h then lookup_loop chain n else entry_lookup s n)
lookup-with_chain s h chain n = elim (Bool-cases (str_hash n == h)) [
  | inl e ↦ rw e refl
  | inr e ↦ rw e refl
]

with_chain-IsCache :
    (s : Names) (h : ℕ) (chain : List Entry)
    → IsCache s
    → IsDistinct chain
    → IsCache (with_chain s h chain)
with_chain-IsCache s h chain c d j = elim (Bool-cases (j == h)) [
  | inl e ↦ rw e d
  | inr e ↦ rw e (c j)
]

-- The same name has the same hash.
hash_other : (n name : List ℕ) → (str_hash n == str_hash name) ≡ false → name_eq name n ≡ false
hash_other n name e = elim (Bool-cases (name_eq name n)) [
  | inl h ↦
      let same : (str_hash n == str_hash name) ≡ true =
        ap (λ x. str_hash n == str_hash x) (name_eq_sound name n h) ∙ ==_refl (str_hash n) in
      absurd (ground arith)
  | inr h ↦ h
]

hash_same :
    (s : Names) (n name : List ℕ)
    → (str_hash n == str_hash name) ≡ true
    → s.dcache (str_hash n) ≡ s.dcache (str_hash name)
hash_same s n name e = let q : str_hash n ≡ str_hash name = ground arith in ap s.dcache q

added-lookup :
    (s : Names) (e : Entry) (n : List ℕ)
    → entry_lookup (with_chain s (str_hash e.name) (e ∷ s.dcache (str_hash e.name))) n
      ≡ (if name_eq e.name n then some e.oid else entry_lookup s n)
added-lookup s e n =
    lookup-with_chain s (str_hash e.name) (e ∷ s.dcache (str_hash e.name)) n
    ∙ elim (Bool-cases (str_hash n == str_hash e.name)) [
      | inl h ↦ rw h (rw (sym (hash_same s n e.name h)) refl)
      | inr h ↦ rw (h, hash_other n e.name h) refl
    ]

module _ (port : ℕ) (name : List ℕ) (oid : Option ℕ) (old : ℕ) (s : Names) where
  register_new :
      entry_lookup s name ≡ none
      → is_root name ≡ false
      → port_register port name oid (some old) s ≡ (
        eok,
        with_chain s (str_hash name) (new_entry name port oid old ∷ s.dcache (str_hash name)),
      )
  unfolding port_register
  register_new e r = rw (e, r, port_register) refl

  -- What is true after the registration of a name
  abbrev pub Registered : Result × Names → Type 0
  Registered r =
      (r.0 ≡ eok)
      × IsCache r.1
      × ((n : List ℕ)
          → entry_lookup r.1 n ≡ (
              if name_eq name n
              then some (record { port = port; id = elim oid [ some i ↦ i | none ↦ old ] })
              else entry_lookup s n))

  -- When a name that is not the root is not in the cache and there is memory, proc_portRegister returns
  -- EOK, and afterwards the name leads to the port with the id given, or with what the memory of the
  -- entry held if none is, and every other name to what it led to before; no name stands twice.
  pub port_register_lem :
      IsCache s
      → entry_lookup s name ≡ none
      → is_root name ≡ false
      → Registered (port_register port name oid (some old) s)
  port_register_lem c e r =
      let new = new_entry name port oid old in
      subst Registered (sym (register_new e r)) (
        refl,
        with_chain-IsCache s (str_hash name) (new ∷ s.dcache (str_hash name)) c
            (e, c (str_hash name)),
        added-lookup s new,
      )

chain_cases :
    (chain : List Entry) (name n : List ℕ)
    → (if is_first chain name then none else if name_eq name n then none else lookup_loop chain n)
      ≡ (if name_eq name n || (is_first chain name && true) then none else lookup_loop chain n)
chain_cases chain name n = ground arith

kept_cases :
    (chain : List Entry) (name n : List ℕ) (o : Option Oid)
    → o ≡ (if false || (is_first chain name && false) then none else o)
kept_cases chain name n o = ground arith

-- In a cache where no name stands twice, proc_portUnregister takes the name out and leaves what other
-- names lead to, but when the name is the first of its chain, all names with the same hash are gone;
-- still no name stands twice.
pub port_unregister_lem :
    (name : List ℕ) (s : Names)
    → IsCache s
    → IsCache (port_unregister name s)
      × ((n : List ℕ)
          → entry_lookup (port_unregister name s) n ≡ (
              if name_eq name n
                || (is_first (s.dcache (str_hash name)) name && (str_hash n == str_hash name))
              then none
              else entry_lookup s n))
unfolding port_unregister
port_unregister_lem name s c =
    let chain = s.dcache (str_hash name) in
    (
      with_chain-IsCache s (str_hash name) (unregister_chain chain name) c
          (unregister-IsDistinct chain name (c (str_hash name))),
      λ n.
          lookup-with_chain s (str_hash name) (unregister_chain chain name) n
          ∙ elim (Bool-cases (str_hash n == str_hash name)) [
            | inl h ↦ rw h (
                lookup-unregister chain name n (c (str_hash name))
                ∙ rw (hash_same s n name h) (chain_cases chain name n))
            | inr h ↦ rw (h, hash_other n name h) (kept_cases chain name n (entry_lookup s n))
          ],
    )
