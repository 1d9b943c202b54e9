-- ===== src/Proc/Names/Prefix.antt =====
-- Where proc_portLookup of proc/name.c starts to ask servers.
use mathlib.Core.Path.{subst}
use phoenix_rtos_kernel.Base.{
  ℕ, zero, suc, ◌≤◌, ◌<◌, ◌≡◌, ◌≢◌, refl, sym, ◌⊎◌, inl, inr, true, false, none, some, List, ◌==◌,
  leb, Bool-cases, Option-cases, arith, get_or, take, length,
}
use native.Mathlib.Decide.{dec_lt}
use phoenix_rtos_kernel.Proc.Names.{Oid, Names, entry_lookup, slash_before, start_loop}

module _ (name : List ℕ) (rooted : get_or name 0 0 ≡ 47) where
  -- The last slash in front of a place
  slash_before_lem :
      (m : ℕ)
      → 0 < m
      → let j = slash_before name m in
        (j < m) × (get_or name j 0 ≡ 47) × ((k : ℕ) → j < k → k < m → get_or name k 0 ≢ 47)
  slash_before_lem zero h = absurd (omega arith)
  slash_before_lem (suc zero) h = rw rooted (omega arith, rooted, λ k a b. absurd (omega arith))
  slash_before_lem (suc (suc m)) h = elim (Bool-cases (get_or name (suc m) 0 == 47)) [
    | inl e ↦ rw e (omega arith, ground arith, λ k a b. absurd (omega arith))
    | inr e ↦
        let (lt, at, none_between) = slash_before_lem (suc m) (omega arith) in
        rw e (
          omega arith,
          at,
          λ k a b. elim (dec_lt k (suc m)) [
            | yes l ↦ none_between k a l
            | no g ↦ let q : k ≡ suc m = omega arith in rw q (λ f. absurd (ground arith))
          ],
        )
  ]

  module _ (s : Names) (srv : Oid) where
    -- Between the two places, no part that ends in front of a slash is cached.
    abbrev pub Skipped : ℕ → ℕ → Type 0
    Skipped i m =
        (j : ℕ) → i < j → j < m → get_or name j 0 ≡ 47 → entry_lookup s (take j name) ≡ none

    abbrev pub Starts : ℕ → ℕ × Oid → Type 0
    Starts m r =
        Skipped r.0 m
        × (((r.0 < m) × (get_or name r.0 0 ≡ 47) × (entry_lookup s (take r.0 name) ≡ some r.1))
            ⊎ ((r.0 ≤ 1) × (r.1 ≡ srv)))

    start_none : (m : ℕ) → start_loop zero s name m srv ≡ (m, srv)
    unfolding start_loop
    start_none m = refl

    start_end : (fuel m : ℕ) → leb m 1 ≡ true → start_loop (suc fuel) s name m srv ≡ (m, srv)
    unfolding start_loop
    start_end fuel m e = rw e refl

    start_front :
        (fuel m : ℕ)
        → leb m 1 ≡ false
        → (slash_before name m == 0) ≡ true
        → start_loop (suc fuel) s name m srv ≡ (0, srv)
    unfolding start_loop
    start_front fuel m e f = rw (e, f) refl

    start_hit :
        (fuel m : ℕ) (o : Oid)
        → leb m 1 ≡ false
        → (slash_before name m == 0) ≡ false
        → entry_lookup s (take (slash_before name m) name) ≡ some o
        → start_loop (suc fuel) s name m srv ≡ (slash_before name m, o)
    unfolding start_loop
    start_hit fuel m o e f g = rw (e, f, g) refl

    start_miss :
        (fuel m : ℕ)
        → leb m 1 ≡ false
        → (slash_before name m == 0) ≡ false
        → entry_lookup s (take (slash_before name m) name) ≡ none
        → start_loop (suc fuel) s name m srv ≡ start_loop fuel s name (slash_before name m) srv
    unfolding start_loop
    start_miss fuel m e f g = rw (e, f, g) refl

    -- The part in front of the last slash is not cached, and the search goes on.
    further :
        (m j : ℕ) (r : ℕ × Oid)
        → j < m
        → ((k : ℕ) → j < k → k < m → get_or name k 0 ≢ 47)
        → entry_lookup s (take j name) ≡ none
        → Starts j r
        → Starts m r
    further m j r lt no_slash e (skipped, o) = (
      λ k a b c. elim (dec_lt k j) [
        | yes l ↦ skipped k a l c
        | no g ↦ elim (dec_lt j k) [
          | yes l ↦ absurd (no_slash k l b c)
          | no g' ↦ let q : k ≡ j = omega arith in rw q e
        ]
      ],
      elim o [ inl (l, at, hit) ↦ inl (omega arith, at, hit) | inr last ↦ inr last ],
    )

    start_loop-Starts : (fuel m : ℕ) → m ≤ suc fuel → Starts m (start_loop fuel s name m srv)
    start_loop-Starts zero m h =
        subst (Starts m) (sym (start_none m))
          (λ j a b. absurd (omega arith), inr (omega arith, refl))
    start_loop-Starts (suc fuel) m h = elim (Bool-cases (leb m 1)) [
      | inl e ↦
          subst (Starts m) (sym (start_end fuel m e))
            (λ j a b. absurd (omega arith), inr (ground arith, refl))
      | inr e ↦
          let (lt, at, no_slash) = slash_before_lem m (ground arith) in
          elim (Bool-cases (slash_before name m == 0)) [
            | inl f ↦
                let q : slash_before name m ≡ 0 = ground arith in
                subst (Starts m) (sym (start_front fuel m e f))
                  (λ j a b c. absurd (no_slash j (omega arith) b c), inr (omega arith, refl))
            | inr f ↦ elim (Option-cases (entry_lookup s (take (slash_before name m) name))) [
              | inl g ↦ subst (Starts m) (sym (start_miss fuel m e f g)) (
                  further m (slash_before name m) (start_loop fuel s name (slash_before name m) srv)
                    lt no_slash g (start_loop-Starts fuel (slash_before name m) (omega arith)))
              | inr (o, g) ↦
                  subst (Starts m) (sym (start_hit fuel m o e f g))
                    (λ j a b c. absurd (no_slash j a b c), inl (lt, at, g))
            ]
          ]
    ]

    -- For a name that starts with a slash, proc_portLookup starts to ask at the longest part in front
    -- of a slash that is cached, and with what it leads to, or, when there is none behind the first
    -- byte, at the front with the root.
    pub start_loop_lem : Starts (length name) (start_loop (length name) s name (length name) srv)
    start_loop_lem = start_loop-Starts (length name) (length name) (omega arith)
