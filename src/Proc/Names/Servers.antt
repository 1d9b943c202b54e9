-- ===== src/Proc/Names/Servers.antt =====
-- The loop of proc_portLookup in proc/name.c that asks the servers.
use phoenix_rtos_kernel.Base.{
  ℕ, zero, suc, ◌+◌, ◌-◌, ◌^◌, ◌%◌, ◌≤◌, ◌<◌, ◌≡◌, refl, ap, sym, ◌∙◌, ◌⊎◌, inl, inr, Bool, true,
  false, none, some, List, [], ◌∷◌, ◌==◌, ltb, Bool-cases, Option-cases, arith, length, drop,
  einval,
}
use phoenix_rtos_kernel.Proc.Names.{
  Oid, Count, resolved, refused, Reply, Request, Status, done, failed, passed_on, Answer, answer,
  query, with_request,
}

abbrev pub asked : List ℕ → ℕ → Oid → Request
asked name i srv = record {
  dir = srv;
  size = (length name + 2 ^ 64 - i) % 2 ^ 64;
  copied = (length name + 2 ^ 64 - i) % 2 ^ 64 % 2 ^ 32;
  data_of = drop (i + 1) name;
}

module _ (name : List ℕ) (replies : ℕ → Reply) where
  -- The rounds from `k` on at which servers resolve the rest of the name behind `i`, each at least up to
  -- a slash that is left, and what they are asked.
  abbrev pub Walk : ℕ → ℕ → ℕ → Oid → List Request → Type 0
  Walk zero k i srv qs = (i ≡ length name) × (qs ≡ [])
  Walk (suc n) k i srv qs =
      (c : ℕ) × (rest : List Request) × ((replies k).sent ≡ none)
      × ((replies k).count ≡ resolved c)
      × (i + c < length name)
      × Walk n (k + 1) (i + c + 1) (replies k).dev rest
      × (qs ≡ asked name i srv ∷ rest)

  Count-cases : (c : Count) → ((n : ℕ) × (c ≡ resolved n)) ⊎ ((e : ℕ) × (c ≡ refused e))
  Count-cases (resolved n) = inl (n, refl)
  Count-cases (refused e) = inr (e, refl)

  module _ (fuel k i : ℕ) (srv : Oid) where
    query_sent :
        (e : ℕ)
        → (replies k).sent ≡ some e
        → query (suc fuel) name replies k i srv
          ≡ with_request (asked name i srv) (answer (passed_on e) (replies k) [])
    unfolding query
    query_sent e h = rw h refl

    query_refused :
        (e : ℕ)
        → (replies k).sent ≡ none
        → (replies k).count ≡ refused e
        → query (suc fuel) name replies k i srv
          ≡ with_request (asked name i srv) (answer (passed_on e) (replies k) [])
    unfolding query
    query_refused e h c = rw (h, c) refl

    query_past :
        (n : ℕ)
        → (replies k).sent ≡ none
        → (replies k).count ≡ resolved n
        → ltb (length name) (i + n) ≡ true
        → query (suc fuel) name replies k i srv
          ≡ with_request (asked name i srv) (answer (failed einval) (replies k) [])
    unfolding query
    query_past n h c e = rw (h, c, e) refl

    query_done :
        (n : ℕ)
        → (replies k).sent ≡ none
        → (replies k).count ≡ resolved n
        → ltb (length name) (i + n) ≡ false
        → (i + n + 1 == length name) ≡ true
        → query (suc fuel) name replies k i srv
          ≡ with_request (asked name i srv) (answer done (replies k) [])
    unfolding query
    query_done n h c e f = rw (h, c, e, f) refl

    query_next :
        (n : ℕ)
        → (replies k).sent ≡ none
        → (replies k).count ≡ resolved n
        → ltb (length name) (i + n) ≡ false
        → (i + n + 1 == length name) ≡ false
        → query (suc fuel) name replies k i srv
          ≡ with_request
              (asked name i srv)
              (query fuel name replies (k + 1) (i + n + 1) (replies k).dev)
    unfolding query
    query_next n h c e f = rw (h, c, e, f) refl

  abbrev is_done : Status → Bool
  is_done done = true
  is_done _ = false

  -- When the servers resolve a name, the whole of it is resolved.
  abbrev Done : ℕ → ℕ → Oid → Answer → Type 0
  Done k i srv a = is_done a.err ≡ true → (n : ℕ) × Walk (suc n) k i srv a.requests

  query_first :
      (fuel k i : ℕ) (srv : Oid)
      → (rest : List Request) × ((query (suc fuel) name replies k i srv).requests
          ≡ asked name i srv ∷ rest)
  unfolding query
  query_first fuel k i srv = (_, refl)

  -- A server that says that it has resolved one byte more than it was given, which the code lets pass,
  -- makes the kernel ask the next one with a size of 2^64 - 1, and call hal_memcpy for 2^32 - 1 bytes of
  -- the name.
  pub query-past_end :
      (fuel k i c : ℕ) (srv : Oid)
      → (replies k).sent ≡ none
      → (replies k).count ≡ resolved c
      → i + c ≡ length name
      → length name < 2 ^ 63
      → (rest : List Request) × ((query (suc (suc fuel)) name replies k i srv).requests
          ≡ asked name i srv ∷ asked name (length name + 1) (replies k).dev ∷ rest)
        × ((asked name (length name + 1) (replies k).dev).size ≡ 2 ^ 64 - 1)
        × ((asked name (length name + 1) (replies k).dev).copied ≡ 2 ^ 32 - 1)
  query-past_end fuel k i c srv h r e small =
      let next = query (suc fuel) name replies (k + 1) (i + c + 1) (replies k).dev in
      let (rest, q) = query_first fuel (k + 1) (i + c + 1) (replies k).dev in
      let at : i + c + 1 ≡ length name + 1 = omega arith in
      (
        rest,
        ap (λ (a : Answer). a.requests)
              (query_next (suc fuel) k i srv c h r (ground arith) (ground arith))
            ∙ ap (λ qs. asked name i srv ∷ qs)
                (q ∙ ap (λ j. asked name j (replies k).dev ∷ rest) at),
        omega arith,
        omega arith,
      )

  -- The loop of proc_portLookup ends whatever the servers answer: from a place in the name or one
  -- behind it, any two bounds of the rounds that are at least the length that is left and two give the
  -- same answer.
  pub query-enough :
      (f f' k i : ℕ) (srv : Oid)
      → i ≤ length name + 1
      → length name + 2 ≤ f + i
      → length name + 2 ≤ f' + i
      → query f name replies k i srv ≡ query f' name replies k i srv
  query-enough zero f' k i srv le a b = absurd (omega arith)
  query-enough (suc f) zero k i srv le a b = absurd (omega arith)
  query-enough (suc f) (suc f') k i srv le a b = elim (Option-cases (replies k).sent) [
    | inr (e, h) ↦ query_sent f k i srv e h ∙ sym (query_sent f' k i srv e h)
    | inl h ↦ elim (Count-cases (replies k).count) [
      | inr (e, r) ↦ query_refused f k i srv e h r ∙ sym (query_refused f' k i srv e h r)
      | inl (c, r) ↦ elim (Bool-cases (ltb (length name) (i + c))) [
        | inl e ↦ query_past f k i srv c h r e ∙ sym (query_past f' k i srv c h r e)
        | inr e ↦ elim (Bool-cases (i + c + 1 == length name)) [
          | inl g ↦ query_done f k i srv c h r e g ∙ sym (query_done f' k i srv c h r e g)
          | inr g ↦
              query_next f k i srv c h r e g
              ∙ ap (with_request (asked name i srv)) (
                  query-enough f f' (k + 1) (i + c + 1) (replies k).dev (ground arith) (omega arith)
                    (omega arith))
              ∙ sym (query_next f' k i srv c h r e g)
        ]
      ]
    ]
  ]
