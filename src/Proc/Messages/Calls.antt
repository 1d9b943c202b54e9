-- ===== src/Proc/Messages/Calls.antt =====
-- The invariant of the messages of proc/msg.c, and the changes of queues and states that keep it.
use mathlib.Core.Bool.{true≢false, false≢true}
use phoenix_rtos_kernel.Base.{
  ℕ, ◌≡◌, refl, ap, sym, ◌∙◌, inl, inr, Bool, true, false, List, [], ◌∷◌, Option, none, some, ◌==◌,
  ==_refl, Bool-cases, upd, list_add, list_remove, has, has-add, arith,
}
use phoenix_rtos_kernel.Proc.Messages.{
  Mail, KmsgState, msg_waiting, msg_received, is_waiting, set_state, unqueue,
}
use phoenix_rtos_kernel.Proc.Messages.Frame.{Keeps}

abbrev pub is_some {ℓ} : {A : Type ℓ} → Option A → Bool
is_some none = false
is_some (some x) = true

abbrev port_or_zero : Option ℕ → ℕ
port_or_zero none = 0
port_or_zero (some p) = p

abbrev pub is_received : KmsgState → Bool
is_received msg_received = true
is_received _ = false

abbrev pub Distinct : List ℕ → Type 0
Distinct [] = Unit
Distinct (x ∷ xs) = (has xs x ≡ false) × Distinct xs

-- `a m` is the port of the call of proc_send that the `kmsg_t` with the number `m` belongs to, as long
-- as that call has not returned, and `v m` says that a receiver has the message and is to answer it. A
-- queue holds waiting messages of calls that have not returned, each once, and a message that is
-- to be answered is received and its sender is still there.
abbrev pub IsSafe : Mail → (ℕ → Option ℕ) → (ℕ → Bool) → Type 0
IsSafe s a v =
    ((p m : ℕ) → has (s.port p).kmessages m ≡ true → (s.state m ≡ msg_waiting) × (a m ≡ some p))
    × ((p : ℕ) → Distinct (s.port p).kmessages)
    × ((m : ℕ) → v m ≡ true → (s.state m ≡ msg_received) × (is_some (a m) ≡ true))

pub Keeps-IsSafe :
    (s s' : Mail) (a : ℕ → Option ℕ) (v : ℕ → Bool) → Keeps s s' → IsSafe s a v → IsSafe s' a v
Keeps-IsSafe s s' a v k (q, d, r) =
    (λ p m h. rw k.1 (q p m (rw (k.0 p) at h)), λ p. rw (k.0 p) (d p), λ m h. rw k.1 (r m h))

has-remove : (xs : List ℕ) (x y : ℕ) → has (list_remove xs x) y ≡ true → has xs y ≡ true
has-remove [] x y h = h
has-remove (z ∷ zs) x y h = ground (arith, has-remove zs x y)

remove-Distinct : (xs : List ℕ) (x : ℕ) → Distinct xs → Distinct (list_remove xs x)
remove-Distinct [] x d = d
remove-Distinct (z ∷ zs) x d = elim (Bool-cases (z == x)) [
  | inl e ↦ rw e d.1
  | inr e ↦ rw e (
    (elim (Bool-cases (has (list_remove zs x) z)) [
      | inl h ↦ absurd (true≢false (sym (has-remove zs x z h) ∙ d.0))
      | inr h ↦ h
    ]),
    remove-Distinct zs x d.1,
  )
]

removed : (xs : List ℕ) (x : ℕ) → Distinct xs → has (list_remove xs x) x ≡ false
removed [] x d = refl
removed (z ∷ zs) x d = elim (Bool-cases (z == x)) [
  | inl e ↦ let q : z ≡ x = ground arith in rw (e, sym q) d.0
  | inr e ↦ rw (e, e) (removed zs x d.1)
]

pub add-Distinct : (xs : List ℕ) (x : ℕ) → Distinct xs → has xs x ≡ false → Distinct (list_add xs x)
add-Distinct [] x d h = (refl, tt)
add-Distinct (z ∷ zs) x d h = elim (Bool-cases (z == x)) [
  | inl e ↦ absurd (ground arith)
  | inr e ↦ (has-add zs x z ∙ rw d.0 (ground arith), add-Distinct zs x d.1 (rw e at h))
]

module _ (s : Mail) (a : ℕ → Option ℕ) (v : ℕ → Bool) (safe : IsSafe s a v) where
  -- A message that no call has is on no queue.
  pub no_call-queued : (m p : ℕ) → a m ≡ none → has (s.port p).kmessages m ≡ false
  no_call-queued m p e = elim (Bool-cases (has (s.port p).kmessages m)) [
    | inl h ↦ absurd (false≢true (ap is_some (sym e ∙ (safe.0 p m h).1)))
    | inr h ↦ h
  ]

  -- A message that is not waiting is on no queue.
  pub not_waiting-queued :
      (m p : ℕ) → is_waiting (s.state m) ≡ false → has (s.port p).kmessages m ≡ false
  not_waiting-queued m p e = elim (Bool-cases (has (s.port p).kmessages m)) [
    | inl h ↦ absurd (false≢true (sym e ∙ ap is_waiting (safe.0 p m h).0))
    | inr h ↦ h
  ]

  -- A message that is not received is not to be answered.
  pub not_received-served : (m : ℕ) → is_received (s.state m) ≡ false → v m ≡ false
  not_received-served m e = elim (Bool-cases (v m)) [
    | inl h ↦ absurd (false≢true (sym e ∙ ap is_received (safe.2 m h).0))
    | inr h ↦ h
  ]

  -- The state of one message that is on no queue changes, and it is not to be answered then.
  pub set_state-IsSafe :
      (m : ℕ) (k : KmsgState)
      → ((p : ℕ) → has (s.port p).kmessages m ≡ false)
      → IsSafe (set_state s m k) a (upd v m false)
  set_state-IsSafe m k out = (
    λ p j h. elim (Bool-cases (j == m)) [
      | inl e ↦
          let q : j ≡ m = ground arith in
          absurd (false≢true (sym (out p) ∙ ap (has (s.port p).kmessages) (sym q) ∙ h))
      | inr e ↦ rw e (safe.0 p j h)
    ],
    safe.1,
    λ j h. elim (Bool-cases (j == m)) [
      | inl e ↦ absurd (false≢true (rw e at h))
      | inr e ↦ rw e (safe.2 j (rw e at h))
    ],
  )

  -- The call of a message that is on no queue and not to be answered returns.
  pub gone-IsSafe :
      (m : ℕ)
      → ((p : ℕ) → has (s.port p).kmessages m ≡ false)
      → v m ≡ false
      → IsSafe s (upd a m none) v
  gone-IsSafe m out nv = (
    λ p j h. elim (Bool-cases (j == m)) [
      | inl e ↦
          let q : j ≡ m = ground arith in
          absurd (false≢true (sym (out p) ∙ ap (has (s.port p).kmessages) (sym q) ∙ h))
      | inr e ↦ rw e (safe.0 p j h)
    ],
    safe.1,
    λ j h. elim (Bool-cases (j == m)) [
      | inl e ↦ let q : j ≡ m = ground arith in absurd (false≢true (sym nv ∙ ap v (sym q) ∙ h))
      | inr e ↦ rw e (safe.2 j h)
    ],
  )

  -- A message is taken off a queue.
  pub unqueue-IsSafe : (p m : ℕ) → IsSafe (unqueue s p m) a v
  unqueue-IsSafe p m = (
    λ q j h. elim (Bool-cases (q == p)) [
      | inl e ↦
          let w : q ≡ p = ground arith in
          rw w (safe.0 p j (has-remove (s.port p).kmessages m j (rw (w, ==_refl p) at h)))
      | inr e ↦ safe.0 q j (rw e at h)
    ],
    λ q. elim (Bool-cases (q == p)) [
      | inl e ↦ rw e (remove-Distinct (s.port p).kmessages m (safe.1 p))
      | inr e ↦ rw e (safe.1 q)
    ],
    safe.2,
  )

  -- Taken off the queue of its port, a message is on no queue.
  pub unqueue-queued :
      (p m : ℕ) → a m ≡ some p → (q : ℕ) → has ((unqueue s p m).port q).kmessages m ≡ false
  unqueue-queued p m at q = elim (Bool-cases (q == p)) [
    | inl e ↦ rw e (removed (s.port p).kmessages m (safe.1 p))
    | inr e ↦ rw e (elim (Bool-cases (has (s.port q).kmessages m)) [
      | inl h ↦ let w : q ≡ p = ap port_or_zero (sym (safe.0 q m h).1 ∙ at) in absurd (ground arith)
      | inr h ↦ h
    ])
  ]
