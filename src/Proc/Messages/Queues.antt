-- ===== src/Proc/Messages/Queues.antt =====
-- The changes of the queues of proc/msg.c: a message is sent, received or rejected.
use mathlib.Core.Bool.{false≢true}
use phoenix_rtos_kernel.Base.{
  ℕ, ◌≡◌, refl, ap, sym, ◌∙◌, inl, inr, Bool, true, false, List, Option, none, some, ◌==◌,
  Bool-cases, upd, list_add, has, has-add, arith,
}
use phoenix_rtos_kernel.Proc.Messages.{
  Mail, Msg, KmsgState, msg_waiting, msg_received, set_port, set_state, unqueue, new_message,
}
use phoenix_rtos_kernel.Proc.Messages.Calls.{
  IsSafe, is_some, add-Distinct, no_call-queued, set_state-IsSafe, unqueue-IsSafe, unqueue-queued,
}

module _ (s : Mail) (a : ℕ → Option ℕ) (v : ℕ → Bool) (safe : IsSafe s a v) where
  pub not_served-IsSafe :
      (m : ℕ) (s' : Mail) → v m ≡ false → IsSafe s' a (upd v m false) → IsSafe s' a v
  not_served-IsSafe m s' nv (q, d, r) = (
    q,
    d,
    λ j h. elim (Bool-cases (j == m)) [
      | inl e ↦ let w : j ≡ m = ground arith in absurd (false≢true (sym nv ∙ ap v (sym w) ∙ h))
      | inr e ↦ r j (rw e h)
    ],
  )

  pub no_call-served : (m : ℕ) → a m ≡ none → v m ≡ false
  no_call-served m e = elim (Bool-cases (v m)) [
    | inl h ↦ absurd (false≢true (ap is_some (sym e) ∙ (safe.2 m h).1))
    | inr h ↦ h
  ]

  -- The `kmsg_t` of a new call
  pub new_message-IsSafe : (m : ℕ) (x : Msg) → a m ≡ none → IsSafe (new_message s m x) a v
  new_message-IsSafe m x e =
      not_served-IsSafe m (new_message s m x) (no_call-served m e)
        (set_state-IsSafe s a v safe m msg_waiting (λ p. no_call-queued s a v safe m p e))

  added_other :
      (xs : List ℕ) (x y : ℕ) → (y == x) ≡ false → has (list_add xs x) y ≡ true → has xs y ≡ true
  added_other xs x y e h = ground (arith, has-add xs x y)

  other_message :
      (j m : ℕ) (o : Option ℕ) → a m ≡ none → a j ≡ o → is_some o ≡ true → (j == m) ≡ false
  other_message j m o e f g = elim (Bool-cases (j == m)) [
    | inl h ↦
        let i : j ≡ m = ground arith in
        absurd (false≢true (ap is_some (sym e ∙ ap a (sym i) ∙ f) ∙ g))
    | inr h ↦ h
  ]

  -- `LIST_ADD(&p->kmessages, &kmsg)`
  pub queue-IsSafe :
      (p m : ℕ)
      → a m ≡ none
      → s.state m ≡ msg_waiting
      → (let x = s.port p in
          IsSafe
            (set_port s p (record x { kmessages = list_add x.kmessages m }))
            (upd a m (some p))
            v)
  queue-IsSafe p m e w = (
    λ q j h. elim (Bool-cases (q == p)) [
      | inl f ↦
          let same : q ≡ p = ground arith in
          elim (Bool-cases (j == m)) [
            | inl g ↦ let i : j ≡ m = ground arith in rw g (ap s.state i ∙ w, ap some (sym same))
            | inr g ↦
                let here : has (s.port p).kmessages j ≡ true =
                  added_other (s.port p).kmessages m j g (rw f at h) in
                rw g (rw same (safe.0 p j here))
          ]
      | inr f ↦
          let here : has (s.port q).kmessages j ≡ true = rw f at h in
          let (st, at) = safe.0 q j here in (st, rw (other_message j m (some q) e at refl) at)
    ],
    λ q. elim (Bool-cases (q == p)) [
      | inl f ↦
          rw f (add-Distinct (s.port p).kmessages m (safe.1 p) (no_call-queued s a v safe m p e))
      | inr f ↦ rw f (safe.1 q)
    ],
    λ j h. elim (Bool-cases (j == m)) [
      | inl f ↦ rw f ((let i : j ≡ m = ground arith in (safe.2 j h).0), refl)
      | inr f ↦ rw f (safe.2 j h)
    ],
  )

  -- `LIST_REMOVE(&p->kmessages, kmsg)` of a message that is on the queue, with its new state
  pub take-IsSafe :
      (p m : ℕ) (k : KmsgState)
      → has (s.port p).kmessages m ≡ true
      → IsSafe (set_state (unqueue s p m) m k) a (upd v m false)
  take-IsSafe p m k h =
      set_state-IsSafe (unqueue s p m) a v (unqueue-IsSafe s a v safe p m) m k
        (unqueue-queued s a v safe p m (safe.0 p m h).1)

  -- A message that is received is to be answered.
  pub received-IsSafe :
      (p m : ℕ)
      → has (s.port p).kmessages m ≡ true
      → IsSafe (set_state (unqueue s p m) m msg_received) a (upd v m true)
  received-IsSafe p m h =
      let (q, d, r) = take-IsSafe p m msg_received h in
      (
        q,
        d,
        λ j g. elim (Bool-cases (j == m)) [
          | inl f ↦ let w : j ≡ m = ground arith in rw f (refl, rw w (ap is_some (safe.0 p m h).1))
          | inr f ↦ r j (rw f (rw f at g))
        ],
      )
