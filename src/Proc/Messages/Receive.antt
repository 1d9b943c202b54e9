-- ===== src/Proc/Messages/Receive.antt =====
-- proc_recv and proc_respond of proc/msg.c keep the invariant of the messages.
use phoenix_rtos_kernel.Base.{
  ℕ, zero, suc, ◌≡◌, refl, ap, ◌∙◌, Bool, true, false, not, ◌&&◌, ◌||◌, List, [], ◌∷◌, Option,
  ==_refl, upd, Result, eok, fails, einval, has, is_empty,
}
use mathlib.Core.Bool.{}
use phoenix_rtos_kernel.Proc.Locks.{thread_wait}
use phoenix_rtos_kernel.Proc.Messages.{
  Mail, KmsgState, msg_received, msg_rejected, msg_responded, is_waiting, is_interrupted, port_get,
  port_put, set_state, unqueue, wake, Received, gives_up, receiver_sleeps, got, reject_first,
  recv_take, recv_wait, recv, recv_resume, recv_end, respond,
}
use phoenix_rtos_kernel.Proc.Messages.Frame.{either, port_get-Keeps, port_put-Keeps}
use phoenix_rtos_kernel.Proc.Messages.Calls.{
  IsSafe, Keeps-IsSafe, is_received, set_state-IsSafe, not_waiting-queued, not_received-served,
}
use phoenix_rtos_kernel.Proc.Messages.Queues.{take-IsSafe, received-IsSafe, not_served-IsSafe}

-- The messages to be answered, after proc_recv
abbrev pub server : (ℕ → Bool) → Received → ℕ → Bool
server v (gives_up e) = v
server v receiver_sleeps = v
server v (got m) = upd v m true

-- The messages to be answered, once a message has been answered or rejected, or not
abbrev pub answered : (ℕ → Bool) → ℕ → Bool → ℕ → Bool
answered v m true = upd v m false
answered v m false = v

abbrev pub is_eok : Result → Bool
is_eok eok = true
is_eok (fails e) = false

module _ (a : ℕ → Option ℕ) (v : ℕ → Bool) where
  abbrev pub Got : Received × Mail → Type 0
  Got r = IsSafe r.1 a (server v r.0)

  put-IsSafe :
      (s : Mail) (now p : ℕ) (destroy : Bool) (v : ℕ → Bool)
      → IsSafe s a v
      → IsSafe (port_put s now p destroy) a v
  put-IsSafe s now p destroy v safe =
      Keeps-IsSafe s (port_put s now p destroy) a v (port_put-Keeps s now p destroy) safe

  head_queued :
      (s : Mail) (p m : ℕ) (ms : List ℕ)
      → (s.port p).kmessages ≡ m ∷ ms
      → has (s.port p).kmessages m ≡ true
  head_queued s p m ms e = ap (λ xs. has xs m) e ∙ rw (==_refl m) refl

  reject_first-IsSafe :
      (s : Mail) (now p : ℕ) (xs : List ℕ)
      → IsSafe s a v
      → (s.port p).kmessages ≡ xs
      → IsSafe (reject_first s now p xs) a v
  reject_first-IsSafe s now p [] safe e = safe
  reject_first-IsSafe s now p (m ∷ ms) safe e =
      let h = head_queued s p m ms e in
      not_served-IsSafe s a v safe m (reject_first s now p (m ∷ ms))
        (not_received-served s a v safe m (ap is_received (safe.0 p m h).0))
        (take-IsSafe s a v safe p m msg_rejected h)

  taken-Got :
      (s : Mail) (p : ℕ) (xs : List ℕ)
      → IsSafe s a v
      → (s.port p).kmessages ≡ xs
      → Got (elim xs as (λ x. Received × Mail) [
        | [] ↦ (gives_up einval, s)
        | m ∷ ms ↦ (got m, set_state (unqueue s p m) m msg_received)
      ])
  taken-Got s p [] safe e = safe
  taken-Got s p (m ∷ ms) safe e = received-IsSafe s a v safe p m (head_queued s p m ms e)

  open-Got :
      (s : Mail) (now p : ℕ) (err : Result)
      → IsSafe s a v
      → Got (elim err as (λ x. Received × Mail) [
        | fails e ↦ (gives_up e, port_put s now p false)
        | eok ↦ elim (s.port p).kmessages as (λ x. Received × Mail) [
          | [] ↦ (gives_up einval, s)
          | m ∷ ms ↦ (got m, set_state (unqueue s p m) m msg_received)
        ]
      ])
  open-Got s now p eok safe = taken-Got s p (s.port p).kmessages safe refl
  open-Got s now p (fails e) safe = put-IsSafe s now p false v safe

  recv_take-Got : (s : Mail) (now p : ℕ) (err : Result) → IsSafe s a v → Got (recv_take s now p err)
  unfolding recv_take
  recv_take-Got s now p err safe =
      let x = s.port p in
      either Got x.closed _ _
        (put-IsSafe (reject_first s now p x.kmessages) now p false v
          (reject_first-IsSafe s now p x.kmessages safe refl))
        (open-Got s now p err safe)

  recv_wait-Got :
      (fuel : ℕ) (s : Mail) (cpu now p : ℕ) (err : Result)
      → IsSafe s a v
      → Got (recv_wait fuel s cpu now p err)
  unfolding recv_wait
  recv_wait-Got zero s cpu now p err safe = safe
  recv_wait-Got (suc fuel) s cpu now p err safe =
      let (at_once, l) = thread_wait s.sys cpu now p 0 true in
      let s' : Mail = record s { sys = l } in
      let x = s.port p in
      either Got (is_empty x.kmessages && not x.closed && not (is_interrupted err)) _ _
        (either Got at_once _ _ (recv_wait-Got fuel s' cpu now p eok safe) safe)
        (recv_take-Got s now p err safe)

  pub recv-Got : (s : Mail) (cpu now p : ℕ) → IsSafe s a v → Got (recv s cpu now p)
  unfolding recv
  recv-Got s cpu now p safe =
      let s1 = (port_get s p).1 in
      either Got (port_get s p).0 _ _
        (recv_wait-Got 2 s1 cpu now p eok (Keeps-IsSafe s s1 a v (port_get-Keeps s p) safe)) safe

  pub recv_resume-Got :
      (s : Mail) (cpu now p : ℕ) (woken : Result)
      → IsSafe s a v
      → Got (recv_resume s cpu now p woken)
  unfolding recv_resume
  recv_resume-Got s cpu now p woken safe = recv_wait-Got 2 s cpu now p woken safe

  received_not_waiting : (k : KmsgState) → k ≡ msg_received → is_waiting k ≡ false
  received_not_waiting k e = ap is_waiting e

  -- A message that is to be answered is on no queue.
  served-queued :
      (s : Mail) (m : ℕ) → IsSafe s a v → v m ≡ true → (p : ℕ) → has (s.port p).kmessages m ≡ false
  served-queued s m safe h p = not_waiting-queued s a v safe m p (ap is_waiting (safe.2 m h).0)

  pub recv_end-IsSafe :
      (s : Mail) (now p m : ℕ) (mapped : Bool)
      → IsSafe s a v
      → v m ≡ true
      → let r = recv_end s now p m mapped in IsSafe r.1 a (answered v m (not (is_eok r.0)))
  unfolding recv_end
  recv_end-IsSafe s now p m mapped safe h =
      let shut = (s.port p).closed in
      either (λ (r : Result × Mail). IsSafe r.1 a (answered v m (not (is_eok r.0))))
        (not mapped || shut) _ _
        (put-IsSafe (wake (set_state s m msg_rejected) now m) now p false (upd v m false)
          (set_state-IsSafe s a v safe m msg_rejected (served-queued s m safe h)))
        (put-IsSafe s now p false v safe)

  pub respond-IsSafe :
      (s : Mail) (now p : ℕ) (out : List ℕ) (m : ℕ)
      → IsSafe s a v
      → v m ≡ true
      → let r = respond s now p out m in IsSafe r.1 a (answered v m (is_eok r.0))
  unfolding respond
  respond-IsSafe s now p out m safe h =
      let s1 = (port_get s p).1 in
      let got1 = Keeps-IsSafe s s1 a v (port_get-Keeps s p) safe in
      either (λ (r : Result × Mail). IsSafe r.1 a (answered v m (is_eok r.0))) (port_get s p).0 _ _
        (put-IsSafe _ now p false (upd v m false)
          (set_state-IsSafe s1 a v got1 m msg_responded (served-queued s1 m got1 h)))
        safe
