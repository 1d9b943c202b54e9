-- ===== src/Proc/Messages/Send.antt =====
-- proc_send of proc/msg.c keeps the invariant of the messages.
use phoenix_rtos_kernel.Base.{
  ℕ, zero, suc, ◌≡◌, refl, ap, sym, ◌∙◌, inl, inr, Bool, true, false, not, ◌&&◌, Option, none, some,
  ◌==◌, ==_refl, if◌then◌else◌, Bool-cases, upd, list_add, Result, eok, fails, einval, arith,
}
use mathlib.Core.Path.{}
use mathlib.Core.Bool.{true≢false, false≢true}
use phoenix_rtos_kernel.Proc.Locks.{Call, returns, sleeps, thread_wait}
use phoenix_rtos_kernel.Proc.Messages.{
  Mail, Msg, KmsgState, msg_waiting, msg_received, msg_rejected, msg_responded, is_over, is_ok,
  is_waiting, is_responded, is_rejected, port_get, port_put, send_end, send_wait, new_message,
  send_queue, from_sender, send, send_resume, set_port, unqueue, wake,
}
use phoenix_rtos_kernel.Proc.Messages.Frame.{either, either_eq, port_get-Keeps, send_end-Keeps}
use phoenix_rtos_kernel.Proc.Messages.Calls.{
  IsSafe, Keeps-IsSafe, is_received, gone-IsSafe, no_call-queued, not_waiting-queued,
  not_received-served, unqueue-IsSafe, unqueue-queued,
}
use phoenix_rtos_kernel.Proc.Messages.Queues.{new_message-IsSafe, queue-IsSafe, no_call-served}

-- The calls that have not returned, after proc_send of a message
abbrev pub sender : (ℕ → Option ℕ) → ℕ → ℕ → Call → ℕ → Option ℕ
sender a m p (returns r) = upd a m none
sender a m p sleeps = upd a m (some p)

abbrev is_end : Call → Bool
is_end (returns r) = true
is_end sleeps = false

ending-returns :
    (s : Mail) (now p m : ℕ) (r : Result)
    → is_end
        (elim r as (λ x. Call × Mail) [
          | fails e ↦ (returns (fails e), port_put s now p false)
          | eok ↦ (
            returns (if is_rejected (s.state m) then fails einval else eok),
            (let s1 = port_put s now p false in
                record s1 { reply = upd s1.reply m (s1.msg m).output }),
          )
        ]).0
      ≡ true
ending-returns s now p m eok = refl
ending-returns s now p m (fails e) = refl

send_end-returns :
    (s : Mail) (now p m : ℕ) (err : Result) → is_end (send_end s now p m err).0 ≡ true
unfolding send_end
send_end-returns s now p m err =
    ending-returns s now p m (if is_responded (s.state m) then eok else err)

module _ (a : ℕ → Option ℕ) (v : ℕ → Bool) (m p : ℕ) where
  abbrev pub Sent : Call × Mail → Type 0
  Sent r = IsSafe r.1 (sender a m p r.0) v

  returned : (c : Call) (s : Mail) → is_end c ≡ true → IsSafe s (upd a m none) v → Sent (c, s)
  returned (returns r) s e safe = safe
  returned sleeps s e safe = absurd (false≢true e)

  slept : (c : Call) (s : Mail) → is_end c ≡ false → IsSafe s (upd a m (some p)) v → Sent (c, s)
  slept (returns r) s e safe = absurd (true≢false e)
  slept sleeps s e safe = safe

  send_end-Sent :
      (s : Mail) (now : ℕ) (err : Result)
      → IsSafe s (upd a m none) v
      → Sent (send_end s now p m err)
  send_end-Sent s now err safe =
      returned (send_end s now p m err).0 (send_end s now p m err).1
        (send_end-returns s now p m err)
        (Keeps-IsSafe s (send_end s now p m err).1 (upd a m none) v (send_end-Keeps s now p m err)
          safe)

  over_not_waiting : (k : KmsgState) → is_over k ≡ true → is_waiting k ≡ false
  over_not_waiting msg_responded e = refl
  over_not_waiting msg_rejected e = refl
  over_not_waiting msg_received e = absurd (false≢true e)
  over_not_waiting msg_waiting e = absurd (false≢true e)

  over_not_received : (k : KmsgState) → is_over k ≡ true → is_received k ≡ false
  over_not_received msg_responded e = refl
  over_not_received msg_rejected e = refl
  over_not_received msg_received e = absurd (false≢true e)
  over_not_received msg_waiting e = absurd (false≢true e)

  waiting_not_received : (k : KmsgState) → is_waiting k ≡ true → is_received k ≡ false
  waiting_not_received msg_waiting e = refl
  waiting_not_received msg_responded e = absurd (false≢true e)
  waiting_not_received msg_rejected e = absurd (false≢true e)
  waiting_not_received msg_received e = absurd (false≢true e)

  and_right : (b c : Bool) → (b && c) ≡ true → c ≡ true
  and_right true c e = e
  and_right false c e = absurd (false≢true e)

  -- A message that is over is on no queue and not to be answered.
  over-gone : (s : Mail) → IsSafe s a v → is_over (s.state m) ≡ true → IsSafe s (upd a m none) v
  over-gone s safe e =
      gone-IsSafe s a v safe m
        (λ q. not_waiting-queued s a v safe m q (over_not_waiting (s.state m) e))
        (not_received-served s a v safe m (over_not_received (s.state m) e))

  -- The loop of proc_send, on a message of a call
  send_wait-Sent :
      (fuel : ℕ) (s : Mail) (cpu now : ℕ) (err : Result)
      → IsSafe s (upd a m (some p)) v
      → (is_over (s.state m) ≡ true → IsSafe s (upd a m none) v)
      → Sent (send_wait fuel s cpu now p m err)
  unfolding send_wait
  send_wait-Sent zero s cpu now err safe over = safe
  send_wait-Sent (suc fuel) s cpu now err safe over =
      let (at_once, l) = thread_wait s.sys cpu now m 0 true in
      let s' : Mail = record s { sys = l } in
      either_eq Sent (is_over (s.state m)) _ _ (λ e. send_end-Sent s now err (over e))
        (λ e. either Sent at_once _ _ (send_wait-Sent fuel s' cpu now eok safe over) safe)

  send_queue-Sent :
      (s : Mail) (cpu now : ℕ)
      → IsSafe s a v
      → a m ≡ none
      → s.state m ≡ msg_waiting
      → Sent (send_queue s cpu now p m)
  unfolding send_queue
  send_queue-Sent s cpu now safe e w =
      let x = s.port p in
      let queued = set_port s p (record x { kmessages = list_add x.kmessages m }) in
      either Sent x.closed _ _
        (send_end-Sent s now (fails einval) (
          gone-IsSafe s a v safe m (λ q. no_call-queued s a v safe m q e)
            (no_call-served s a v safe m e)))
        (send_wait-Sent 2 (wake queued now p) cpu now eok (queue-IsSafe s a v safe p m e w)
          (λ o. absurd (false≢true (ap is_over (sym w) ∙ o))))

  pub send-Sent :
      (s : Mail) (cpu now : ℕ) (x : Msg) → IsSafe s a v → a m ≡ none → Sent (send s cpu now p m x)
  unfolding send
  send-Sent s cpu now x safe e =
      let s1 = (port_get s p).1 in
      let got = Keeps-IsSafe s s1 a v (port_get-Keeps s p) safe in
      either Sent (port_get s p).0 _ _
        (send_queue-Sent (new_message s1 m (from_sender s cpu x)) cpu now
          (new_message-IsSafe s1 a v got m (from_sender s cpu x) e) e (rw (==_refl m) refl))
        (gone-IsSafe s a v safe m (λ q. no_call-queued s a v safe m q e)
          (no_call-served s a v safe m e))

  -- A call that is known stays known.
  still : (s : Mail) → IsSafe s a v → a m ≡ some p → IsSafe s (upd a m (some p)) v
  still s (q, d, r) e = (
    λ j k h. (elim (Bool-cases (k == m)) [
      | inl f ↦
          let i : k ≡ m = ground arith in ((q j k h).0, rw f (sym e ∙ ap a (sym i) ∙ (q j k h).1))
      | inr f ↦ rw f (q j k h)
    ]),
    d,
    λ k h. (elim (Bool-cases (k == m)) [ inl f ↦ ((r k h).0, rw f refl) | inr f ↦ rw f (r k h) ]),
  )

  pub send_resume-Sent :
      (s : Mail) (cpu now : ℕ) (woken : Result)
      → IsSafe s a v
      → a m ≡ some p
      → Sent (send_resume s cpu now p m woken)
  unfolding send_resume
  send_resume-Sent s cpu now woken safe e =
      either_eq Sent (not (is_ok woken) && is_waiting (s.state m)) _ _
        (λ w. send_end-Sent (unqueue s p m) now woken (
          gone-IsSafe (unqueue s p m) a v (unqueue-IsSafe s a v safe p m) m
            (unqueue-queued s a v safe p m e)
            (not_received-served s a v safe m (
              waiting_not_received (s.state m)
                (and_right (not (is_ok woken)) (is_waiting (s.state m)) w)))))
        (λ w. send_wait-Sent 2 s cpu now woken (still s safe e) (over-gone s safe))
