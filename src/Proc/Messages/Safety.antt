-- ===== src/Proc/Messages/Safety.antt =====
-- Messages of proc/msg.c over all sequences of calls.
use phoenix_rtos_kernel.Base.{
  ℕ, ◌≡◌, inl, inr, Bool, true, false, not, List, [], Option, none, some, ◌==◌, Bool-cases, Result,
  has,
}
use mathlib.Core.Bool.{false≢true}
use phoenix_rtos_kernel.Proc.Messages.{
  Mail, Msg, msg_waiting, msg_received, port_put, port_create, send, send_resume, recv, recv_resume,
  recv_end, respond,
}
use phoenix_rtos_kernel.Proc.Messages.Frame.{Keeps, either, port_put-Keeps}
use phoenix_rtos_kernel.Proc.Messages.Calls.{IsSafe, Keeps-IsSafe, is_some}
use phoenix_rtos_kernel.Proc.Messages.Send.{sender, send-Sent, send_resume-Sent}
use phoenix_rtos_kernel.Proc.Messages.Receive.{
  server, answered, is_eok, recv-Got, recv_resume-Got, recv_end-IsSafe, respond-IsSafe,
}

-- What messages can come to, from a state without any, by the calls of senders, receivers and owners
-- of ports in any order. `a m` is the port that the call with the `kmsg_t` of number `m` sends to, until
-- it returns, and `v m` says that a receiver has the message and has not answered it. A `kmsg_t` stands
-- on the stack of its call, so a new call has one that no other call has; a thread goes on in the call
-- in which it slept; and a receiver answers messages that it has got. Other calls leave queues and
-- states as they are.
pub data Reaches : Mail → (ℕ → Option ℕ) → (ℕ → Bool) → Type 0 where
  starts : (s : Mail) → ((p : ℕ) → (s.port p).kmessages ≡ []) → Reaches s (λ m. none) (λ m. false)
  sends :
      (s : Mail) (a : ℕ → Option ℕ) (v : ℕ → Bool) (cpu now p m : ℕ) (x : Msg)
      → Reaches s a v
      → a m ≡ none
      → Reaches (send s cpu now p m x).1 (sender a m p (send s cpu now p m x).0) v
  sender_wakes :
      (s : Mail) (a : ℕ → Option ℕ) (v : ℕ → Bool) (cpu now p m : ℕ) (woken : Result)
      → Reaches s a v
      → a m ≡ some p
      → Reaches
          (send_resume s cpu now p m woken).1
          (sender a m p (send_resume s cpu now p m woken).0)
          v
  receives :
      (s : Mail) (a : ℕ → Option ℕ) (v : ℕ → Bool) (cpu now p : ℕ)
      → Reaches s a v
      → Reaches (recv s cpu now p).1 a (server v (recv s cpu now p).0)
  receiver_wakes :
      (s : Mail) (a : ℕ → Option ℕ) (v : ℕ → Bool) (cpu now p : ℕ) (woken : Result)
      → Reaches s a v
      → Reaches (recv_resume s cpu now p woken).1 a (server v (recv_resume s cpu now p woken).0)
  ends :
      (s : Mail) (a : ℕ → Option ℕ) (v : ℕ → Bool) (now p m : ℕ) (mapped : Bool)
      → Reaches s a v
      → v m ≡ true
      → Reaches
          (recv_end s now p m mapped).1
          a
          (answered v m (not (is_eok (recv_end s now p m mapped).0)))
  responds :
      (s : Mail) (a : ℕ → Option ℕ) (v : ℕ → Bool) (now p : ℕ) (out : List ℕ) (m : ℕ)
      → Reaches s a v
      → v m ≡ true
      → Reaches (respond s now p out m).1 a (answered v m (is_eok (respond s now p out m).0))
  puts :
      (s : Mail) (a : ℕ → Option ℕ) (v : ℕ → Bool) (now p : ℕ) (destroy : Bool)
      → Reaches s a v
      → Reaches (port_put s now p destroy) a v
  creates :
      (s : Mail) (a : ℕ → Option ℕ) (v : ℕ → Bool) (mem : Bool) (id : Option ℕ) (process : ℕ)
      → Reaches s a v
      → Reaches (port_create s mem id process).1 a v
  others :
      (s s' : Mail) (a : ℕ → Option ℕ) (v : ℕ → Bool) → Reaches s a v → Keeps s s' → Reaches s' a v

-- A new port has no messages.
create-IsSafe :
    (s : Mail) (a : ℕ → Option ℕ) (v : ℕ → Bool) (mem : Bool) (id : Option ℕ) (process : ℕ)
    → IsSafe s a v
    → IsSafe (port_create s mem id process).1 a v
unfolding port_create
create-IsSafe s a v mem none process safe = safe
create-IsSafe s a v mem (some i) process safe =
    either (λ (r : Result × Mail). IsSafe r.1 a v) mem _ _
      (
        λ p m h. (elim (Bool-cases (p == i)) [
          | inl e ↦ absurd (false≢true (rw e at h))
          | inr e ↦ safe.0 p m (rw e at h)
        ]),
        λ p. (elim (Bool-cases (p == i)) [ inl e ↦ rw e tt | inr e ↦ rw e (safe.1 p) ]),
        safe.2,
      )
      safe

Reaches-IsSafe : {s : Mail} {a : ℕ → Option ℕ} {v : ℕ → Bool} → Reaches s a v → IsSafe s a v
Reaches-IsSafe (starts s e) =
    (λ p m h. absurd (false≢true (rw (e p) at h)), λ p. rw (e p) tt, λ m h. absurd (false≢true h))
Reaches-IsSafe (sends s a v cpu now p m x r n) = send-Sent a v m p s cpu now x (Reaches-IsSafe r) n
Reaches-IsSafe (sender_wakes s a v cpu now p m woken r n) =
    send_resume-Sent a v m p s cpu now woken (Reaches-IsSafe r) n
Reaches-IsSafe (receives s a v cpu now p r) = recv-Got a v s cpu now p (Reaches-IsSafe r)
Reaches-IsSafe (receiver_wakes s a v cpu now p woken r) =
    recv_resume-Got a v s cpu now p woken (Reaches-IsSafe r)
Reaches-IsSafe (ends s a v now p m mapped r h) =
    recv_end-IsSafe a v s now p m mapped (Reaches-IsSafe r) h
Reaches-IsSafe (responds s a v now p out m r h) =
    respond-IsSafe a v s now p out m (Reaches-IsSafe r) h
Reaches-IsSafe (puts s a v now p destroy r) =
    Keeps-IsSafe s (port_put s now p destroy) a v (port_put-Keeps s now p destroy)
      (Reaches-IsSafe r)
Reaches-IsSafe (creates s a v mem id process r) =
    create-IsSafe s a v mem id process (Reaches-IsSafe r)
Reaches-IsSafe (others s s' a v r k) = Keeps-IsSafe s s' a v k (Reaches-IsSafe r)

-- After any sequence of calls in which receivers answer only messages that they have got and not yet
-- answered, a message on the queue of a port is waiting, and the call of proc_send
-- whose stack it stands on has not returned and sends to this port; and a message that a receiver has
-- got and not answered is received, and its sender has not returned.
pub messages_safe :
    (s : Mail) (a : ℕ → Option ℕ) (v : ℕ → Bool)
    → Reaches s a v
    → ((p m : ℕ) → has (s.port p).kmessages m ≡ true → (s.state m ≡ msg_waiting) × (a m ≡ some p))
      × ((m : ℕ) → v m ≡ true → (s.state m ≡ msg_received) × (is_some (a m) ≡ true))
messages_safe s a v r = let (q, d, g) = Reaches-IsSafe r in (q, g)
