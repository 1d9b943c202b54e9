-- ===== src/Proc/Messages/Rpc/Sent.antt =====
-- A message of proc/msg.c that is sent: the port, and the call that sleeps.
use mathlib.Core.Path.{subst}
use phoenix_rtos_kernel.Base.{
  ◌≢◌, false, ℕ, zero, suc, ◌+◌, ◌-◌, ◌≤◌, ◌≡◌, refl, ap, sym, ◌∙◌, Bool, true, false, List, [],
  ◌∷◌, ◌==◌, ==_refl, if◌then◌else◌, list_add, Result, eok, arith,
}
use phoenix_rtos_kernel.Proc.Threads.{Common, waiting, pending, enqueue, thread_wakeup}
use phoenix_rtos_kernel.Proc.Threads.Asleep.{IsAlone, enqueue-IsAlone, enqueue-other, wakeup_kept}
use phoenix_rtos_kernel.Proc.Locks.{Locks, Call, sleeps, thread_wait}
use phoenix_rtos_kernel.Proc.Messages.Rpc.Wakes.{get-sys, send_wait-sleeps}
use phoenix_rtos_kernel.Proc.Messages.{
  Mail, Msg, KmsgState, msg_waiting, is_over, port_get, port_put, send_wait, send_queue, no_threads,
  new_message, from_sender, send, set_port, wake,
}
use phoenix_rtos_kernel.Proc.Messages.Frame.{either}

-- An open port with the queue and at least so many references, and a message
pub record At (s : Mail) (p : ℕ) (ms : List ℕ) (n m : ℕ) (k : KmsgState) (x : Msg) : Type 0 where
  pub listed : (s.port p).listed ≡ true
  pub closed : (s.port p).closed ≡ false
  pub kmessages : (s.port p).kmessages ≡ ms
  pub refs : n ≤ (s.port p).refs
  pub state : s.state m ≡ k
  pub msg : s.msg m ≡ x

module _ (s : Mail) (p : ℕ) (ms : List ℕ) (n m : ℕ) (k : KmsgState) (x : Msg)
    (at : At s p ms n m k x) where
  pub get-open :
      port_get s p ≡ (true, set_port s p (let y = s.port p in record y { refs = y.refs + 1 }))
  unfolding port_get
  get-open = rw at.listed refl

  pub get-At : At (port_get s p).1 p ms (suc n) m k x
  get-At =
      subst (λ r. At r.1 p ms (suc n) m k x) (sym get-open)
        (record {
          listed = rw (==_refl p) at.listed;
          closed = rw (==_refl p) at.closed;
          kmessages = rw (==_refl p) at.kmessages;
          refs = rw (==_refl p) (omega (arith, at.refs));
          state = at.state;
          msg = at.msg;
        })

  put-open :
      (now : ℕ)
      → ((s.port p).refs - 1 == 0) ≡ false
      → port_put s now p false ≡ set_port s p (let y = s.port p in record y { refs = y.refs - 1 })
  unfolding port_put
  put-open now e = rw e refl

  pub put-At : (now l : ℕ) → n ≡ suc (suc l) → At (port_put s now p false) p ms (suc l) m k x
  put-At now l e =
      let enough : suc (suc l) ≤ (s.port p).refs = omega (arith, at.refs) in
      subst (λ r. At r p ms (suc l) m k x) (sym (put-open now (ground arith)))
        (record {
          listed = rw (==_refl p) at.listed;
          closed = rw (==_refl p) at.closed;
          kmessages = rw (==_refl p) at.kmessages;
          refs = rw (==_refl p) (omega arith);
          state = at.state;
          msg = at.msg;
        })

-- The loop of proc_send on a message that is not over: the thread sleeps, and nothing but its queue
-- has changed.
abbrev Waits : Mail → Call × Mail → Type 0
Waits s r = (r.0 ≡ sleeps) × (r.1.port ≡ s.port) × (r.1.state ≡ s.state) × (r.1.msg ≡ s.msg)

send_wait-Waits :
    (fuel : ℕ) (s : Mail) (cpu now p m : ℕ) (err : Result)
    → is_over (s.state m) ≡ false
    → Waits s (send_wait fuel s cpu now p m err)
unfolding send_wait
send_wait-Waits zero s cpu now p m err e = (refl, refl, refl, refl)
send_wait-Waits (suc fuel) s cpu now p m err e =
    let (at_once, l) = thread_wait s.sys cpu now m 0 true in
    let s' : Mail = record s { sys = l } in
    rw e (
      either (Waits s) at_once _ _ (send_wait-Waits fuel s' cpu now p m eok e)
        (refl, refl, refl, refl))

queued : Mail → ℕ → ℕ → Mail
queued s p m = set_port s p (let y = s.port p in record y { kmessages = list_add y.kmessages m })

pub if_true {ℓ} : {A : Type ℓ} (b : Bool) (x y : A) → b ≡ true → (if b then x else y) ≡ x
if_true b x y e = rw e refl

pub if_false {ℓ} : {A : Type ℓ} (b : Bool) (x y : A) → b ≡ false → (if b then x else y) ≡ y
if_false b x y e = rw e refl

send_there :
    (s : Mail) (cpu now p m : ℕ) (x : Msg)
    → (port_get s p).0 ≡ true
    → send s cpu now p m x
      ≡ send_queue (new_message (port_get s p).1 m (from_sender s cpu x)) cpu now p m
unfolding send
send_there s cpu now p m x e = if_true (port_get s p).0 _ _ e

send_queue_open :
    (s : Mail) (cpu now p m : ℕ)
    → (s.port p).closed ≡ false
    → send_queue s cpu now p m ≡ send_wait 2 (wake (queued s p m) now p) cpu now p m eok
unfolding send_queue queued
send_queue_open s cpu now p m e = if_false (s.port p).closed _ _ e

module _ (s : Mail) (p n m : ℕ) (k : KmsgState) (x y : Msg) (at : At s p [] (suc n) m k y) where
  abbrev got_port : Mail
  got_port = (port_get s p).1

  abbrev on_queue : ℕ → Mail
  on_queue now = wake (queued (new_message got_port m x) p m) now p

  on_queue-At : (now : ℕ) → At (on_queue now) p (m ∷ []) (suc (suc n)) m msg_waiting x
  unfolding queued
  on_queue-At now =
      let a = get-At s p [] (suc n) m k y at in
      record {
        listed = rw (==_refl p) a.listed;
        closed = rw (==_refl p) a.closed;
        kmessages = rw (==_refl p) (rw a.kmessages refl);
        refs = rw (==_refl p) a.refs;
        state = rw (==_refl m) refl;
        msg = rw (==_refl m) refl;
      }

  sent_way :
      (cpu now : ℕ) (z : Msg)
      → from_sender s cpu z ≡ x
      → send s cpu now p m z ≡ send_wait 2 (on_queue now) cpu now p m eok
  sent_way cpu now z e =
      let a = get-At s p [] (suc n) m k y at in
      let there : (port_get s p).0 ≡ true =
        ap (λ (r : Bool × Mail). r.0) (get-open s p [] (suc n) m k y at) in
      send_there s cpu now p m z there
      ∙ ap (λ (w : Msg). send_queue (new_message got_port m w) cpu now p m) e
      ∙ send_queue_open (new_message got_port m x) cpu now p m a.closed

  -- Nobody waits at the port: the wakeup is kept there, and the sender waits for its message.
  pub sent-IsAlone :
      (cpu now : ℕ) (z : Msg)
      → from_sender s cpu z ≡ x
      → s.sys.common.queue p ≡ waiting []
      → p ≢ m
      → let c = (send s cpu now p m z).1.sys.common in
        (c.queue p ≡ pending) × IsAlone c m (s.sys.common.current cpu)
  unfolding queued
  sent-IsAlone cpu now z e nobody ne =
      let c1 : Common = (no_threads got_port.sys m).common in
      let apart : (p == m) ≡ false = ground (arith, ne) in
      let same : got_port.sys ≡ s.sys = get-sys s p in
      let kept =
        wakeup_kept c1 now p (rw apart (ap (λ (l : Locks). l.common.queue p) same ∙ nobody)) in
      let c2 : Common = (thread_wakeup c1 now p).1 in
      let fresh : c2.queue m ≡ waiting [] = kept.1 m (λ h. ne (sym h)) ∙ rw (==_refl m) refl in
      let current : c2.current cpu ≡ s.sys.common.current cpu =
        ap (λ (f : ℕ → ℕ). f cpu) kept.2 ∙ ap (λ (l : Locks). l.common.current cpu) same in
      let state = (on_queue-At now).state in
      subst (λ (c : Common). (c.queue p ≡ pending) × IsAlone c m (s.sys.common.current cpu))
        (sym (
          ap (λ (r : Call × Mail). r.1.sys.common) (sent_way cpu now z e)
          ∙ send_wait-sleeps 1 (on_queue now) cpu now p m eok (ap is_over state) fresh))
        (
          enqueue-other c2 cpu now m p fresh ne ∙ kept.0,
          subst (IsAlone (enqueue c2 cpu now m 0 true) m) current
              (enqueue-IsAlone c2 cpu now m fresh),
        )

  pub sent-At :
      (cpu now : ℕ) (z : Msg)
      → from_sender s cpu z ≡ x
      → ((send s cpu now p m z).0 ≡ sleeps)
        × At (send s cpu now p m z).1 p (m ∷ []) (suc (suc n)) m msg_waiting x
  sent-At cpu now z e =
      let q = on_queue-At now in
      let (sl, po, st, me) =
        send_wait-Waits 2 (on_queue now) cpu now p m eok (ap is_over q.state) in
      subst (λ (r : Call × Mail). (r.0 ≡ sleeps) × At r.1 p (m ∷ []) (suc (suc n)) m msg_waiting x)
        (sym (sent_way cpu now z e))
        (
          sl,
          record {
            listed = rw po q.listed;
            closed = rw po q.closed;
            kmessages = rw po q.kmessages;
            refs = rw po q.refs;
            state = rw st q.state;
            msg = rw me q.msg;
          },
        )
