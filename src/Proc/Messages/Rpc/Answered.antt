-- ===== src/Proc/Messages/Rpc/Answered.antt =====
-- A message of proc/msg.c that is received and answered.
use mathlib.Core.Path.{subst}
use phoenix_rtos_kernel.Base.{
  ℕ, suc, ◌-◌, ◌≡◌, refl, ap, sym, ◌∙◌, Bool, true, false, not, ◌&&◌, List, [], ◌∷◌, ◌==◌, ==_refl,
  upd, Result, eok, einval, is_empty,
}
use phoenix_rtos_kernel.Proc.Threads.{thread_wakeup}
use phoenix_rtos_kernel.Proc.Threads.Queue.{}
use phoenix_rtos_kernel.Proc.Threads.Asleep.{}
use phoenix_rtos_kernel.Proc.Messages.Rpc.Wakes.{get-sys, put-sys}
use phoenix_rtos_kernel.Proc.Locks.{Locks, returns}
use phoenix_rtos_kernel.Proc.Messages.{
  Mail, Msg, msg_waiting, msg_received, msg_responded, is_over, is_interrupted, port_get, port_put,
  send_end, send_wait, send_resume, Received, gives_up, got, recv_take, recv_wait, recv, recv_end,
  respond, set_state, unqueue, wake,
}
use phoenix_rtos_kernel.Proc.Messages.Frame.{either}
use phoenix_rtos_kernel.Proc.Messages.Rpc.Sent.{At, get-open, get-At, put-At, if_true, if_false}

recv_there :
    (s : Mail) (cpu now p : ℕ)
    → (port_get s p).0 ≡ true
    → recv s cpu now p ≡ recv_wait 2 (port_get s p).1 cpu now p eok
unfolding recv
recv_there s cpu now p e = if_true (port_get s p).0 _ _ e

recv_wait_first :
    (fuel : ℕ) (s : Mail) (cpu now p m : ℕ) (ms : List ℕ)
    → (s.port p).kmessages ≡ m ∷ ms
    → recv_wait (suc fuel) s cpu now p eok ≡ recv_take s now p eok
unfolding recv_wait
recv_wait_first fuel s cpu now p m ms e =
    if_false (is_empty (s.port p).kmessages && not (s.port p).closed && not (is_interrupted eok)) _
      _ (rw e refl)

recv_take_first :
    (s : Mail) (now p m : ℕ) (ms : List ℕ)
    → (s.port p).closed ≡ false
    → (s.port p).kmessages ≡ m ∷ ms
    → recv_take s now p eok ≡ (got m, set_state (unqueue s p m) m msg_received)
unfolding recv_take
recv_take_first s now p m ms c e =
    if_false (s.port p).closed _ _ c
    ∙ ap
        (λ xs. elim xs as (λ x. Received × Mail) [
          | [] ↦ (gives_up einval, s)
          | m' ∷ ms' ↦ (got m', set_state (unqueue s p m') m' msg_received)
        ])
        e

module _ (s : Mail) (p n m : ℕ) (x : Msg) where
  pub received-At :
      (cpu now : ℕ)
      → At s p (m ∷ []) (suc n) m msg_waiting x
      → ((recv s cpu now p).0 ≡ got m) × At (recv s cpu now p).1 p [] (suc (suc n)) m msg_received x
  received-At cpu now at =
      let a = get-At s p (m ∷ []) (suc n) m msg_waiting x at in
      let there : (port_get s p).0 ≡ true =
        ap (λ (r : Bool × Mail). r.0) (get-open s p (m ∷ []) (suc n) m msg_waiting x at) in
      let s1 = (port_get s p).1 in
      let way =
        recv_there s cpu now p there
        ∙ recv_wait_first 1 s1 cpu now p m [] a.kmessages
        ∙ recv_take_first s1 now p m [] a.closed a.kmessages in
      subst (λ (r : Received × Mail). (r.0 ≡ got m) × At r.1 p [] (suc (suc n)) m msg_received x)
        (sym way)
        (
          refl,
          record {
            listed = rw (==_refl p) a.listed;
            closed = rw (==_refl p) a.closed;
            kmessages = rw (==_refl p) (rw a.kmessages (rw (==_refl m) refl));
            refs = rw (==_refl p) a.refs;
            state = rw (==_refl m) refl;
            msg = a.msg;
          },
        )

  pub recv_end_open :
      (now : ℕ)
      → At s p [] (suc (suc n)) m msg_received x
      → ((recv_end s now p m true).0 ≡ eok)
        × At (recv_end s now p m true).1 p [] (suc n) m msg_received x
  unfolding recv_end
  recv_end_open now at =
      rw at.closed (refl, put-At s p [] (suc (suc n)) m msg_received x at now n refl)

  abbrev pub with_output : List ℕ → Msg
  with_output out = record x { output = out }

  -- What proc_respond leaves, in a state where the port has its reference
  answered_mail : List ℕ → Mail
  answered_mail out =
      let s1 = (port_get s p).1 in
      let y = s1.msg m in
      record s1 {
        msg = upd s1.msg m (record y { output = out });
        state = upd s1.state m msg_responded;
      }

  respond_there :
      (now : ℕ) (out : List ℕ)
      → (port_get s p).0 ≡ true
      → respond s now p out m ≡ (eok, port_put (wake (answered_mail out) now m) now p false)
  unfolding respond answered_mail
  respond_there now out e = if_true (port_get s p).0 _ _ e

  answered-At :
      (out : List ℕ)
      → At s p [] (suc n) m msg_received x
      → At (answered_mail out) p [] (suc (suc n)) m msg_responded (with_output out)
  unfolding answered_mail
  answered-At out at =
      let a = get-At s p [] (suc n) m msg_received x at in
      record {
        listed = a.listed;
        closed = a.closed;
        kmessages = a.kmessages;
        refs = a.refs;
        state = rw (==_refl m) refl;
        msg = rw (==_refl m) (ap (λ (y : Msg). record y { output = out }) a.msg);
      }

  pub respond-At :
      (now : ℕ) (out : List ℕ)
      → At s p [] (suc n) m msg_received x
      → ((respond s now p out m).0 ≡ eok)
        × At (respond s now p out m).1 p [] (suc n) m msg_responded (with_output out)
  respond-At now out at =
      let there : (port_get s p).0 ≡ true =
        ap (λ (r : Bool × Mail). r.0) (get-open s p [] (suc n) m msg_received x at) in
      let a = answered-At out at in
      let woken = wake (answered_mail out) now m in
      let b : At woken p [] (suc (suc n)) m msg_responded (with_output out) = record {
        listed = a.listed;
        closed = a.closed;
        kmessages = a.kmessages;
        refs = a.refs;
        state = a.state;
        msg = a.msg;
      } in
      subst
        (λ (r : Result × Mail). (r.0 ≡ eok) × At r.1 p [] (suc n) m msg_responded (with_output out))
        (sym (respond_there now out there))
        (refl, put-At woken p [] (suc (suc n)) m msg_responded (with_output out) b now n refl)

  pub recv-sys :
      (cpu now : ℕ) → At s p (m ∷ []) (suc n) m msg_waiting x → (recv s cpu now p).1.sys ≡ s.sys
  recv-sys cpu now at =
      let a = get-At s p (m ∷ []) (suc n) m msg_waiting x at in
      let there : (port_get s p).0 ≡ true =
        ap (λ (r : Bool × Mail). r.0) (get-open s p (m ∷ []) (suc n) m msg_waiting x at) in
      let s1 = (port_get s p).1 in
      ap (λ (r : Received × Mail). r.1.sys)
        (recv_there s cpu now p there
          ∙ recv_wait_first 1 s1 cpu now p m [] a.kmessages
          ∙ recv_take_first s1 now p m [] a.closed a.kmessages)
      ∙ get-sys s p

  pub recv_end-sys :
      (now : ℕ) → At s p [] (suc (suc n)) m msg_received x → (recv_end s now p m true).1.sys ≡ s.sys
  unfolding recv_end
  recv_end-sys now at = rw at.closed (put-sys s now p)

  pub respond-wakes :
      (now : ℕ) (out : List ℕ)
      → At s p [] (suc n) m msg_received x
      → (respond s now p out m).1.sys.common ≡ (thread_wakeup s.sys.common now m).1
  unfolding answered_mail
  respond-wakes now out at =
      let there : (port_get s p).0 ≡ true =
        ap (λ (r : Bool × Mail). r.0) (get-open s p [] (suc n) m msg_received x at) in
      ap (λ (r : Result × Mail). r.1.sys.common) (respond_there now out there)
      ∙ ap (λ (l : Locks). l.common) (put-sys (wake (answered_mail out) now m) now p)
      ∙ ap (λ (l : Locks). (thread_wakeup l.common now m).1) (get-sys s p)

  put_msg : (now : ℕ) → (port_put s now p false).msg ≡ s.msg
  unfolding port_put
  put_msg now =
      let y = s.port p in
      either (λ (r : Mail). r.msg ≡ s.msg) (y.refs - 1 == 0) _ _
        (either (λ (r : Mail). r.msg ≡ s.msg) y.owned _ _ refl refl) refl

  pub answers : ℕ → Mail
  answers now =
      let s1 = port_put s now p false in record s1 { reply = upd s1.reply m (s1.msg m).output }

  pub send_end-answers :
      (now : ℕ) → s.state m ≡ msg_responded → send_end s now p m eok ≡ (returns eok, answers now)
  unfolding send_end answers
  send_end-answers now e = rw (e, send_end) (rw e refl)

  pub answers-reply : (now : ℕ) → s.msg m ≡ x → (answers now).reply m ≡ x.output
  unfolding answers
  answers-reply now e =
      rw (==_refl m)
        (ap (λ (f : ℕ → Msg). (f m).output) (put_msg now) ∙ ap (λ (y : Msg). y.output) e)

  pub woken_responded :
      (cpu now : ℕ)
      → s.state m ≡ msg_responded
      → send_resume s cpu now p m eok ≡ send_end s now p m eok
  unfolding send_resume send_wait
  woken_responded cpu now e = if_true (is_over (s.state m)) _ _ (ap is_over e)
