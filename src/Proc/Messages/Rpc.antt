-- ===== src/Proc/Messages/Rpc.antt =====
-- A message of proc/msg.c from its sender to a receiver, and the answer back.
pub mod Sent
pub mod Wakes
pub mod Answered
use mathlib.Core.Path.{subst}
use phoenix_rtos_kernel.Base.{
  ◌≢◌, ℕ, zero, suc, ◌+◌, ◌-◌, ◌≤◌, ◌≡◌, refl, ap, sym, ◌∙◌, Bool, true, false, not, ◌&&◌, List, [],
  ◌∷◌, ◌==◌, ==_refl, if◌then◌else◌, upd, list_add, Result, eok, einval, arith, is_empty,
}
use phoenix_rtos_kernel.Proc.Threads.{Common, waiting, pending, thread_wakeup}
use phoenix_rtos_kernel.Proc.Threads.Queue.{IsAwake}
use phoenix_rtos_kernel.Proc.Threads.Asleep.{IsAlone, wakeup_alone}
use phoenix_rtos_kernel.Proc.Messages.Rpc.Wakes.{get-sys, put-sys}
use phoenix_rtos_kernel.Proc.Locks.{Locks, Call, returns, sleeps, thread_wait}
use phoenix_rtos_kernel.Proc.Messages.{
  Mail, Msg, KmsgState, msg_waiting, msg_received, msg_responded, is_over, is_interrupted, port_get,
  port_put, send_end, send_wait, send_queue, new_message, from_sender, send, send_resume, Received,
  gives_up, got, recv_take, recv_wait, recv, recv_end, respond, set_port, set_state, unqueue, wake,
}
use phoenix_rtos_kernel.Proc.Messages.Frame.{either}
use phoenix_rtos_kernel.Proc.Messages.Rpc.Answered.{
  received-At, recv_end_open, respond-At, with_output, recv-sys, recv_end-sys, respond-wakes,
  woken_responded, send_end-answers, answers-reply,
}
use phoenix_rtos_kernel.Proc.Messages.Rpc.Sent.{
  At, get-open, get-At, put-At, if_true, if_false, sent-At, sent-IsAlone,
}

-- A message is sent to an open port that has no other and is not going away, and where nobody waits:
-- its sender sleeps and waits for the message alone, and a wakeup is kept for the next receiver. A
-- receiver gets this message, with the process and the priority of the sender in it; meanwhile the
-- sender goes on waiting. Once the receiver has mapped its data and has answered it, the sender is
-- ready and waits no longer, and when it runs it returns EOK with the output of the answer.
pub send-respond :
    (s : Mail) (p n m : ℕ) (k : KmsgState) (x y : Msg) (cpu now cpu' now' : ℕ) (out : List ℕ)
    → At s p [] (suc n) m k y
    → s.sys.common.queue p ≡ waiting []
    → p ≢ m
    → m ≢ 0
    → let t = s.sys.common.current cpu in
      let sent = send s cpu now p m x in
      let received = recv sent.1 cpu' now' p in
      let ended = recv_end received.1 now' p m true in
      let answer = respond ended.1 now' p out m in
      let back = send_resume answer.1 cpu now p m eok in
      (sent.0 ≡ sleeps)
      × (sent.1.sys.common.queue p ≡ pending)
      × IsAlone sent.1.sys.common m t
      × (received.0 ≡ got m)
      × (received.1.msg m
          ≡ record x { pid = s.process t; priority = (s.sys.common.thread t).priority })
      × (ended.0 ≡ eok)
      × IsAlone ended.1.sys.common m t
      × (answer.0 ≡ eok)
      × IsAwake answer.1.sys.common t
      × (back.0 ≡ returns eok)
      × (back.1.reply m ≡ out)
send-respond s p n m k x y cpu now cpu' now' out at nobody ne nz =
    let t = s.sys.common.current cpu in
    let z = from_sender s cpu x in
    let (e1, a1) = sent-At s p n m k z y at cpu now x refl in
    let (kept, alone1) = sent-IsAlone s p n m k z y at cpu now x refl nobody ne in
    let s1 = (send s cpu now p m x).1 in
    let (e2, a2) = received-At s1 p (suc n) m z cpu' now' a1 in
    let s2 = (recv s1 cpu' now' p).1 in
    let (e3, a3) = recv_end_open s2 p (suc n) m z now' a2 in
    let s3 = (recv_end s2 now' p m true).1 in
    let same : s3.sys ≡ s1.sys =
      recv_end-sys s2 p (suc n) m z now' a2 ∙ recv-sys s1 p (suc n) m z cpu' now' a1 in
    let alone3 : IsAlone s3.sys.common m t =
      subst (λ (l : Locks). IsAlone l.common m t) (sym same) alone1 in
    let (e4, a4) = respond-At s3 p (suc n) m z now' out a3 in
    let s4 = (respond s3 now' p out m).1 in
    let z' = with_output s3 p n m z out in
    let way =
      woken_responded s4 p n m z' cpu now a4.state ∙ send_end-answers s4 p n m z' now a4.state in
    (
      e1,
      kept,
      alone1,
      e2,
      a2.msg,
      e3,
      alone3,
      e4,
      subst (λ (c : Common). IsAwake c t) (sym (respond-wakes s3 p (suc n) m z now' out a3))
          (wakeup_alone s3.sys.common now' m t alone3 nz).1,
      ap (λ (r : Call × Mail). r.0) way,
      ap (λ (r : Call × Mail). r.1.reply m) way ∙ answers-reply s4 p n m z' now a4.msg,
    )
