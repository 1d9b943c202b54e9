-- ===== src/Proc/Messages/Tests.antt =====
-- Messages of proc/msg.c at a concrete state.
use phoenix_rtos_kernel.Base.{ℕ, ◌≡◌, refl, true, false, [], ◌∷◌, none, some, eok, arith, has}
use phoenix_rtos_kernel.Proc.Threads.{Thread, Common, ready, waiting, pending}
use phoenix_rtos_kernel.Proc.Threads.Queue.{IsAwake}
use phoenix_rtos_kernel.Proc.Threads.Asleep.{IsAlone}
use phoenix_rtos_kernel.Proc.Locks.{returns, sleeps}
use phoenix_rtos_kernel.Proc.Messages.{
  Mail, Port, Msg, msg_waiting, msg_received, got, send, send_resume, recv, recv_end, respond,
}
use phoenix_rtos_kernel.Proc.Messages.Calls.{is_some}
use phoenix_rtos_kernel.Proc.Messages.Send.{sender}
use phoenix_rtos_kernel.Proc.Messages.Safety.{starts, sends, messages_safe}
use phoenix_rtos_kernel.Proc.Messages.Rpc.{send-respond}

abbrev a_thread : Thread
a_thread = record {
  id = 7;
  priority = 4;
  state = ready;
  exit = false;
  interruptible = false;
  wait = 0;
  wakeup = 0;
  ret = 0;
  ready_time = 0;
  max_wait = 0;
  cpu_time = 0;
  last_time = 0;
}

abbrev system : Common
system = record {
  thread = λ t. a_thread;
  ready_at = λ p. [];
  ghosts = [];
  queue = λ q. waiting [];
  sleeping = [];
  current = λ c. 5;
  cpus = 1;
  executions = 0;
}

abbrev a_port : Port
a_port = record { kmessages = []; refs = 1; closed = false; listed = true; owner = 1; owned = true }

abbrev hello : Msg
hello = record { pid = 9; priority = 0; input = 1 ∷ 2 ∷ []; output = [] }

abbrev mail : Mail
mail = record {
  sys = record { common = system; v = λ l. 1 };
  port = λ p. a_port;
  ports = λ o. 30 ∷ [];
  process = λ t. 1;
  state = λ m. msg_received;
  msg = λ m. hello;
  reply = λ m. [];
}

messages_safe_example :
    ((p m : ℕ)
      → has ((send mail 0 100 30 40 hello).1.port p).kmessages m ≡ true
      → ((send mail 0 100 30 40 hello).1.state m ≡ msg_waiting)
        × (sender (λ k. none) 40 30 (send mail 0 100 30 40 hello).0 m ≡ some p))
    × ((m : ℕ)
        → false ≡ true
        → ((send mail 0 100 30 40 hello).1.state m ≡ msg_received)
          × (is_some (sender (λ k. none) 40 30 (send mail 0 100 30 40 hello).0 m) ≡ true))
messages_safe_example =
    messages_safe (send mail 0 100 30 40 hello).1
      (sender (λ k. none) 40 30 (send mail 0 100 30 40 hello).0) (λ m. false)
      (sends mail (λ k. none) (λ m. false) 0 100 30 40 hello (starts mail (λ p. refl)) refl)

send-respond_example :
    let sent = send mail 0 100 30 40 hello in
    let received = recv sent.1 1 120 30 in
    let ended = recv_end received.1 120 30 40 true in
    let answer = respond ended.1 120 30 (9 ∷ []) 40 in
    let back = send_resume answer.1 0 100 30 40 eok in
    (sent.0 ≡ sleeps)
    × (sent.1.sys.common.queue 30 ≡ pending)
    × IsAlone sent.1.sys.common 40 5
    × (received.0 ≡ got 40)
    × (received.1.msg 40 ≡ record hello { pid = 1; priority = 4 })
    × (ended.0 ≡ eok)
    × IsAlone ended.1.sys.common 40 5
    × (answer.0 ≡ eok)
    × IsAwake answer.1.sys.common 5
    × (back.0 ≡ returns eok)
    × (back.1.reply 40 ≡ 9 ∷ [])
send-respond_example =
    send-respond mail 30 0 40 msg_received hello hello 0 100 1 120 (9 ∷ [])
      (record {
        listed = refl;
        closed = refl;
        kmessages = refl;
        refs = omega arith;
        state = refl;
        msg = refl;
      })
      refl (λ e. omega (arith, e)) (λ e. omega (arith, e))
