-- ===== src/Proc/Messages.antt =====
-- proc/msg.c and the references of proc/ports.c: sending, receiving and answering messages. A port
-- stands for its id, and the tree of ports says which are listed; a `kmsg_t *` is a number. The queue
-- `threads` of a message or of a port has the number of it. A call that sleeps is split where it
-- sleeps, and a receiver where it has left the spinlock to map the data, whose outcome is an argument.
-- The bytes of a message are lists; packing, mapping and shadow pages are not modelled.
mod Tests
pub mod Frame
pub mod Calls
pub mod Queues
pub mod Send
pub mod Receive
pub mod Safety
pub mod Rpc
use phoenix_rtos_kernel.Base.{
  ℕ, zero, suc, ◌+◌, ◌-◌, Bool, true, false, ◌&&◌, ◌||◌, not, List, [], ◌∷◌, Option, none, some,
  ◌==◌, if◌then◌else◌, upd, list_add, list_remove, is_empty, Result, eok, fails, Error, einval,
  enomem, eintr,
}
use phoenix_rtos_kernel.Proc.Threads.{Common, thread_wakeup, thread_broadcast, waiting}
use phoenix_rtos_kernel.Proc.Locks.{Locks, Call, returns, sleeps, thread_wait}

pub data KmsgState : Type 0 where
  msg_rejected msg_waiting msg_received msg_responded : KmsgState

pub record Msg : Type 0 where
  pub pid : ℕ
  pub priority : ℕ
  pub input : List ℕ
  pub output : List ℕ

-- `owned` says that `next` is not NULL: the port is in the list of its owner.
pub record Port : Type 0 where
  pub kmessages : List ℕ
  pub refs : ℕ
  pub closed : Bool
  pub listed : Bool
  pub owner : ℕ
  pub owned : Bool

-- `process` is the id of the process of a thread, 0 if it has none; `state` and `msg` are those of the `kmsg_t`; `reply` is the output in the caller's own message.
pub record Mail : Type 0 where
  pub sys : Locks
  pub port : ℕ → Port
  pub ports : ℕ → List ℕ
  pub process : ℕ → ℕ
  pub state : ℕ → KmsgState
  pub msg : ℕ → Msg
  pub reply : ℕ → List ℕ

abbrev pub set_port : Mail → ℕ → Port → Mail
set_port s p x = record s { port = upd s.port p x }

abbrev pub set_state : Mail → ℕ → KmsgState → Mail
set_state s m k = record s { state = upd s.state m k }

abbrev pub with_common : Mail → Common → Mail
with_common s c = record s { sys = (let l = s.sys in record l { common = c }) }

-- `proc_threadWakeup(&...->threads)`
abbrev pub wake : Mail → ℕ → ℕ → Mail
wake s now q = with_common s (thread_wakeup s.sys.common now q).1

-- `LIST_REMOVE(&p->kmessages, kmsg)`
abbrev pub unqueue : Mail → ℕ → ℕ → Mail
unqueue s p m =
    (let x = s.port p in set_port s p (record x { kmessages = list_remove x.kmessages m }))

-- proc_portGet: is there such a port? It gets a reference.
pub port_get : Mail → ℕ → Bool × Mail
port_get s p =
    let x = s.port p in
    if x.listed then (true, set_port s p (record x { refs = x.refs + 1 })) else (false, s)

-- port_put, with the whole port freed at the end
pub port_put : Mail → ℕ → ℕ → Bool → Mail
port_put s now p destroy =
    let x = s.port p in
    let left = x.refs - 1 in
    let shut = if destroy then true else x.closed in
    let s1 = set_port s p (record x { refs = left; closed = shut }) in
    let gone = set_port s p (record x { refs = left; closed = shut; listed = false }) in
    if left == 0
    then (if x.owned
        then record gone { ports = upd s.ports x.owner (list_remove (s.ports x.owner) p) }
        else gone)
    else (if destroy then with_common s1 (thread_broadcast s.sys.common now p).1 else s1)

-- `threads = NULL` of a new message or port
abbrev pub no_threads : Locks → ℕ → Locks
no_threads l q = record l {
  common = (let c = l.common in record c { queue = upd c.queue q (waiting []) });
}

-- proc_portCreate by a process, with the id that _proc_portAlloc has found, if any; `mem` says whether
-- there is memory. The second lib_rbInsert finds the port in the tree.
pub port_create : Mail → Bool → Option ℕ → ℕ → Result × Mail
port_create s mem none process = (fails (if mem then einval else enomem), s)
port_create s mem (some id) process =
    let new : Port = record {
      kmessages = [];
      refs = 1;
      closed = false;
      listed = true;
      owner = process;
      owned = true;
    } in
    if mem
    then (
      eok,
      record s {
        sys = no_threads s.sys id;
        port = upd s.port id new;
        ports = upd s.ports process (list_add (s.ports process) id);
      },
    )
    else (fails enomem, s)

abbrev pub is_over : KmsgState → Bool
is_over msg_responded = true
is_over msg_rejected = true
is_over _ = false

abbrev pub is_responded : KmsgState → Bool
is_responded msg_responded = true
is_responded _ = false

abbrev pub is_rejected : KmsgState → Bool
is_rejected msg_rejected = true
is_rejected _ = false

abbrev pub is_waiting : KmsgState → Bool
is_waiting msg_waiting = true
is_waiting _ = false

abbrev pub is_ok : Result → Bool
is_ok eok = true
is_ok (fails e) = false

abbrev pub is_interrupted : Result → Bool
is_interrupted (fails eintr) = true
is_interrupted _ = false

-- The end of proc_send, where the message is not waited for any longer.
pub send_end : Mail → ℕ → ℕ → ℕ → Result → Call × Mail
send_end s now p m err =
    let s1 = port_put s now p false in
    elim (if is_responded (s.state m) then eok else err) [
      | fails e ↦ (returns (fails e), s1)
      | eok ↦ (
        returns (if is_rejected (s.state m) then fails einval else eok),
        record s1 { reply = upd s1.reply m (s1.msg m).output },
      )
    ]

-- The loop of proc_send up to where the thread sleeps. At most one wakeup is kept, so the second round
-- sleeps or ends.
pub send_wait : ℕ → Mail → ℕ → ℕ → ℕ → ℕ → Result → Call × Mail
unfolding send_end
send_wait zero s cpu now p m err = (sleeps, s)
send_wait (suc fuel) s cpu now p m err =
    let (at_once, l) = thread_wait s.sys cpu now m 0 true in
    let s' = record s { sys = l } in
    let rest = send_wait fuel s' cpu now p m eok in
    if is_over (s.state m) then send_end s now p m err else if at_once then rest else (sleeps, s')

-- The new `kmsg_t` of proc_send
abbrev pub new_message : Mail → ℕ → Msg → Mail
new_message s m x = record s {
  sys = no_threads s.sys m;
  state = upd s.state m msg_waiting;
  msg = upd s.msg m x;
}

-- The message of the current thread, with the process and the priority that the kernel puts into it
abbrev pub from_sender : Mail → ℕ → Msg → Msg
from_sender s cpu x =
    let t = s.sys.common.current cpu in
    record x { pid = s.process t; priority = (s.sys.common.thread t).priority }

-- The part of proc_send behind the new message
pub send_queue : Mail → ℕ → ℕ → ℕ → ℕ → Call × Mail
unfolding send_wait
send_queue s cpu now p m =
    let x = s.port p in
    let queued = set_port s p (record x { kmessages = list_add x.kmessages m }) in
    if x.closed
    then send_end s now p m (fails einval)
    else send_wait 2 (wake queued now p) cpu now p m eok

-- proc_send of the message `x` in the `kmsg_t` with the number `m`
pub send : Mail → ℕ → ℕ → ℕ → ℕ → Msg → Call × Mail
unfolding send_queue
send s cpu now p m x =
    let (there, s1) = port_get s p in
    if there
    then send_queue (new_message s1 m (from_sender s cpu x)) cpu now p m
    else (returns (fails einval), s)

-- proc_send, once its thread runs again with the return value `woken`
pub send_resume : Mail → ℕ → ℕ → ℕ → ℕ → Result → Call × Mail
unfolding send_wait
send_resume s cpu now p m woken =
    if not (is_ok woken) && is_waiting (s.state m)
    then send_end (unqueue s p m) now p m woken
    else send_wait 2 s cpu now p m woken

-- What proc_recv has come to: an error, a sleep, or a message whose data is to be mapped next.
pub data Received : Type 0 where
  gives_up : Error → Received
  receiver_sleeps : Received
  got : ℕ → Received

-- The first message of a closed port is rejected.
abbrev pub reject_first : Mail → ℕ → ℕ → List ℕ → Mail
reject_first s now p [] = s
reject_first s now p (m ∷ ms) = wake (unqueue (set_state s m msg_rejected) p m) now m

-- proc_recv behind its loop. Without an error, an open port has a message there.
pub recv_take : Mail → ℕ → ℕ → Result → Received × Mail
recv_take s now p err =
    let x = s.port p in
    if x.closed
    then (gives_up einval, port_put (reject_first s now p x.kmessages) now p false)
    else elim err [
      | fails e ↦ (gives_up e, port_put s now p false)
      | eok ↦ elim x.kmessages [
        | [] ↦ (gives_up einval, s)
        | m ∷ ms ↦ (got m, set_state (unqueue s p m) m msg_received)
      ]
    ]

-- The loop of proc_recv up to where the thread sleeps
pub recv_wait : ℕ → Mail → ℕ → ℕ → ℕ → Result → Received × Mail
unfolding recv_take
recv_wait zero s cpu now p err = (receiver_sleeps, s)
recv_wait (suc fuel) s cpu now p err =
    let x = s.port p in
    let (at_once, l) = thread_wait s.sys cpu now p 0 true in
    let s' = record s { sys = l } in
    let rest = recv_wait fuel s' cpu now p eok in
    if is_empty x.kmessages && not x.closed && not (is_interrupted err)
    then (if at_once then rest else (receiver_sleeps, s'))
    else recv_take s now p err

-- proc_recv, and once its thread runs again
pub recv : Mail → ℕ → ℕ → ℕ → Received × Mail
unfolding recv_wait
recv s cpu now p =
    let (there, s1) = port_get s p in
    if there then recv_wait 2 s1 cpu now p eok else (gives_up einval, s)

pub recv_resume : Mail → ℕ → ℕ → ℕ → Result → Received × Mail
unfolding recv_wait
recv_resume s cpu now p woken = recv_wait 2 s cpu now p woken

-- The end of proc_recv, once the data of the message is mapped, or not; the receiver has a copy of
-- the message on EOK.
pub recv_end : Mail → ℕ → ℕ → ℕ → Bool → Result × Mail
recv_end s now p m mapped =
    let shut = (s.port p).closed in
    if not mapped || shut
    then (
      fails (if shut then einval else enomem),
      port_put (wake (set_state s m msg_rejected) now m) now p false,
    )
    else (eok, port_put s now p false)

-- proc_respond
pub respond : Mail → ℕ → ℕ → List ℕ → ℕ → Result × Mail
respond s now p out m =
    let (there, s1) = port_get s p in
    let x = s1.msg m in
    let answered = record s1 {
      msg = upd s1.msg m (record x { output = out });
      state = upd s1.state m msg_responded;
    } in
    if there then (eok, port_put (wake answered now m) now p false) else (fails einval, s)
