-- ===== src/Proc/Threads.antt =====
-- proc/threads.c: the scheduler, wait queues and sleeping. A `thread_t *` is a number, 0 for NULL;
-- the kernel's circular lists are lists in order (Klib.Clist), and the tree of sleeping threads is the
-- list of them in the tree's order (by `wakeup`, then by `id`). A `thread_t **` is a number too, 0 for
-- NULL. Time is a 64-bit word, microseconds and cycles are one (as on riscv64, ia32 and armv7m), and
-- what `hal_getTimer` returns is an argument. Events are not gathered (`perfGather` is 0), and no
-- process has a signal handler (`sighandler` is NULL), so no signal is pushed. Locks are held
-- throughout, and the switch of contexts and address spaces has no part in the state.
mod Tests
pub mod Queue
pub mod Select
pub mod Timeout
pub mod Broadcast
pub mod Schedule
pub mod Asleep
use phoenix_rtos_kernel.Base.{
  ℕ, zero, suc, ◌+◌, ◌-◌, ◌*◌, ◌/◌, ◌%◌, ◌^◌, Bool, true, false, ◌&&◌, ◌||◌, not, List, [], ◌∷◌,
  ◌++◌, ltb, leb, ◌==◌, if◌then◌else◌, length, upd, list_add, list_remove, bit_and, bit_or,
}

pub data State : Type 0 where
  ready sleep : State

-- What `thread_t` holds of interest here. `ret` is the return value that `hal_cpuSetReturnValue` has
-- put into the saved context, as the number of the error; 0 if none was.
pub record Thread : Type 0 where
  pub id : ℕ
  pub priority : ℕ
  pub state : State
  pub exit : Bool
  pub interruptible : Bool
  pub wait : ℕ
  pub wakeup : ℕ
  pub ret : ℕ
  pub ready_time : ℕ
  pub max_wait : ℕ
  pub cpu_time : ℕ
  pub last_time : ℕ

-- The value of a `thread_t *queue`: `(void *)(-1)`, or the list of the threads that wait.
pub data WaitQueue : Type 0 where
  pending : WaitQueue
  waiting : List ℕ → WaitQueue

pub record Common : Type 0 where
  pub thread : ℕ → Thread
  pub ready_at : ℕ → List ℕ
  pub ghosts : List ℕ
  pub queue : ℕ → WaitQueue
  pub sleeping : List ℕ
  pub current : ℕ → ℕ
  pub cpus : ℕ
  pub executions : ℕ

-- `&threads_common.reaper`
abbrev pub reaper : ℕ
reaper = 1

abbrev pub priorities : ℕ
priorities = 8

abbrev pub eintr_code : ℕ
eintr_code = 4

abbrev pub etime_code : ℕ
etime_code = 62

abbrev pub waiters : WaitQueue → List ℕ
waiters pending = []
waiters (waiting ts) = ts

abbrev pub write : Common → ℕ → Thread → Common
write c t v = record c { thread = upd c.thread t v }

-- `_perf_waking` and `_perf_preempted`
perf_ready : Common → ℕ → ℕ → Common
perf_ready c now t = let th = c.thread t in write c t (record th { ready_time = now })

-- `_perf_scheduling`
perf_scheduling : Common → ℕ → ℕ → Common
perf_scheduling c now t =
    let th = c.thread t in
    let wait = (now + 2 ^ 64 - th.ready_time) % 2 ^ 64 in
    write c t (record th { max_wait = if ltb th.max_wait wait then wait else th.max_wait })

-- threads_sleepcmp, as "before"
sleeps_before : Common → ℕ → ℕ → Bool
sleeps_before c t1 t2 =
    let a = c.thread t1 in
    let b = c.thread t2 in ltb a.wakeup b.wakeup || (a.wakeup == b.wakeup && ltb a.id b.id)

-- `lib_rbInsert(&threads_common.sleeping, ...)` of a thread that is not in the tree
insert_sleeping : Common → ℕ → List ℕ → List ℕ
insert_sleeping c t [] = t ∷ []
insert_sleeping c t (s ∷ ss) =
    if sleeps_before c s t then s ∷ insert_sleeping c t ss else t ∷ s ∷ ss

-- Is `t` the current thread of one of the first `n` processors?
pub is_current : ℕ → (ℕ → ℕ) → ℕ → Bool
is_current zero current t = false
is_current (suc n) current t = (t == current n) || is_current n current t

-- LIST_REMOVE(t->wait, t)
abbrev leave_queue : Common → ℕ → ℕ → ℕ → WaitQueue
leave_queue c t q =
    if q == 0 then c.queue else upd c.queue q (waiting (list_remove (waiters (c.queue q)) t))

-- _proc_threadDequeue
pub dequeue : Common → ℕ → ℕ → Common
dequeue c0 now t =
    let c = perf_ready c0 now t in
    let th = c.thread t in
    let woken = record th { wakeup = 0; wait = 0; state = ready; interruptible = false } in
    record c {
      queue = leave_queue c t th.wait;
      sleeping = if th.wakeup == 0 then c.sleeping else list_remove c.sleeping t;
      thread = upd c.thread t woken;
      ready_at =
          if is_current c.cpus c.current t
          then c.ready_at
          else upd c.ready_at th.priority (list_add (c.ready_at th.priority) t);
    }

-- The part of _proc_threadEnqueue behind the test for a pending wakeup; `timeout` is in cycles.
pub enqueue_current : Common → ℕ → ℕ → ℕ → ℕ → Bool → Common
enqueue_current c cpu now q timeout interruptible =
    let t = c.current cpu in
    let th = c.thread t in
    let wakeup = if timeout == 0 then 0 else (now + timeout) % 2 ^ 64 in
    let asleep = record th {
      state = sleep;
      wakeup = wakeup;
      wait = q;
      interruptible = interruptible;
    } in
    let c' = record c {
      queue = upd c.queue q (waiting (list_add (waiters (c.queue q)) t));
      thread = upd c.thread t asleep;
    } in
    if timeout == 0 then c' else record c' { sleeping = insert_sleeping c' t c'.sleeping }

-- _proc_threadEnqueue
pub enqueue : Common → ℕ → ℕ → ℕ → ℕ → Bool → Common
enqueue c cpu now q timeout interruptible = elim (c.queue q) [
  | pending ↦ record c { queue = upd c.queue q (waiting []) }
  | waiting ts ↦ enqueue_current c cpu now q timeout interruptible
]

-- _proc_threadWakeup
pub wakeup_first : Common → ℕ → ℕ → Common
wakeup_first c now q = elim (c.queue q) [
  | pending ↦ c
  | waiting ts ↦ elim ts [ [] ↦ c | t ∷ rest ↦ dequeue c now t ]
]

-- proc_threadWakeup, with its result
pub thread_wakeup : Common → ℕ → ℕ → ℕ × Common
thread_wakeup c now q = elim (waiters (c.queue q)) [
  | [] ↦ (0, record c { queue = upd c.queue q pending })
  | t ∷ rest ↦ (1, wakeup_first c now q)
]

-- The loop of proc_threadBroadcast; every round takes one thread off the queue.
broadcast_loop : ℕ → Common → ℕ → ℕ → ℕ → ℕ × Common
broadcast_loop zero c now q ret = (ret, c)
broadcast_loop (suc fuel) c now q ret = elim (waiters (c.queue q)) [
  | [] ↦ (ret, c)
  | t ∷ rest ↦ broadcast_loop fuel (wakeup_first c now q) now q (ret + 1)
]

-- The loop of threads_timeintr; every round takes one thread off the tree.
timeintr_loop : ℕ → Common → ℕ → Common
timeintr_loop zero c now = c
timeintr_loop (suc fuel) c now = elim c.sleeping [
  | [] ↦ c
  | t ∷ rest ↦
      let c' = dequeue c now t in
      let th = c'.thread t in
      let woken = timeintr_loop fuel (write c' t (record th { ret = etime_code })) now in
      if ltb now (c.thread t).wakeup then c else woken
]

-- proc_threadBroadcast, with the number of threads woken
pub thread_broadcast : Common → ℕ → ℕ → ℕ × Common
unfolding broadcast_loop
thread_broadcast c now q = broadcast_loop (length (waiters (c.queue q))) c now q 0

-- threads_timeintr, on processor 0 (on any other it does nothing)
pub timeintr : Common → ℕ → Common
unfolding timeintr_loop
timeintr c now = timeintr_loop (length c.sleeping) c now

-- _thread_interrupt and _proc_threadExit
pub thread_interrupt : Common → ℕ → ℕ → Common
thread_interrupt c now t =
    let c' = dequeue c now t in let th = c'.thread t in write c' t (record th { ret = eintr_code })

pub thread_exit : Common → ℕ → ℕ → Common
thread_exit c now t =
    let th = c.thread t in
    let c' = write c t (record th { exit = true }) in
    if th.interruptible then thread_interrupt c' now t else c'

-- The first part of threads_schedule: the current thread goes to the end of its queue, if it is ready.
pub requeue_current : Common → ℕ → ℕ → Common
requeue_current c cpu now =
    let t = c.current cpu in
    let c' = record c { executions = (c.executions + 1) % 2 ^ 32; current = upd c.current cpu 0 } in
    let th = c.thread t in
    if t == 0 then c' else elim th.state [
      | sleep ↦ c'
      | ready ↦
          perf_ready
            (record c' {
              ready_at = upd c'.ready_at th.priority (list_add (c'.ready_at th.priority) t);
            })
            now t
    ]

-- The loop that takes the next thread, from priority `i` on; 0 if there is none. Every round goes to
-- the next priority or takes a thread off a list.
pub select : ℕ → Common → ℕ → ℕ → ℕ × Common
select zero c now i = (0, c)
select (suc fuel) c now i = elim (ltb i priorities) [
  | false ↦ (0, c)
  | true ↦ elim (c.ready_at i) [
    | [] ↦ select fuel c now (i + 1)
    | t ∷ rest ↦
        let off = record c { ready_at = upd c.ready_at i rest } in
        elim (c.thread t).exit [
          | false ↦ (t, off)
          | true ↦
              select fuel (wakeup_first (record off { ghosts = list_add off.ghosts t }) now reaper)
                now i
        ]
  ]
]

-- The threads in the lists of the first `n` priorities.
abbrev pub count_ready : ℕ → Common → ℕ
count_ready zero c = 0
count_ready (suc n) c = length (c.ready_at n) + count_ready n c

-- threads_cpuTimeCalc
cpu_time_calc : Common → ℕ → ℕ → ℕ → Common
cpu_time_calc c now current selected =
    let th = c.thread current in
    let spent = (th.cpu_time + (now + 2 ^ 64 - th.last_time)) % 2 ^ 64 in
    let c1 =
      if current == 0
      then c
      else write c current (record th { cpu_time = spent; last_time = now }) in
    let th' = c1.thread selected in
    if (selected == 0) || (current == selected)
    then c1
    else write c1 selected (record th' { last_time = now })

-- What follows the selection.
run_selected : Common → ℕ → ℕ → ℕ → ℕ → Common
run_selected c cpu now current selected =
    let c' =
      if selected == 0
      then c
      else perf_scheduling (record c { current = upd c.current cpu selected }) now selected in
    cpu_time_calc c' now current selected

-- threads_schedule
pub schedule : Common → ℕ → ℕ → Common
schedule c cpu now =
    let c1 = requeue_current c cpu now in
    let fuel = priorities + 1 + count_ready priorities c1 + length (waiters (c1.queue reaper)) in
    let (selected, c2) = select fuel c1 now 0 in run_selected c2 cpu now (c.current cpu) selected

-- proc_threadEnd, up to the call of the scheduler
pub thread_end : Common → ℕ → ℕ → Common
thread_end c cpu now =
    let t = c.current cpu in
    wakeup_first (record c { current = upd c.current cpu 0; ghosts = list_add c.ghosts t }) now
      reaper

-- proc_threadSleep, up to the call of the scheduler; `us` is in cycles
pub thread_sleep : Common → ℕ → ℕ → ℕ → Common
thread_sleep c cpu now us =
    let t = c.current cpu in
    let th = c.thread t in
    let c' =
      write c t (record th {
        state = sleep;
        wait = 0;
        wakeup = (now + us) % 2 ^ 64;
        interruptible = true;
      }) in
    record c' { sleeping = insert_sleeping c' t c'.sleeping }
