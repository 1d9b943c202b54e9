-- ===== src/Proc/Locks.antt =====
-- The locks of proc/threads.c. A `lock_t *` is a number, and `&lock->queue` is the queue of the same
-- number. The kernel has started (`hal_started()` holds). A function that reschedules ends at that
-- point: what it does when its thread runs again is a function of its own, from the return value that
-- the scheduler left for the thread.
mod Tests
pub mod Wait
pub mod Holder
use phoenix_rtos_kernel.Base.{
  ℕ, zero, suc, ◌+◌, ◌≡◌, Bool, true, false, List, [], ◌∷◌, ◌==◌, if◌then◌else◌, upd, Result, eok,
  fails, ebusy, eintr, is_empty,
}
use phoenix_rtos_kernel.Proc.Threads.{
  Common, WaitQueue, pending, waiting, waiters, enqueue, thread_wakeup,
}

-- `v l` is `l->v`.
pub record Locks : Type 0 where
  pub common : Common
  pub v : ℕ → ℕ

-- A call has returned, or its thread has gone to sleep in it.
pub data Call : Type 0 where
  returns : Result → Call
  sleeps : Call

-- proc_lockInit
unfoldable pub lock_init : Locks → ℕ → Locks
lock_init s l = record s {
  common = (let c = s.common in record c { queue = upd c.queue l (waiting []) });
  v = upd s.v l 1;
}

-- proc_lockTry
unfoldable pub lock_try : Locks → ℕ → Result × Locks
lock_try s l = (if s.v l == 0 then fails ebusy else eok, record s { v = upd s.v l 0 })

-- _proc_lockClear, with its result: does proc_lockClear reschedule?
pub lock_clear : Locks → ℕ → ℕ → ℕ × Locks
lock_clear s now l =
    let s1 = record s { v = upd s.v l 1 } in
    elim (waiters (s1.common.queue l)) [
      | [] ↦ (0, s1)
      | t ∷ ts ↦ (1, record s1 { common = (thread_wakeup s1.common now l).1 })
    ]

-- proc_threadWaitEx: puts the current thread on a queue and reschedules, unless a wakeup was kept.
unfoldable pub thread_wait : Locks → ℕ → ℕ → ℕ → ℕ → Bool → Bool × Locks
thread_wait s cpu now q timeout interruptible =
    let c = enqueue s.common cpu now q timeout interruptible in
    (is_empty (waiters (c.queue q)), record s { common = c })

-- The loop of _proc_lockSet, up to the point where the thread sleeps. At most one wakeup is kept, so
-- the second round sleeps.
lock_rounds : ℕ → Locks → ℕ → ℕ → ℕ → Bool → Call × Locks
lock_rounds zero s cpu now l interruptible = (sleeps, s)
lock_rounds (suc fuel) s cpu now l interruptible =
    let (at_once, s') = thread_wait s cpu now l 0 interruptible in
    let again = lock_rounds fuel s' cpu now l interruptible in
    if s.v l == 0
    then (if at_once then again else (sleeps, s'))
    else (returns eok, record s { v = upd s.v l 0 })

-- _proc_lockSet
pub lock_set : Locks → ℕ → ℕ → ℕ → Bool → Call × Locks
unfolding lock_rounds
lock_set s cpu now l interruptible = lock_rounds 2 s cpu now l interruptible

abbrev interrupted : Result → Bool
interrupted eok = false
interrupted (fails eintr) = true
interrupted (fails _) = false

-- _proc_lockSet, once the thread that slept in it runs again with the return value `woken`.
pub lock_resume : Locks → ℕ → ℕ → ℕ → Bool → Result → Call × Locks
lock_resume s cpu now l interruptible woken =
    if interrupted woken then (returns (fails eintr), s) else lock_set s cpu now l interruptible

-- proc_lockWait, up to the point where the thread sleeps; without a sleep it takes the lock back.
pub lock_wait : Locks → ℕ → ℕ → ℕ → ℕ → ℕ → Call × Locks
unfolding lock_clear
lock_wait s cpu now q l timeout =
    let s1 = (lock_clear s now l).1 in
    let (at_once, s2) = thread_wait s1 cpu now q timeout true in
    if at_once then lock_set s2 cpu now l false else (sleeps, s2)

abbrev returning : Result → Call × Locks → Call × Locks
returning r (returns e, s) = (returns r, s)
returning r (sleeps, s) = (sleeps, s)

-- proc_lockWait, once its thread runs again; unless interrupted it takes the lock back, and returns
-- `woken` in the end.
pub lock_wait_resume : Locks → ℕ → ℕ → ℕ → Result → Call × Locks
lock_wait_resume s cpu now l woken =
    if interrupted woken
    then (returns (fails eintr), s)
    else returning woken (lock_set s cpu now l false)
