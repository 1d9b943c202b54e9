-- ===== src/Proc/Threads/Queue.antt =====
-- The wait queues of proc/threads.c: enqueueing and waking up.
use mathlib.Core.Path.{}
use phoenix_rtos_kernel.Base.{
  ℕ, ◌+◌, ◌%◌, ◌^◌, ◌≡◌, ◌≢◌, refl, ap, ◌∙◌, Bool, false, List, [], ◌∷◌, ◌==◌, if◌then◌else◌, upd,
  list_add, list_remove, arith, Bool-cases, inl, inr, ==_refl,
}
use phoenix_rtos_kernel.Proc.Threads.{
  ready, sleep, Common, WaitQueue, pending, waiting, waiters, is_current, dequeue, enqueue,
  enqueue_current, wakeup_first, thread_wakeup, perf_ready,
}

-- `t` is awake: nothing holds it back from being run.
pub record IsAwake (c : Common) (t : ℕ) : Type 0 where
  pub state : (c.thread t).state ≡ ready
  pub wait : (c.thread t).wait ≡ 0
  pub wakeup : (c.thread t).wakeup ≡ 0

pub dequeue-IsAwake : (c : Common) (now t : ℕ) → IsAwake (dequeue c now t) t
unfolding dequeue perf_ready
dequeue-IsAwake c now t = record {
  state = rw ==_refl refl;
  wait = rw ==_refl refl;
  wakeup = rw ==_refl refl;
}

pub dequeue-other : (c : Common) (now t u : ℕ) → u ≢ t → (dequeue c now t).thread u ≡ c.thread u
unfolding dequeue perf_ready
dequeue-other c now t u h = let other : (u == t) ≡ false = ground arith in rw other

pub dequeue-queue :
    (c : Common) (now t q : ℕ)
    → (c.thread t).wait ≡ q
    → q ≢ 0
    → (dequeue c now t).queue q ≡ waiting (list_remove (waiters (c.queue q)) t)
unfolding dequeue perf_ready
dequeue-queue c now t q e nz =
    let some_queue : (q == 0) ≡ false = ground arith in rw (==_refl t, e, some_queue, ==_refl q)

dequeue-ready :
    (c : Common) (now t : ℕ)
    → is_current c.cpus c.current t ≡ false
    → (dequeue c now t).ready_at (c.thread t).priority
      ≡ list_add (c.ready_at (c.thread t).priority) t
unfolding dequeue perf_ready
dequeue-ready c now t e = rw (==_refl t, e, ==_refl (c.thread t).priority)

pub wakeup_first-head :
    (c : Common) (now q t : ℕ) (ts : List ℕ)
    → c.queue q ≡ waiting (t ∷ ts)
    → wakeup_first c now q ≡ dequeue c now t
unfolding wakeup_first
wakeup_first-head c now q t ts e = rw (e, wakeup_first)

pub thread_wakeup-head :
    (c : Common) (now q t : ℕ) (ts : List ℕ)
    → c.queue q ≡ waiting (t ∷ ts)
    → thread_wakeup c now q ≡ (1, dequeue c now t)
unfolding thread_wakeup
thread_wakeup-head c now q t ts e =
    rw (e, thread_wakeup) (ap (λ c'. (1, c')) (wakeup_first-head c now q t ts e))

-- `proc_threadWakeup` on a queue where threads wait takes the one that has waited longest: it is
-- awake, and, unless it still runs, it stands at the end of the ready list of its priority; the
-- others go on waiting in order.
pub thread_wakeup_lem :
    (c : Common) (now q t : ℕ) (ts : List ℕ)
    → c.queue q ≡ waiting (t ∷ ts)
    → (c.thread t).wait ≡ q
    → q ≢ 0
    → is_current c.cpus c.current t ≡ false
    → let (woken, c') = thread_wakeup c now q in
      (woken ≡ 1)
      × (c'.queue q ≡ waiting ts)
      × IsAwake c' t
      × (c'.ready_at (c.thread t).priority ≡ list_add (c.ready_at (c.thread t).priority) t)
thread_wakeup_lem c now q t ts e w nz off = rw (thread_wakeup-head c now q t ts e) (
  refl,
  dequeue-queue c now t q w nz ∙ rw (e, ==_refl t) refl,
  dequeue-IsAwake c now t,
  dequeue-ready c now t off,
)

pub nobody-wakeup :
    (c : Common) (now q : ℕ) (w : WaitQueue)
    → c.queue q ≡ w
    → waiters w ≡ []
    → (thread_wakeup c now q).1 ≡ record c { queue = upd c.queue q pending }
unfolding thread_wakeup
nobody-wakeup c now q pending e h = rw (e, thread_wakeup)
nobody-wakeup c now q (waiting []) e h = rw (e, thread_wakeup)
nobody-wakeup c now q (waiting (t ∷ ts)) e h = cc

pub pending_enqueue :
    (c : Common) (cpu now q timeout : ℕ) (interruptible : Bool)
    → c.queue q ≡ pending
    → enqueue c cpu now q timeout interruptible ≡ record c { queue = upd c.queue q (waiting []) }
unfolding enqueue
pending_enqueue c cpu now q timeout interruptible e = rw (e, enqueue)

-- A wakeup that finds nobody is not lost: the next thread that waits on the queue goes on at once,
-- with no change but that the wakeup is used up.
pub wakeup-enqueue :
    (c : Common) (now now' q cpu timeout : ℕ) (interruptible : Bool)
    → waiters (c.queue q) ≡ []
    → let c' = enqueue (thread_wakeup c now q).1 cpu now' q timeout interruptible in
      (c'.queue q ≡ waiting [])
      × (c'.thread ≡ c.thread)
      × (c'.ready_at ≡ c.ready_at)
      × (c'.sleeping ≡ c.sleeping)
      × (c'.current ≡ c.current)
wakeup-enqueue c now now' q cpu timeout interruptible e =
    rw (nobody-wakeup c now q (c.queue q) refl e) (
      rw
        (pending_enqueue (record c { queue = upd c.queue q pending }) cpu now' q timeout
          interruptible (rw ==_refl refl))
        (rw ==_refl refl, refl, refl, refl, refl))

enqueue_current_lem :
    (c : Common) (cpu now q timeout : ℕ) (interruptible : Bool)
    → let c' = enqueue_current c cpu now q timeout interruptible in
      let t = c.current cpu in
      (c'.queue q ≡ waiting (list_add (waiters (c.queue q)) t))
      × ((c'.thread t).state ≡ sleep)
      × ((c'.thread t).wait ≡ q)
      × ((c'.thread t).interruptible ≡ interruptible)
      × ((c'.thread t).wakeup ≡ (if timeout == 0 then 0 else (now + timeout) % 2 ^ 64))
unfolding enqueue_current
enqueue_current_lem c cpu now q timeout interruptible = elim (Bool-cases (timeout == 0)) [
  | inl e ↦ rw (e, ==_refl q, ==_refl (c.current cpu)) (refl, refl, refl, refl, refl)
  | inr e ↦ rw (e, ==_refl q, ==_refl (c.current cpu)) (refl, refl, refl, refl, refl)
]

-- Without a kept wakeup, `_proc_threadEnqueue` puts the current thread to sleep at the end of the
-- queue, with the time at which it wakes up by itself if it has a timeout.
pub enqueue_lem :
    (c : Common) (cpu now q timeout : ℕ) (interruptible : Bool) (ts : List ℕ)
    → c.queue q ≡ waiting ts
    → let c' = enqueue c cpu now q timeout interruptible in
      let t = c.current cpu in
      (c'.queue q ≡ waiting (list_add ts t))
      × ((c'.thread t).state ≡ sleep)
      × ((c'.thread t).wait ≡ q)
      × ((c'.thread t).interruptible ≡ interruptible)
      × ((c'.thread t).wakeup ≡ (if timeout == 0 then 0 else (now + timeout) % 2 ^ 64))
unfolding enqueue
enqueue_lem c cpu now q timeout interruptible ts e =
    let l = enqueue_current_lem c cpu now q timeout interruptible in
    rw (e, enqueue)
      (l.0 ∙ ap (λ w. waiting (list_add (waiters w) (c.current cpu))) e, l.1, l.2, l.3, l.4)
