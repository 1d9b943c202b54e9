-- ===== src/Proc/Threads/Asleep.antt =====
-- _proc_threadEnqueue and proc_threadWakeup of proc/threads.c for a thread that waits alone.
use phoenix_rtos_kernel.Base.{ℕ, ◌≡◌, ◌≢◌, refl, ◌∙◌, true, false, [], ◌∷◌, ◌==◌, ==_refl, arith}
use phoenix_rtos_kernel.Proc.Threads.{
  sleep, Common, waiting, pending, enqueue, enqueue_current, thread_wakeup,
}
use phoenix_rtos_kernel.Proc.Threads.Queue.{
  IsAwake, dequeue-IsAwake, dequeue-queue, thread_wakeup-head, nobody-wakeup,
}

-- Thread `t` sleeps and is all that waits on the queue.
pub record IsAlone (c : Common) (q t : ℕ) : Type 0 where
  pub queue : c.queue q ≡ waiting (t ∷ [])
  pub state : (c.thread t).state ≡ sleep
  pub wait : (c.thread t).wait ≡ q

enqueue_waits :
    (c : Common) (cpu now q : ℕ)
    → c.queue q ≡ waiting []
    → enqueue c cpu now q 0 true ≡ enqueue_current c cpu now q 0 true
unfolding enqueue
enqueue_waits c cpu now q e = rw (e, enqueue) refl

pub enqueue-IsAlone :
    (c : Common) (cpu now q : ℕ)
    → c.queue q ≡ waiting []
    → IsAlone (enqueue c cpu now q 0 true) q (c.current cpu)
unfolding enqueue_current
enqueue-IsAlone c cpu now q e = rw (enqueue_waits c cpu now q e) (record {
  queue = rw (==_refl q, e) refl;
  state = rw (==_refl (c.current cpu)) refl;
  wait = rw (==_refl (c.current cpu)) refl;
})

pub enqueue-other :
    (c : Common) (cpu now q p : ℕ)
    → c.queue q ≡ waiting []
    → p ≢ q
    → (enqueue c cpu now q 0 true).queue p ≡ c.queue p
unfolding enqueue_current
enqueue-other c cpu now q p e ne =
    let apart : (p == q) ≡ false = ground (arith, ne) in
    rw (enqueue_waits c cpu now q e) (rw apart refl)

-- A wakeup on a queue where nobody waits is kept there, and changes no other.
pub wakeup_kept :
    (c : Common) (now q : ℕ)
    → c.queue q ≡ waiting []
    → ((thread_wakeup c now q).1.queue q ≡ pending)
      × ((p : ℕ) → p ≢ q → (thread_wakeup c now q).1.queue p ≡ c.queue p)
      × ((thread_wakeup c now q).1.current ≡ c.current)
wakeup_kept c now q e = rw (nobody-wakeup c now q (waiting []) e refl) (
  rw (==_refl q) refl,
  λ p ne. (let apart : (p == q) ≡ false = ground (arith, ne) in rw apart refl),
  refl,
)

pub wakeup_alone :
    (c : Common) (now q t : ℕ)
    → IsAlone c q t
    → q ≢ 0
    → ((thread_wakeup c now q).1.queue q ≡ waiting []) × IsAwake (thread_wakeup c now q).1 t
wakeup_alone c now q t a nz =
    rw (thread_wakeup-head c now q t [] a.queue)
      (dequeue-queue c now t q a.wait nz ∙ rw (a.queue, ==_refl t) refl, dequeue-IsAwake c now t)
