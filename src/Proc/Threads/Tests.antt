-- ===== src/Proc/Threads/Tests.antt =====
-- proc/threads.c on concrete inputs.
use phoenix_rtos_kernel.Base.{
  All, ◌≡◌, ◌⊎◌, refl, true, false, [], ◌∷◌, arith, ltb, ◌==◌, if◌then◌else◌,
}
use phoenix_rtos_kernel.Proc.Threads.{
  ready, sleep, Common, waiting, is_current, thread_wakeup, timeintr, enqueue, schedule,
}
use phoenix_rtos_kernel.Proc.Threads.Queue.{IsAwake, thread_wakeup_lem, wakeup-enqueue}
use phoenix_rtos_kernel.Proc.Threads.Broadcast.{}
use phoenix_rtos_kernel.Proc.Threads.Timeout.{Woken, timeintr_lem}
use phoenix_rtos_kernel.Proc.Threads.Schedule.{schedule-alive}

-- Of one processor's threads, 3 runs, 5 and 6 wait on the queue 9, and 4 is ready. All have the
-- priority 2.
abbrev common : Common
common = record {
  thread = λ t. record {
    id = t;
    priority = 2;
    state = if ltb t 5 then ready else sleep;
    exit = false;
    interruptible = false;
    wait = if ltb t 5 then 0 else 9;
    wakeup = 0;
    ret = 0;
    ready_time = 0;
    max_wait = 0;
    cpu_time = 0;
    last_time = 0;
  };
  ready_at = λ i. if i == 2 then 4 ∷ [] else [];
  ghosts = [];
  queue = λ q. if q == 9 then waiting (5 ∷ 6 ∷ []) else waiting [];
  sleeping = [];
  current = λ cpu. 3;
  cpus = 1;
  executions = 0;
}

common-off : is_current 1 common.current 5 ≡ false
unfolding is_current
common-off = refl

thread_wakeup_lem_example :
    let (woken, c') = thread_wakeup common 100 9 in
    (woken ≡ 1) × (c'.queue 9 ≡ waiting (6 ∷ [])) × IsAwake c' 5 × (c'.ready_at 2 ≡ 4 ∷ 5 ∷ [])
thread_wakeup_lem_example =
    thread_wakeup_lem common 100 9 5 (6 ∷ []) refl refl (omega arith) common-off

wakeup-enqueue_example :
    let c' = enqueue (thread_wakeup common 100 8).1 0 110 8 0 false in
    (c'.queue 8 ≡ waiting [])
    × (c'.thread ≡ common.thread)
    × (c'.ready_at ≡ common.ready_at)
    × (c'.sleeping ≡ common.sleeping)
    × (c'.current ≡ common.current)
wakeup-enqueue_example = wakeup-enqueue common 100 110 8 0 0 false refl

schedule-alive_example :
    let t = (schedule common 0 100).current 0 in (t ≡ 0) ⊎ ((common.thread t).exit ≡ false)
schedule-alive_example = schedule-alive common 0 100

-- The threads 5, 6 and 7 sleep until 50, 60 and 700.
abbrev sleepers : Common
sleepers = record common {
  thread = (λ t. record {
    id = t;
    priority = 2;
    state = sleep;
    exit = false;
    interruptible = true;
    wait = 0;
    wakeup = if t == 5 then 50 else if t == 6 then 60 else 700;
    ret = 0;
    ready_time = 0;
    max_wait = 0;
    cpu_time = 0;
    last_time = 0;
  });
  sleeping = 5 ∷ 6 ∷ 7 ∷ [];
}

timeintr_lem_example :
    ((timeintr sleepers 100).sleeping ≡ 7 ∷ []) × All (Woken (timeintr sleepers 100)) (5 ∷ 6 ∷ [])
timeintr_lem_example =
    timeintr_lem sleepers 100 (omega arith, refl, (omega arith, refl, (omega arith, refl, tt)))
