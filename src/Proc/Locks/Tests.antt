-- ===== src/Proc/Locks/Tests.antt =====
-- The locks of proc/threads.c on concrete inputs.
use phoenix_rtos_kernel.Base.{refl, false, true, [], ◌==◌, if◌then◌else◌}
use phoenix_rtos_kernel.Proc.Threads.{Common, ready, waiting, pending}
use phoenix_rtos_kernel.Proc.Locks.{Locks, lock_init, lock_try, lock_set}
use phoenix_rtos_kernel.Proc.Locks.Wait.{lock_set_lem, Slept}

-- The thread 3 runs; a wakeup is kept on the queue of the lock 12.
abbrev common : Common
common = record {
  thread = λ t. record {
    id = t;
    priority = 2;
    state = ready;
    exit = false;
    interruptible = false;
    wait = 0;
    wakeup = 0;
    ret = 0;
    ready_time = 0;
    max_wait = 0;
    cpu_time = 0;
    last_time = 0;
  };
  ready_at = λ i. [];
  ghosts = [];
  queue = λ q. if q == 12 then pending else waiting [];
  sleeping = [];
  current = λ cpu. 3;
  cpus = 1;
  executions = 0;
}

abbrev locks : Locks
locks = record { common = common; v = λ l. 0 }

lock_set_lem_example : Slept locks 0 12 (lock_set locks 0 100 12 true)
lock_set_lem_example = lock_set_lem locks 0 100 12 true refl

abbrev taken : Locks
taken = (lock_try (lock_init locks 12) 12).1
