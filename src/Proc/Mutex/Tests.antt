-- ===== src/Proc/Mutex/Tests.antt =====
-- proc/mutex.c on concrete inputs.
use phoenix_rtos_kernel.Base.{◌≡◌, refl, false, [], ◌∷◌, arith, enomem}
use phoenix_rtos_kernel.Proc.Threads.{ready, waiting}
use phoenix_rtos_kernel.Proc.Locks.{}
use phoenix_rtos_kernel.Proc.Resource.{rt_lock, find}
use phoenix_rtos_kernel.Proc.Resource.Find.{}
use phoenix_rtos_kernel.Proc.Mutex.{Kernel, refused, mutex_create}
use phoenix_rtos_kernel.Proc.Mutex.Handles.{IsHandle, mutex_create-no_id}

-- The thread 3 runs; its process has the mutex 20 with the handle 1, which is held.
abbrev kernel : Kernel
kernel = record {
  table = record {
    resources = 20 ∷ [];
    resource = λ r. record { refs = 1; kind = rt_lock; id = 1 };
    cond = λ r. 0;
    freed = [];
  };
  locks = record {
    common = record {
      thread = λ t. record {
        id = t;
        priority = 2;
        state = ready;
        exit = false;
        interruptible = false;
        wait = 0;
        wakeup = 0;
        ret = 0;
        ready_time = 0;
        max_wait = 0;
        cpu_time = 0;
        last_time = 0;
      };
      ready_at = λ i. [];
      ghosts = [];
      queue = λ q. waiting [];
      sleeping = [];
      current = λ cpu. 3;
      cpus = 1;
      executions = 0;
    };
    v = λ l. 0;
  };
}

kernel-IsHandle : IsHandle kernel 1 20
kernel-IsHandle = record {
  there = refl;
  object = omega arith;
  kind = refl;
  used = omega arith;
  room = omega arith;
}

mutex_create-no_id_example :
    let (result, k') = mutex_create kernel 40 0 in
    (result ≡ refused enomem)
    × (k'.table.freed ≡ 40 ∷ [])
    × (find k'.table.resource k'.table.resources 0 ≡ 40)
mutex_create-no_id_example =
    mutex_create-no_id kernel 40 (omega arith) (omega arith, omega arith, tt)
