-- ===== src/Proc/Mutex.antt =====
-- proc/mutex.c and proc/cond.c: the handles of a process's mutexes and condition variables. A mutex
-- and its lock, and a condition variable and its queue, have one number, so objects have different
-- queues. `vm_kmalloc` is an argument (the object, 0 for NULL), and so is `_resource_alloc` (the id).
mod Tests
pub mod Handles
use phoenix_rtos_kernel.Base.{
  ℕ, ◌==◌, if◌then◌else◌, Bool, true, false, upd, List, [], ◌∷◌, Error, einval, enomem, Result, eok,
  fails,
}
use phoenix_rtos_kernel.Proc.Threads.{
  Common, waiting, waiters, pending, thread_wakeup, thread_broadcast,
}
use phoenix_rtos_kernel.Proc.Locks.{
  Locks, Call, returns, sleeps, lock_init, lock_try, lock_clear, lock_set, lock_resume, lock_wait,
  lock_wait_resume,
}
use phoenix_rtos_kernel.Proc.Resource.{
  Table, rt_lock, rt_cond, resource_alloc, resource_get, resource_put, object_put,
}

pub record Kernel : Type 0 where
  pub table : Table
  pub locks : Locks

pub data Created : Type 0 where
  handle : ℕ → Created
  refused : Error → Created

-- vm_kfree
abbrev pub discarded : Table → ℕ → Table
discarded s r = record s { freed = r ∷ s.freed }

-- proc_mutexCreate
pub mutex_create : Kernel → ℕ → ℕ → Created × Kernel
mutex_create k m id0 =
    let (id, s) = resource_alloc k.table m rt_lock id0 in
    if m == 0
    then (refused enomem, k)
    else if id == 0
    then (refused enomem, record k { table = discarded s m })
    else (handle id, record k { table = (resource_put s m).1; locks = lock_init k.locks m })

-- The end of the operations on a mutex: the reference is given back.
pub mutex_end : Kernel → ℕ → Result → Result × Kernel
mutex_end k m err =
    let (n, s) = object_put k.table m in
    let k' = record k { table = s } in if n == 0 then (fails einval, k') else (err, k')

-- proc_mutexTry
pub mutex_try : Kernel → ℕ → Result × Kernel
mutex_try k h =
    let (m, s) = resource_get k.table rt_lock h in
    let (err, l) = lock_try k.locks m in
    if m == 0
    then (fails einval, record k { table = s })
    else mutex_end (record k { table = s; locks = l }) m err

-- proc_mutexUnlock
pub mutex_unlock : Kernel → ℕ → ℕ → Result × Kernel
mutex_unlock k now h =
    let (m, s) = resource_get k.table rt_lock h in
    let (woken, l) = lock_clear k.locks now m in
    if m == 0
    then (fails einval, record k { table = s })
    else mutex_end (record k { table = s; locks = l }) m eok

-- What follows the wait for a lock: the end, or sleep.
abbrev pub after : Kernel → ℕ → Call × Locks → Call × Kernel
after k m (sleeps, l) = (sleeps, record k { locks = l })
after k m (returns err, l) =
    let (r, k') = mutex_end (record k { locks = l }) m err in (returns r, k')

-- proc_mutexLock, up to the point where the thread sleeps, and once it runs again.
pub mutex_lock : Kernel → ℕ → ℕ → ℕ → Call × Kernel
mutex_lock k cpu now h =
    let (m, s) = resource_get k.table rt_lock h in
    let k' = record k { table = s } in
    if m == 0 then (returns (fails einval), k') else after k' m (lock_set k.locks cpu now m true)

pub mutex_lock_resume : Kernel → ℕ → ℕ → ℕ → Result → Call × Kernel
mutex_lock_resume k cpu now m woken = after k m (lock_resume k.locks cpu now m true woken)

-- proc_condCreate
pub cond_create : Kernel → ℕ → ℕ → Created × Kernel
cond_create k r id0 =
    let (id, s) = resource_alloc k.table r rt_cond id0 in
    let c = k.locks.common in
    let c' = record c { queue = upd c.queue r (waiting []) } in
    let l = k.locks in
    if r == 0
    then (refused enomem, k)
    else if id == 0
    then (refused enomem, record k { table = discarded s r })
    else (handle id, record k { table = (resource_put s r).1; locks = record l { common = c' } })

-- proc_threadBroadcastYield, without the rescheduling: one that wakes nobody is kept.
pub broadcast_yield : Common → ℕ → ℕ → Common
broadcast_yield c now q = elim (waiters (c.queue q)) [
  | [] ↦ record c { queue = upd c.queue q pending }
  | t ∷ ts ↦ (thread_broadcast c now q).1
]

-- What proc_condSignal and proc_condBroadcast share: `wake` is applied to the queue.
abbrev wake_cond : (Common → ℕ → Common) → Kernel → ℕ → Result × Kernel
wake_cond wake k h =
    let (r, s) = resource_get k.table rt_cond h in
    let l = k.locks in
    let k' = record k { table = s; locks = record l { common = wake l.common r } } in
    if r == 0 then (fails einval, record k { table = s }) else mutex_end k' r eok

-- proc_condSignal (proc_threadWakeupYield changes what proc_threadWakeup does)
pub cond_signal : Kernel → ℕ → ℕ → Result × Kernel
cond_signal k now h = wake_cond (λ c r. (thread_wakeup c now r).1) k h

-- proc_condBroadcast
pub cond_broadcast : Kernel → ℕ → ℕ → Result × Kernel
unfolding broadcast_yield
cond_broadcast k now h = wake_cond (λ c r. broadcast_yield c now r) k h

-- The end of proc_condWait with a mutex: both references are given back, the mutex's first.
pub cond_wait_end : Kernel → ℕ → ℕ → Result → Result × Kernel
unfolding mutex_end
cond_wait_end k r m err =
    let (e1, k1) = mutex_end k m err in
    let (n, s) = object_put k1.table r in
    let k2 = record k1 { table = s } in if n == 0 then (fails einval, k2) else (e1, k2)

abbrev after_wait : Kernel → ℕ → ℕ → Call × Locks → Call × Kernel
after_wait k r m (sleeps, l) = (sleeps, record k { locks = l })
after_wait k r m (returns err, l) =
    let (e, k') = cond_wait_end (record k { locks = l }) r m err in (returns e, k')

-- proc_condWait, up to the point where the thread sleeps, and once it runs again.
pub cond_wait : Kernel → ℕ → ℕ → ℕ → ℕ → ℕ → Call × Kernel
cond_wait k cpu now c m_handle timeout =
    let (r, s1) = resource_get k.table rt_cond c in
    let (m, s2) = resource_get s1 rt_lock m_handle in
    let k2 = record k { table = s2 } in
    if r == 0
    then (returns (fails einval), record k { table = s1 })
    else if m == 0
    then (let (n, s3) = object_put s2 r in (returns (fails einval), record k { table = s3 }))
    else after_wait k2 r m (lock_wait k.locks cpu now r m timeout)

pub cond_wait_resume : Kernel → ℕ → ℕ → ℕ → ℕ → Result → Call × Kernel
cond_wait_resume k cpu now r m woken = after_wait k r m (lock_wait_resume k.locks cpu now m woken)
