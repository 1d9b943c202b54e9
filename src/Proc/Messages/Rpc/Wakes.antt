-- ===== src/Proc/Messages/Rpc/Wakes.antt =====
-- The threads that an exchange of a message of proc/msg.c puts to sleep and wakes.
use mathlib.Core.Path.{}
use phoenix_rtos_kernel.Base.{
  ℕ, suc, ◌-◌, ◌≡◌, refl, ap, Bool, true, false, [], ◌==◌, is_empty, Result,
}
use phoenix_rtos_kernel.Proc.Threads.{waiting, waiters, enqueue}
use phoenix_rtos_kernel.Proc.Threads.Queue.{}
use phoenix_rtos_kernel.Proc.Threads.Asleep.{enqueue-IsAlone}
use phoenix_rtos_kernel.Proc.Locks.{thread_wait}
use phoenix_rtos_kernel.Proc.Messages.{Mail, is_over, port_get, port_put, send_wait}
use phoenix_rtos_kernel.Proc.Messages.Frame.{either}

pub get-sys : (s : Mail) (p : ℕ) → (port_get s p).1.sys ≡ s.sys
unfolding port_get
get-sys s p = either (λ (r : Bool × Mail). r.1.sys ≡ s.sys) (s.port p).listed _ _ refl refl

pub put-sys : (s : Mail) (now p : ℕ) → (port_put s now p false).sys ≡ s.sys
unfolding port_put
put-sys s now p =
    let y = s.port p in
    either (λ (r : Mail). r.sys ≡ s.sys) (y.refs - 1 == 0) _ _
      (either (λ (r : Mail). r.sys ≡ s.sys) y.owned _ _ refl refl) refl

-- The loop of proc_send, when nobody waits for the message: the current thread does afterwards.
pub send_wait-sleeps :
    (fuel : ℕ) (s : Mail) (cpu now p m : ℕ) (err : Result)
    → is_over (s.state m) ≡ false
    → s.sys.common.queue m ≡ waiting []
    → (send_wait (suc fuel) s cpu now p m err).1.sys.common ≡ enqueue s.sys.common cpu now m 0 true
unfolding send_wait thread_wait
send_wait-sleeps fuel s cpu now p m err e q =
    let alone = enqueue-IsAlone s.sys.common cpu now m q in
    let stays : is_empty (waiters ((enqueue s.sys.common cpu now m 0 true).queue m)) ≡ false =
      ap (λ w. is_empty (waiters w)) alone.queue in
    rw e (rw stays refl)
