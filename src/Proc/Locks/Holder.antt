-- ===== src/Proc/Locks/Holder.antt =====
-- The threads that hold a lock of proc/threads.c, over all sequences of calls.
use mathlib.Core.Path.{}
use phoenix_rtos_kernel.Base.{ℕ, ◌≡◌, ◌≢◌, Bool, List, [], ◌∷◌, eok}
use phoenix_rtos_kernel.Proc.Threads.{}
use phoenix_rtos_kernel.Proc.Threads.Queue.{}
use phoenix_rtos_kernel.Proc.Locks.{
  Locks, returns, sleeps, lock_try, lock_clear, lock_set, lock_init,
}

-- What a lock can come to from its initialisation, with the threads that hold it: they take it by
-- `proc_lockTry` or `_proc_lockSet`, only one that holds it calls `_proc_lockClear`, and other calls
-- do not write its `v`.
pub data Reaches (l : ℕ) : Locks → List ℕ → Type 0 where
  starts : (s : Locks) → Reaches l (lock_init s l) []
  tries :
      (s : Locks) (hs : List ℕ) (t : ℕ)
      → Reaches l s hs
      → (lock_try s l).0 ≡ eok
      → Reaches l (lock_try s l).1 (t ∷ hs)
  fails_try :
      (s : Locks) (hs : List ℕ)
      → Reaches l s hs
      → (lock_try s l).0 ≢ eok
      → Reaches l (lock_try s l).1 hs
  sets :
      (s : Locks) (hs : List ℕ) (cpu now : ℕ) (i : Bool)
      → Reaches l s hs
      → (lock_set s cpu now l i).0 ≡ returns eok
      → Reaches l (lock_set s cpu now l i).1 (s.common.current cpu ∷ hs)
  waits :
      (s : Locks) (hs : List ℕ) (cpu now : ℕ) (i : Bool)
      → Reaches l s hs
      → (lock_set s cpu now l i).0 ≡ sleeps
      → Reaches l (lock_set s cpu now l i).1 hs
  clears :
      (s : Locks) (t : ℕ) (hs : List ℕ) (now : ℕ)
      → Reaches l s (t ∷ hs)
      → Reaches l (lock_clear s now l).1 hs
  others : (s s' : Locks) (hs : List ℕ) → Reaches l s hs → s'.v l ≡ s.v l → Reaches l s' hs
