-- ===== src/Proc/Locks/Wait.antt =====
-- _proc_lockSet of a lock that is free or held, and what _proc_lockClear writes.
use mathlib.Core.Path.{subst}
use phoenix_rtos_kernel.Base.{
  ℕ, suc, ◌≡◌, refl, ap, sym, ◌∙◌, Bool, true, false, List, [], ◌∷◌, ◌==◌, upd, list_add, eok,
  is_empty, ==_refl,
}
use phoenix_rtos_kernel.Proc.Threads.{sleep, Common, WaitQueue, pending, waiting, waiters, enqueue}
use phoenix_rtos_kernel.Proc.Threads.Queue.{enqueue_lem, pending_enqueue}
use phoenix_rtos_kernel.Proc.Locks.{
  Locks, Call, returns, sleeps, lock_clear, lock_set, lock_rounds, thread_wait,
}

pub lock_set-free :
    (s : Locks) (cpu now l : ℕ) (i : Bool)
    → (s.v l == 0) ≡ false
    → lock_set s cpu now l i ≡ (returns eok, record s { v = upd s.v l 0 })
unfolding lock_set lock_rounds
lock_set-free s cpu now l i e = rw e refl

add-nonempty : (ts : List ℕ) (t : ℕ) → is_empty (list_add ts t) ≡ false
add-nonempty [] t = refl
add-nonempty (u ∷ us) t = refl

-- With no wakeup kept, the thread sleeps in the first round.
rounds-sleep :
    (n : ℕ) (s : Locks) (cpu now l : ℕ) (i : Bool) (ts : List ℕ)
    → s.v l ≡ 0
    → s.common.queue l ≡ waiting ts
    → lock_rounds (suc n) s cpu now l i
      ≡ (sleeps, record s { common = enqueue s.common cpu now l 0 i })
unfolding lock_rounds thread_wait
rounds-sleep n s cpu now l i ts z e =
    let stays : is_empty (waiters ((enqueue s.common cpu now l 0 i).queue l)) ≡ false =
      ap (λ (w : WaitQueue). is_empty (waiters w)) (enqueue_lem s.common cpu now l 0 i ts e).0
      ∙ add-nonempty ts (s.common.current cpu) in
    rw (z, stays) refl

-- A round in which the thread does not sleep.
round-awake :
    (n : ℕ) (s : Locks) (cpu now l : ℕ) (i : Bool) (c : Common)
    → s.v l ≡ 0
    → enqueue s.common cpu now l 0 i ≡ c
    → is_empty (waiters (c.queue l)) ≡ true
    → lock_rounds (suc n) s cpu now l i ≡ lock_rounds n (record s { common = c }) cpu now l i
unfolding lock_rounds thread_wait
round-awake n s cpu now l i c z e h = rw (z, e) (rw h refl)

-- A kept wakeup is used up by a first round that does not sleep; the second one does.
rounds-twice :
    (n : ℕ) (s : Locks) (cpu now l : ℕ) (i : Bool)
    → s.v l ≡ 0
    → s.common.queue l ≡ pending
    → let c = record s.common { queue = upd s.common.queue l (waiting []) } in
      lock_rounds (suc (suc n)) s cpu now l i
      ≡ (sleeps, record s { common = enqueue c cpu now l 0 i })
rounds-twice n s cpu now l i z e =
    let c : Common = record s.common { queue = upd s.common.queue l (waiting []) } in
    let front : c.queue l ≡ waiting [] = rw ==_refl refl in
    round-awake (suc n) s cpu now l i c z (pending_enqueue s.common cpu now l 0 i e)
      (ap (λ (w : WaitQueue). is_empty (waiters w)) front)
    ∙ rounds-sleep n (record s { common = c }) cpu now l i [] z front

-- Did the current thread go to sleep at the end of the lock's queue?
abbrev pub Slept : Locks → ℕ → ℕ → Call × Locks → Type 0
Slept s cpu l (call, s') =
    (call ≡ sleeps)
    × (s'.v ≡ s.v)
    × (s'.common.queue l ≡ waiting (list_add (waiters (s.common.queue l)) (s.common.current cpu)))
    × ((s'.common.thread (s.common.current cpu)).state ≡ sleep)

lock_set-Slept :
    (w : WaitQueue) (s : Locks) (cpu now l : ℕ) (i : Bool)
    → s.common.queue l ≡ w
    → s.v l ≡ 0
    → Slept s cpu l (lock_set s cpu now l i)
unfolding lock_set
lock_set-Slept (waiting ts) s cpu now l i e z =
    let q = enqueue_lem s.common cpu now l 0 i ts e in
    subst (Slept s cpu l) (sym (rounds-sleep 1 s cpu now l i ts z e)) (
      refl,
      refl,
      q.0 ∙ ap (λ w. waiting (list_add (waiters w) (s.common.current cpu))) (sym e),
      q.1,
    )
lock_set-Slept pending s cpu now l i e z =
    let c : Common = record s.common { queue = upd s.common.queue l (waiting []) } in
    let q = enqueue_lem c cpu now l 0 i [] (rw ==_refl refl) in
    subst (Slept s cpu l) (sym (rounds-twice 0 s cpu now l i z e)) (
      refl,
      refl,
      q.0 ∙ ap (λ w. waiting (list_add (waiters w) (s.common.current cpu))) (sym e),
      q.1,
    )

-- `_proc_lockSet` of a lock that is held puts the current thread to sleep behind the others that wait
-- for the lock, also where a wakeup was kept; the lock stays held.
pub lock_set_lem :
    (s : Locks) (cpu now l : ℕ) (i : Bool) → s.v l ≡ 0 → Slept s cpu l (lock_set s cpu now l i)
lock_set_lem s cpu now l i z = lock_set-Slept (s.common.queue l) s cpu now l i refl z

pub lock_clear-v :
    (ts : List ℕ) (s : Locks) (now l : ℕ)
    → waiters (s.common.queue l) ≡ ts
    → (lock_clear s now l).1.v ≡ upd s.v l 1
unfolding lock_clear
lock_clear-v [] s now l e = rw (e, lock_clear) refl
lock_clear-v (t ∷ ts) s now l e = rw (e, lock_clear) refl
