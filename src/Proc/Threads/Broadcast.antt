-- ===== src/Proc/Threads/Broadcast.antt =====
-- proc_threadBroadcast of proc/threads.c, and the threads that wait on the queue.
use mathlib.Core.Path.{subst}
use phoenix_rtos_kernel.Base.{
  ℕ, suc, ◌+◌, ◌≡◌, ◌≢◌, refl, ap, sym, ◌∙◌, false, List, [], ◌∷◌, ◌==◌, length, All, has, arith,
  Bool-cases, inl, inr, ==_refl,
}
use phoenix_rtos_kernel.Proc.Threads.{
  Thread, Common, waiting, waiters, dequeue, thread_broadcast, broadcast_loop,
}
use phoenix_rtos_kernel.Proc.Threads.Queue.{
  IsAwake, dequeue-IsAwake, dequeue-other, dequeue-queue, wakeup_first-head,
}

-- All the threads of a list wait on the queue, and none of them twice.
abbrev pub AllWait : Common → ℕ → List ℕ → Type 0
AllWait c q [] = Unit
AllWait c q (t ∷ ts) = ((c.thread t).wait ≡ q) × (has ts t ≡ false) × AllWait c q ts

AllWait-dequeue :
    (c : Common) (now q t : ℕ) (ts : List ℕ)
    → has ts t ≡ false
    → AllWait c q ts
    → AllWait (dequeue c now t) q ts
AllWait-dequeue c now q t [] h a = tt
AllWait-dequeue c now q t (u ∷ us) h a =
    let other : u ≢ t = λ e. ground (arith, e) in
    let rest : has us t ≡ false = ground arith in
    (
      ap (λ (th : Thread). th.wait) (dequeue-other c now t u other) ∙ a.0,
      a.1,
      AllWait-dequeue c now q t us rest a.2,
    )

IsAwake-dequeue : (c : Common) (now t u : ℕ) → IsAwake c u → IsAwake (dequeue c now t) u
IsAwake-dequeue c now t u a = elim (Bool-cases (u == t)) [
  | inl e ↦ let same : u ≡ t = ground arith in rw same (dequeue-IsAwake c now t)
  | inr e ↦
      let other : u ≢ t = λ same. ground (arith, same) in
      let keep = dequeue-other c now t u other in
      record {
        state = ap (λ (th : Thread). th.state) keep ∙ a.state;
        wait = ap (λ (th : Thread). th.wait) keep ∙ a.wait;
        wakeup = ap (λ (th : Thread). th.wakeup) keep ∙ a.wakeup;
      }
]

broadcast-step :
    (n : ℕ) (c : Common) (now q ret t : ℕ) (ts : List ℕ)
    → c.queue q ≡ waiting (t ∷ ts)
    → broadcast_loop (suc n) c now q ret ≡ broadcast_loop n (dequeue c now t) now q (ret + 1)
unfolding broadcast_loop
broadcast-step n c now q ret t ts e =
    rw (e, broadcast_loop)
      (ap (λ c'. broadcast_loop n c' now q (ret + 1)) (wakeup_first-head c now q t ts e))

dequeue-rest :
    (c : Common) (now q t : ℕ) (ts : List ℕ)
    → c.queue q ≡ waiting (t ∷ ts)
    → q ≢ 0
    → AllWait c q (t ∷ ts)
    → (dequeue c now t).queue q ≡ waiting ts
dequeue-rest c now q t ts e nz a = dequeue-queue c now t q a.0 nz ∙ rw (e, ==_refl t) refl

-- One that is awake stays awake.
broadcast-IsAwake :
    (ts : List ℕ) (c : Common) (now q ret u : ℕ)
    → c.queue q ≡ waiting ts
    → q ≢ 0
    → AllWait c q ts
    → IsAwake c u
    → IsAwake (broadcast_loop (length ts) c now q ret).1 u
unfolding broadcast_loop
broadcast-IsAwake [] c now q ret u e nz a w = w
broadcast-IsAwake (t ∷ ts) c now q ret u e nz a w =
    rw (broadcast-step (length ts) c now q ret t ts e) (
      broadcast-IsAwake ts (dequeue c now t) now q (ret + 1) u (dequeue-rest c now q t ts e nz a) nz
        (AllWait-dequeue c now q t ts a.1 a.2) (IsAwake-dequeue c now t u w))

broadcast-all :
    (ts : List ℕ) (c : Common) (now q ret : ℕ)
    → c.queue q ≡ waiting ts
    → q ≢ 0
    → AllWait c q ts
    → let (n, c') = broadcast_loop (length ts) c now q ret in
      (n ≡ ret + length ts) × (c'.queue q ≡ waiting [])
unfolding broadcast_loop
broadcast-all [] c now q ret e nz a = (omega arith, e)
broadcast-all (t ∷ ts) c now q ret e nz a =
    let rest =
      broadcast-all ts (dequeue c now t) now q (ret + 1) (dequeue-rest c now q t ts e nz a) nz
        (AllWait-dequeue c now q t ts a.1 a.2) in
    rw (broadcast-step (length ts) c now q ret t ts e) (omega (arith, rest.0), rest.1)

broadcast-All :
    (ts : List ℕ) (c : Common) (now q ret : ℕ)
    → c.queue q ≡ waiting ts
    → q ≢ 0
    → AllWait c q ts
    → All (IsAwake (broadcast_loop (length ts) c now q ret).1) ts
broadcast-All [] c now q ret e nz a = tt
broadcast-All (t ∷ ts) c now q ret e nz a =
    let c' : Common = dequeue c now t in
    let e' = dequeue-rest c now q t ts e nz a in
    let a' = AllWait-dequeue c now q t ts a.1 a.2 in
    subst (λ (r : ℕ × Common). All (IsAwake r.1) (t ∷ ts))
      (sym (broadcast-step (length ts) c now q ret t ts e))
      (
        broadcast-IsAwake ts c' now q (ret + 1) t e' nz a' (dequeue-IsAwake c now t),
        broadcast-All ts c' now q (ret + 1) e' nz a',
      )

-- `proc_threadBroadcast` wakes every thread that waits on the queue, returns their number, and leaves
-- the queue empty.
pub thread_broadcast_lem :
    (c : Common) (now q : ℕ) (ts : List ℕ)
    → c.queue q ≡ waiting ts
    → q ≢ 0
    → AllWait c q ts
    → let (n, c') = thread_broadcast c now q in
      (n ≡ length ts) × (c'.queue q ≡ waiting []) × All (IsAwake c') ts
unfolding thread_broadcast
thread_broadcast_lem c now q ts e nz a =
    let all = broadcast-all ts c now q 0 e nz a in
    let n : length (waiters (c.queue q)) ≡ length ts = ap (λ w. length (waiters w)) e in
    rw n (all.0 ∙ omega arith, all.1, broadcast-All ts c now q 0 e nz a)
