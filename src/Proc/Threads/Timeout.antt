-- ===== src/Proc/Threads/Timeout.antt =====
-- threads_timeintr: the sleeping threads whose time has come.
use mathlib.Core.Path.{subst}
use phoenix_rtos_kernel.Base.{
  ℕ, suc, ◌≡◌, ◌≢◌, refl, ap, ◌∙◌, false, List, [], ◌∷◌, ltb, ◌==◌, if◌then◌else◌, list_remove,
  length, has, All, arith, true, list_add, has-add, sym, ◌⊎◌, Bool-cases, inl, inr, ==_refl,
}
use phoenix_rtos_kernel.Proc.Threads.{
  ready, is_current, Thread, Common, dequeue, timeintr, timeintr_loop, etime_code, perf_ready,
  write,
}
use phoenix_rtos_kernel.Proc.Threads.Queue.{dequeue-other}

-- The sleeping threads from the first one on whose time is still to come.
abbrev pub not_due : (ℕ → Thread) → ℕ → List ℕ → List ℕ
not_due f now [] = []
not_due f now (t ∷ ts) = if ltb now (f t).wakeup then t ∷ ts else not_due f now ts

-- All the threads of a list have a time to wake up, and none stands in it twice.
abbrev pub AllTimed : (ℕ → Thread) → List ℕ → Type 0
AllTimed f [] = Unit
AllTimed f (t ∷ ts) = ((f t).wakeup ≢ 0) × (has ts t ≡ false) × AllTimed f ts

-- The state after `t` has been woken with -ETIME.
abbrev expired : Common → ℕ → ℕ → Common
expired c now t =
    let c' = dequeue c now t in let th = c'.thread t in write c' t (record th { ret = etime_code })

expired-other : (c : Common) (now t u : ℕ) → u ≢ t → (expired c now t).thread u ≡ c.thread u
expired-other c now t u ne =
    let other : (u == t) ≡ false = ground (arith, ne) in rw other (dequeue-other c now t u ne)

expired-sleeping :
    (c : Common) (now t : ℕ)
    → (c.thread t).wakeup ≢ 0
    → (expired c now t).sleeping ≡ list_remove c.sleeping t
unfolding dequeue perf_ready
expired-sleeping c now t timed =
    let some : ((c.thread t).wakeup == 0) ≡ false = ground (arith, timed) in
    rw (==_refl t) (rw some refl)

differs : (t u : ℕ) (us : List ℕ) → has (u ∷ us) t ≡ false → u ≢ t
differs t u us h e = ground (arith, e)

AllTimed-expired :
    (c : Common) (now t : ℕ) (ts : List ℕ)
    → has ts t ≡ false
    → AllTimed c.thread ts
    → AllTimed (expired c now t).thread ts
AllTimed-expired c now t [] h a = tt
AllTimed-expired c now t (u ∷ us) h a =
    let rest : has us t ≡ false = ground arith in
    (rw (expired-other c now t u (differs t u us h)) a.0, a.1, AllTimed-expired c now t us rest a.2)

not_due-expired :
    (c : Common) (now t : ℕ) (ts : List ℕ)
    → has ts t ≡ false
    → not_due (expired c now t).thread now ts ≡ not_due c.thread now ts
not_due-expired c now t [] h = refl
not_due-expired c now t (u ∷ us) h =
    let rest : has us t ≡ false = ground arith in
    let same : (expired c now t).thread u ≡ c.thread u =
      expired-other c now t u (differs t u us h) in
    ap
      (λ (th : Thread).
        if ltb now th.wakeup then u ∷ us else not_due (expired c now t).thread now us)
      same
    ∙ ap (λ (l : List ℕ). if ltb now (c.thread u).wakeup then u ∷ us else l)
        (not_due-expired c now t us rest)

step :
    (n : ℕ) (c : Common) (now t : ℕ) (ts : List ℕ)
    → c.sleeping ≡ t ∷ ts
    → timeintr_loop (suc n) c now
      ≡ (if ltb now (c.thread t).wakeup then c else timeintr_loop n (expired c now t) now)
unfolding timeintr_loop
step n c now t ts e =
    ap
      (λ (l : List ℕ). elim l [
        | [] ↦ c
        | u ∷ us ↦ if ltb now (c.thread u).wakeup then c else timeintr_loop n (expired c now u) now
      ])
      e

-- The sleeping threads in front of those
abbrev pub due : (ℕ → Thread) → ℕ → List ℕ → List ℕ
due f now [] = []
due f now (t ∷ ts) = if ltb now (f t).wakeup then [] else t ∷ due f now ts

-- A thread that has been woken: it is ready, it sleeps and waits no longer, its call returns -ETIME,
-- and it is in the list of its priority, unless it is what a processor runs.
abbrev pub Woken : Common → ℕ → Type 0
Woken c t =
    ((c.thread t).state ≡ ready)
    × ((c.thread t).wakeup ≡ 0)
    × ((c.thread t).wait ≡ 0)
    × ((c.thread t).ret ≡ etime_code)
    × ((is_current c.cpus c.current t ≡ true) ⊎ (has (c.ready_at (c.thread t).priority) t ≡ true))

has-more : (xs : List ℕ) (x y : ℕ) → has xs y ≡ true → has (list_add xs x) y ≡ true
has-more xs x y h = rw (has-add xs x y, h) refl

has_last : (xs : List ℕ) (x : ℕ) → has (list_add xs x) x ≡ true
has_last xs x = elim (Bool-cases (has xs x)) [
  | inl e ↦ has-more xs x x e
  | inr e ↦ has-add xs x x ∙ rw (e, ==_refl x) refl
]

expired-Woken : (c : Common) (now t : ℕ) → Woken (expired c now t) t
unfolding dequeue perf_ready
expired-Woken c now t = elim (Bool-cases (is_current c.cpus c.current t)) [
  | inl e ↦ rw (==_refl t) (refl, refl, refl, refl, inl e)
  | inr e ↦ rw (==_refl t) (
    refl,
    refl,
    refl,
    refl,
    inr (rw (e, ==_refl (c.thread t).priority) (has_last (c.ready_at (c.thread t).priority) t)),
  )
]

expired-ready_at :
    (c : Common) (now t i u : ℕ)
    → has (c.ready_at i) u ≡ true
    → has ((expired c now t).ready_at i) u ≡ true
unfolding dequeue perf_ready
expired-ready_at c now t i u h = elim (Bool-cases (is_current c.cpus c.current t)) [
  | inl e ↦ rw e h
  | inr e ↦ elim (Bool-cases (i == (c.thread t).priority)) [
    | inl k ↦
        let same : i ≡ (c.thread t).priority = ground arith in
        rw (==_refl t, e, k)
          (has-more (c.ready_at (c.thread t).priority) t u
            (subst (λ j. has (c.ready_at j) u ≡ true) same h))
    | inr k ↦ rw (==_refl t, e, k) h
  ]
]

expired-current :
    (c : Common) (now t : ℕ)
    → ((expired c now t).cpus ≡ c.cpus) × ((expired c now t).current ≡ c.current)
unfolding dequeue perf_ready
expired-current c now t = (refl, refl)

-- Waking another thread leaves it so.
Woken-expired : (c : Common) (now t u : ℕ) → u ≢ t → Woken c u → Woken (expired c now t) u
Woken-expired c now t u ne (a, b, d, r, o) =
    let same = expired-other c now t u ne in
    let (cpus, current) = expired-current c now t in
    rw same (
      a,
      b,
      d,
      r,
      elim o [
        | inl e ↦ inl (rw (cpus, current) e)
        | inr e ↦ inr (expired-ready_at c now t (c.thread u).priority u e)
      ],
    )

due-expired :
    (c : Common) (now t : ℕ) (ts : List ℕ)
    → has ts t ≡ false
    → due (expired c now t).thread now ts ≡ due c.thread now ts
due-expired c now t [] h = refl
due-expired c now t (u ∷ us) h =
    let rest : has us t ≡ false = ground arith in
    rw (expired-other c now t u (differs t u us h), due-expired c now t us rest) refl

loop-Woken :
    (ts : List ℕ) (c : Common) (now u : ℕ)
    → c.sleeping ≡ ts
    → AllTimed c.thread ts
    → has ts u ≡ false
    → Woken c u
    → Woken (timeintr_loop (length ts) c now) u
unfolding timeintr_loop
loop-Woken [] c now u e a h w = w
loop-Woken (t ∷ ts) c now u e a h w =
    let left : (expired c now t).sleeping ≡ ts =
      expired-sleeping c now t a.0 ∙ ap (λ (l : List ℕ). list_remove l t) e ∙ rw ==_refl refl in
    let rest : has ts u ≡ false = ground arith in
    let ne : u ≢ t = λ q. differs u t ts h (sym q) in
    subst (λ x. Woken x u) (sym (step (length ts) c now t ts e))
      (elim (Bool-cases (ltb now (c.thread t).wakeup)) [
        | inl more ↦ rw more w
        | inr late ↦ rw late (
            loop-Woken ts (expired c now t) now u left (AllTimed-expired c now t ts a.1 a.2) rest
              (Woken-expired c now t u ne w))
      ])

loop-due :
    (ts : List ℕ) (c : Common) (now : ℕ)
    → c.sleeping ≡ ts
    → AllTimed c.thread ts
    → All (Woken (timeintr_loop (length ts) c now)) (due c.thread now ts)
unfolding timeintr_loop
loop-due [] c now e a = tt
loop-due (t ∷ ts) c now e a =
    let c' : Common = expired c now t in
    let left : c'.sleeping ≡ ts =
      expired-sleeping c now t a.0 ∙ ap (λ (l : List ℕ). list_remove l t) e ∙ rw ==_refl refl in
    let timed = AllTimed-expired c now t ts a.1 a.2 in
    subst (λ x. All (Woken x) (due c.thread now (t ∷ ts))) (sym (step (length ts) c now t ts e))
      (elim (Bool-cases (ltb now (c.thread t).wakeup)) [
        | inl more ↦ rw more tt
        | inr late ↦ rw late (
          loop-Woken ts c' now t left timed a.1 (expired-Woken c now t),
          subst (All (Woken (timeintr_loop (length ts) c' now))) (due-expired c now t ts a.1)
              (loop-due ts c' now left timed),
        )
      ])

loop-sleeping :
    (ts : List ℕ) (c : Common) (now : ℕ)
    → c.sleeping ≡ ts
    → AllTimed c.thread ts
    → (timeintr_loop (length ts) c now).sleeping ≡ not_due c.thread now ts
unfolding timeintr_loop
loop-sleeping [] c now e a = e
loop-sleeping (t ∷ ts) c now e a =
    let c' : Common = expired c now t in
    let left : c'.sleeping ≡ ts =
      expired-sleeping c now t a.0 ∙ ap (λ (l : List ℕ). list_remove l t) e ∙ rw ==_refl refl in
    let later = loop-sleeping ts c' now left (AllTimed-expired c now t ts a.1 a.2) in
    ap (λ (x : Common). x.sleeping) (step (length ts) c now t ts e)
    ∙ elim (Bool-cases (ltb now (c.thread t).wakeup)) [
      | inl more ↦ rw more e
      | inr due ↦ rw due (later ∙ not_due-expired c now t ts a.1)
    ]

-- `threads_timeintr` takes all threads off the tree whose time has come, up to the first one whose
-- time is still to come, and leaves that one and those behind it. The threads that it takes off are
-- ready with -ETIME, and in the lists of ready threads, but for one that a processor runs.
pub timeintr_lem :
    (c : Common) (now : ℕ)
    → AllTimed c.thread c.sleeping
    → ((timeintr c now).sleeping ≡ not_due c.thread now c.sleeping)
      × All (Woken (timeintr c now)) (due c.thread now c.sleeping)
unfolding timeintr
timeintr_lem c now a = (loop-sleeping c.sleeping c now refl a, loop-due c.sleeping c now refl a)
