-- ===== src/Proc/Threads/Schedule.antt =====
-- threads_schedule as a whole: what runs after it.
use mathlib.Core.Path.{}
use phoenix_rtos_kernel.Base.{
  ℕ, ◌+◌, ◌≡◌, Bool, true, ◌&&◌, list_add, refl, ap, sym, ◌∙◌, ◌⊎◌, false, List, ◌==◌,
  if◌then◌else◌, upd, length, arith, Bool-cases, inl, inr, ==_refl, ◌||◌,
}
use phoenix_rtos_kernel.Proc.Threads.{
  State, ready, sleep, Common, waiters, perf_ready, perf_scheduling, requeue_current, select,
  run_selected, schedule, priorities, cpu_time_calc, reaper, count_ready,
}
use phoenix_rtos_kernel.Proc.Threads.Select.{Alive, select-Alive}

State-cases : (s : State) → (s ≡ ready) ⊎ (s ≡ sleep)
State-cases ready = inl refl
State-cases sleep = inr refl

requeue_current-exit :
    (c : Common) (cpu now u : ℕ) → ((requeue_current c cpu now).thread u).exit ≡ (c.thread u).exit
unfolding requeue_current perf_ready
requeue_current-exit c cpu now u = elim (Bool-cases (c.current cpu == 0)) [
  | inl e ↦ rw e refl
  | inr e ↦ elim (State-cases (c.thread (c.current cpu)).state) [
    | inr s ↦ rw (e, s, requeue_current) refl
    | inl s ↦ elim (Bool-cases (u == c.current cpu)) [
      | inl same ↦
          let same' : u ≡ c.current cpu = ground arith in
          rw (e, s, requeue_current) (rw (same, same') refl)
      | inr other ↦ rw (e, s, requeue_current) (rw other refl)
    ]
  ]
]

requeue_current-idle : (c : Common) (cpu now : ℕ) → (requeue_current c cpu now).current cpu ≡ 0
unfolding requeue_current perf_ready
requeue_current-idle c cpu now = elim (Bool-cases (c.current cpu == 0)) [
  | inl e ↦ rw e (rw (==_refl cpu) refl)
  | inr e ↦ elim (State-cases (c.thread (c.current cpu)).state) [
    | inl s ↦ rw (e, s, requeue_current) (rw (==_refl cpu) refl)
    | inr s ↦ rw (e, s, requeue_current) (rw (==_refl cpu) refl)
  ]
]

cpu_time_calc-current :
    (c : Common) (now current selected : ℕ)
    → (cpu_time_calc c now current selected).current ≡ c.current
unfolding cpu_time_calc
cpu_time_calc-current c now current selected = elim (Bool-cases (current == 0)) [
  | inl e ↦ elim (Bool-cases ((selected == 0) || (current == selected))) [
    | inl f ↦ rw (e, f) refl
    | inr f ↦ rw (e, f) refl
  ]
  | inr e ↦ elim (Bool-cases ((selected == 0) || (current == selected))) [
    | inl f ↦ rw (e, f) refl
    | inr f ↦ rw (e, f) refl
  ]
]

-- What `run_selected` hands to `cpu_time_calc`.
abbrev started : Common → ℕ → ℕ → ℕ → Common
started c cpu now selected =
    if selected == 0
    then c
    else perf_scheduling (record c { current = upd c.current cpu selected }) now selected

started-current :
    (c : Common) (cpu now selected : ℕ)
    → c.current cpu ≡ 0
    → (started c cpu now selected).current cpu ≡ selected
unfolding perf_scheduling
started-current c cpu now selected idle = elim (Bool-cases (selected == 0)) [
  | inl e ↦ let z : selected ≡ 0 = ground arith in rw e (idle ∙ sym z)
  | inr e ↦ rw (e, ==_refl cpu) refl
]

run_selected-current :
    (c : Common) (cpu now current selected : ℕ)
    → c.current cpu ≡ 0
    → (run_selected c cpu now current selected).current cpu ≡ selected
unfolding run_selected
run_selected-current c cpu now current selected idle =
    ap (λ (f : ℕ → ℕ). f cpu)
      (cpu_time_calc-current (started c cpu now selected) now current selected)
    ∙ started-current c cpu now selected idle

-- The fuel of `schedule`.
abbrev rounds : Common → ℕ
rounds c = priorities + 1 + count_ready priorities c + length (waiters (c.queue reaper))

-- A thread that is to exit is never run again: what a processor runs after `threads_schedule` is
-- nothing, or a thread whose `exit` was not set.
pub schedule-alive :
    (c : Common) (cpu now : ℕ)
    → let t = (schedule c cpu now).current cpu in (t ≡ 0) ⊎ ((c.thread t).exit ≡ false)
unfolding schedule
schedule-alive c cpu now =
    let c1 : Common = requeue_current c cpu now in
    let s : ℕ × Common = select (rounds c1) c1 now 0 in
    let alive : Alive c1 s = select-Alive (rounds c1) c1 now 0 in
    let runs : (run_selected s.1 cpu now (c.current cpu) s.0).current cpu ≡ s.0 =
      run_selected-current s.1 cpu now (c.current cpu) s.0
        (ap (λ (f : ℕ → ℕ). f cpu) alive.2 ∙ requeue_current-idle c cpu now) in
    elim alive.0 [
      | inl z ↦ inl (runs ∙ z)
      | inr x ↦
          inr
            (ap (λ (t : ℕ). (c.thread t).exit) runs ∙ sym (requeue_current-exit c cpu now s.0) ∙ x)
    ]

-- The lists of ready threads, once the thread that ran so far has gone to the end of its own, if there
-- is one and it is ready
abbrev pub is_ready : State → Bool
is_ready ready = true
is_ready sleep = false

abbrev pub requeued : Common → ℕ → ℕ → List ℕ
requeued c t j =
    if t == 0
    then c.ready_at j
    else if is_ready (c.thread t).state && (j == (c.thread t).priority)
    then list_add (c.ready_at j) t
    else c.ready_at j
