-- ===== src/Proc/Threads/Select.antt =====
-- The loop of threads_schedule that selects the thread to run.
use mathlib.Core.Path.{subst}
use phoenix_rtos_kernel.Base.{
  ℕ, zero, suc, ◌+◌, ◌≤◌, ◌<◌, ◌≡◌, refl, ap, sym, ◌∙◌, ◌⊎◌, true, false, List, [], ◌∷◌, ltb, ◌==◌,
  upd, list_add, arith, Bool-cases, inl, inr, ==_refl,
}
use phoenix_rtos_kernel.Proc.Threads.{
  Common, WaitQueue, pending, waiting, dequeue, wakeup_first, perf_ready, select, priorities,
  reaper,
}

dequeue-exit : (c : Common) (now t u : ℕ) → ((dequeue c now t).thread u).exit ≡ (c.thread u).exit
unfolding dequeue perf_ready
dequeue-exit c now t u = elim (Bool-cases (u == t)) [
  | inl e ↦ let same : u ≡ t = ground arith in rw (e, ==_refl t, same) refl
  | inr e ↦ rw e refl
]

wakeup_first-exit :
    (w : WaitQueue) (c : Common) (now q u : ℕ)
    → c.queue q ≡ w
    → ((wakeup_first c now q).thread u).exit ≡ (c.thread u).exit
unfolding wakeup_first
wakeup_first-exit pending c now q u e = rw (e, wakeup_first) refl
wakeup_first-exit (waiting []) c now q u e = rw (e, wakeup_first) refl
wakeup_first-exit (waiting (t ∷ ts)) c now q u e = rw (e, wakeup_first) (dequeue-exit c now t u)

wakeup_first-current :
    (w : WaitQueue) (c : Common) (now q : ℕ)
    → c.queue q ≡ w
    → (wakeup_first c now q).current ≡ c.current
unfolding wakeup_first dequeue perf_ready
wakeup_first-current pending c now q e = rw (e, wakeup_first) refl
wakeup_first-current (waiting []) c now q e = rw (e, wakeup_first) refl
wakeup_first-current (waiting (t ∷ ts)) c now q e = rw (e, wakeup_first) refl

-- The state after a thread `t` that is to exit has been taken off the front of list `i`.
abbrev buried : Common → ℕ → ℕ → ℕ → List ℕ → Common
buried c now i t rest =
    wakeup_first (record c { ready_at = upd c.ready_at i rest; ghosts = list_add c.ghosts t }) now
      reaper

select-past :
    (fuel : ℕ) (c : Common) (now i : ℕ)
    → ltb i priorities ≡ true
    → c.ready_at i ≡ []
    → select (suc fuel) c now i ≡ select fuel c now (i + 1)
unfolding select
select-past fuel c now i l e = rw (l, e, select) refl

select-take :
    (fuel : ℕ) (c : Common) (now i t : ℕ) (rest : List ℕ)
    → ltb i priorities ≡ true
    → c.ready_at i ≡ t ∷ rest
    → (c.thread t).exit ≡ false
    → select (suc fuel) c now i ≡ (t, record c { ready_at = upd c.ready_at i rest })
unfolding select
select-take fuel c now i t rest l e x = rw (l, e, x, select) refl

select-drop :
    (fuel : ℕ) (c : Common) (now i t : ℕ) (rest : List ℕ)
    → ltb i priorities ≡ true
    → c.ready_at i ≡ t ∷ rest
    → (c.thread t).exit ≡ true
    → select (suc fuel) c now i ≡ select fuel (buried c now i t rest) now i
unfolding select
select-drop fuel c now i t rest l e x = rw (l, e, x, select) refl

select-end :
    (fuel : ℕ) (c : Common) (now i : ℕ) → ltb i priorities ≡ false → select fuel c now i ≡ (0, c)
unfolding select
select-end zero c now i l = refl
select-end (suc fuel) c now i l = rw (l, select) refl

pub List-cases : (l : List ℕ) → (l ≡ []) ⊎ ((t : ℕ) × (rest : List ℕ) × (l ≡ t ∷ rest))
List-cases [] = inl refl
List-cases (t ∷ rest) = inr (t, rest, refl)

-- Nothing, or a thread that is not to exit; no thread's flag changes, nor what runs.
abbrev pub Alive : Common → ℕ × Common → Type 0
Alive c (t, c') =
    ((t ≡ 0) ⊎ ((c.thread t).exit ≡ false))
    × ((u : ℕ) → (c'.thread u).exit ≡ (c.thread u).exit)
    × (c'.current ≡ c.current)

pub select-Alive : (fuel : ℕ) (c : Common) (now i : ℕ) → Alive c (select fuel c now i)
unfolding select
select-Alive zero c now i = (inl refl, λ u. refl, refl)
select-Alive (suc fuel) c now i = elim (Bool-cases (ltb i priorities)) [
  | inr l ↦ subst (Alive c) (sym (select-end (suc fuel) c now i l)) (inl refl, λ u. refl, refl)
  | inl l ↦ elim (List-cases (c.ready_at i)) [
    | inl e ↦ subst (Alive c) (sym (select-past fuel c now i l e)) (select-Alive fuel c now (i + 1))
    | inr (t, rest, e) ↦ elim (Bool-cases (c.thread t).exit) [
      | inr x ↦
          subst (Alive c) (sym (select-take fuel c now i t rest l e x)) (inr x, λ u. refl, refl)
      | inl x ↦
          let c' : Common = record c {
            ready_at = upd c.ready_at i rest;
            ghosts = list_add c.ghosts t;
          } in
          let same : (u : ℕ) → ((buried c now i t rest).thread u).exit ≡ (c.thread u).exit =
            λ u. wakeup_first-exit (c'.queue reaper) c' now reaper u refl in
          let later = select-Alive fuel (buried c now i t rest) now i in
          subst (Alive c) (sym (select-drop fuel c now i t rest l e x)) (
            elim later.0 [
              | inl z ↦ inl z
              | inr y ↦ inr (sym (same (select fuel (buried c now i t rest) now i).0) ∙ y)
            ],
            λ u. later.1 u ∙ same u,
            later.2 ∙ wakeup_first-current (c'.queue reaper) c' now reaper refl,
          )
    ]
  ]
]

-- Past `d` empty lists, `select` takes the head of the next.
pub select-first :
    (d fuel : ℕ) (c : Common) (now i t : ℕ) (rest : List ℕ)
    → d + i < priorities
    → d < fuel
    → ((j : ℕ) → i ≤ j → j < d + i → c.ready_at j ≡ [])
    → c.ready_at (d + i) ≡ t ∷ rest
    → (c.thread t).exit ≡ false
    → select fuel c now i ≡ (t, record c { ready_at = upd c.ready_at (d + i) rest })
select-first zero (suc fuel) c now i t rest p f none e x =
    let at : i ≡ 0 + i = omega arith in
    select-take fuel c now i t rest (ground arith) (ap c.ready_at at ∙ e) x
    ∙ ap (λ (k : ℕ). (t, record c { ready_at = upd c.ready_at k rest })) at
select-first (suc d) (suc fuel) c now i t rest p f none e x =
    let at : d + (i + 1) ≡ suc d + i = omega arith in
    select-past fuel c now i (ground arith) (none i (omega arith) (omega arith))
    ∙ select-first d fuel c now (i + 1) t rest (omega arith) (omega arith)
        (λ j a b. none j (omega (arith, a)) (omega (arith, b))) (ap c.ready_at at ∙ e) x
    ∙ ap (λ (k : ℕ). (t, record c { ready_at = upd c.ready_at k rest })) at
select-first d zero c now i t rest p f none e x = ground (arith, f)
