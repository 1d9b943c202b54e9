-- ===== src/Proc/Messages/Frame.antt =====
-- What the calls of proc/msg.c and proc/ports.c leave of the queues and states of messages.
use phoenix_rtos_kernel.Base.{
  ℕ, zero, suc, ◌+◌, ◌-◌, ◌≡◌, refl, ◌∙◌, inl, inr, Bool, true, false, ◌==◌, ==_refl, if◌then◌else◌,
  Bool-cases, upd, Result, eok, fails, einval, arith,
}
use phoenix_rtos_kernel.Proc.Locks.{Call, returns, thread_wait}
use phoenix_rtos_kernel.Proc.Messages.{
  Mail, Port, is_responded, is_rejected, port_get, port_put, is_over, send_end, send_wait, set_port,
}

-- The queues and states are the same.
abbrev pub Keeps : Mail → Mail → Type 0
Keeps s s' = ((p : ℕ) → (s'.port p).kmessages ≡ (s.port p).kmessages) × (s'.state ≡ s.state)

pub Keeps-trans : (a b c : Mail) → Keeps a b → Keeps b c → Keeps a c
Keeps-trans a b c x y = (λ p. y.0 p ∙ x.0 p, y.1 ∙ x.1)

set_port-Keeps :
    (s : Mail) (p : ℕ) (x : Port) → x.kmessages ≡ (s.port p).kmessages → Keeps s (set_port s p x)
set_port-Keeps s p x e = (
  λ q. elim (Bool-cases (q == p)) [
    | inl h ↦ let same : q ≡ p = ground arith in rw (same, ==_refl p) e
    | inr h ↦ rw h refl
  ],
  refl,
)

-- What holds of both results of a test holds of the result.
pub either {ℓ} :
    {A : Type ℓ} (P : A → Type 0) (b : Bool) (x y : A) → P x → P y → P (if b then x else y)
either P true x y px py = px
either P false x y px py = py

pub either_eq {ℓ} :
    {A : Type ℓ} (P : A → Type 0) (b : Bool) (x y : A)
    → (b ≡ true → P x)
    → (b ≡ false → P y)
    → P (if b then x else y)
either_eq P true x y px py = px refl
either_eq P false x y px py = py refl

-- A result with a state that keeps the queues and states
abbrev pub After {ℓ} : {A : Type ℓ} → Mail → A × Mail → Type 0
After s r = Keeps s r.1

pub same-Keeps : (s : Mail) → Keeps s s
same-Keeps s = (λ p. refl, refl)

pub port_get-Keeps : (s : Mail) (p : ℕ) → Keeps s (port_get s p).1
unfolding port_get
port_get-Keeps s p =
    let x = s.port p in
    let more : Port = record x { refs = x.refs + 1 } in
    either (After s) x.listed (true, set_port s p more) (false, s) (set_port-Keeps s p more refl)
      (same-Keeps s)

pub port_put-Keeps : (s : Mail) (now p : ℕ) (destroy : Bool) → Keeps s (port_put s now p destroy)
unfolding port_put
port_put-Keeps s now p destroy =
    let x = s.port p in
    let shut = if destroy then true else x.closed in
    let counted : Port = record x { refs = x.refs - 1; closed = shut } in
    let kept = set_port-Keeps s p counted refl in
    let gone = set_port-Keeps s p (record counted { listed = false }) refl in
    either (Keeps s) (x.refs - 1 == 0) _ _ (either (Keeps s) x.owned _ _ gone gone)
      (either (Keeps s) destroy _ _ kept kept)

ending-Keeps :
    (s : Mail) (now p m : ℕ) (r : Result)
    → Keeps s
        (elim r as (λ x. Call × Mail) [
          | fails e ↦ (returns (fails e), port_put s now p false)
          | eok ↦ (
            returns (if is_rejected (s.state m) then fails einval else eok),
            (let s1 = port_put s now p false in
                record s1 { reply = upd s1.reply m (s1.msg m).output }),
          )
        ]).1
ending-Keeps s now p m eok = port_put-Keeps s now p false
ending-Keeps s now p m (fails e) = port_put-Keeps s now p false

pub send_end-Keeps : (s : Mail) (now p m : ℕ) (err : Result) → Keeps s (send_end s now p m err).1
unfolding send_end
send_end-Keeps s now p m err =
    ending-Keeps s now p m (if is_responded (s.state m) then eok else err)

pub send_wait-Keeps :
    (fuel : ℕ) (s : Mail) (cpu now p m : ℕ) (err : Result)
    → Keeps s (send_wait fuel s cpu now p m err).1
unfolding send_wait
send_wait-Keeps zero s cpu now p m err = same-Keeps s
send_wait-Keeps (suc fuel) s cpu now p m err =
    let (at_once, l) = thread_wait s.sys cpu now m 0 true in
    let s' : Mail = record s { sys = l } in
    either (After s) (is_over (s.state m)) _ _ (send_end-Keeps s now p m err)
      (either (After s) at_once _ _ (send_wait-Keeps fuel s' cpu now p m eok) (same-Keeps s))
