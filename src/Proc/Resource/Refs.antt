-- ===== src/Proc/Resource/Refs.antt =====
-- References to the resources of a process.
use mathlib.Core.Path.{subst}
use phoenix_rtos_kernel.Base.{
  ℕ, zero, suc, ◌+◌, ◌-◌, ◌%◌, ◌^◌, ◌<◌, ◌≡◌, ◌≢◌, refl, ap, sym, ◌∙◌, ◌⊎◌, true, false, [], ◌∷◌,
  ◌==◌, if◌then◌else◌, list_remove, arith, ==_refl, Bool-cases, inl, inr, Result, eok, fails, ebusy,
}
use phoenix_rtos_kernel.Proc.Resource.Find.{Sorted, find-same_id, find-remove}
use phoenix_rtos_kernel.Proc.Resource.{
  Kind, rt_lock, rt_cond, same_kind, Table, find, set_refs, resource_get, resource_put, object_put,
  resource_remove, proc_resource_put, proc_resource_destroy, resources_loop, resource_remove_next,
}

pub found :
    (s : Table) (kind : Kind) (id r : ℕ)
    → find s.resource s.resources id ≡ r
    → r ≢ 0
    → same_kind (s.resource r).kind kind ≡ true
    → resource_get s kind id ≡ (r, set_refs s r (((s.resource r).refs + 1) % 2 ^ 32))
unfolding resource_get
found s kind id r e nz k =
    let some_found : (r == 0) ≡ false = ground (arith, nz) in rw (e, some_found, k) refl

-- A reference that `resource_get` takes of a resource of the kind asked for is given back by
-- `resource_put`: it returns the count from before, and every resource is as it was.
pub resource_put-get :
    (s : Table) (kind : Kind) (id r x : ℕ)
    → find s.resource s.resources id ≡ r
    → r ≢ 0
    → same_kind (s.resource r).kind kind ≡ true
    → (s.resource r).refs < 2 ^ 32
    → let (got, s1) = resource_get s kind id in
      let (left, s2) = resource_put s1 got in
      (left ≡ (s.resource r).refs)
      × (s2.resources ≡ s.resources)
      × ((s2.resource x).refs ≡ (s.resource x).refs)
      × ((s2.resource x).kind ≡ (s.resource x).kind)
unfolding resource_put
resource_put-get s kind id r x e nz k small =
    let back : ((((s.resource r).refs + 1) % 2 ^ 32) + 2 ^ 32 - 1) % 2 ^ 32 ≡ (s.resource r).refs =
      omega arith in
    rw (found s kind id r e nz k) (
      rw (==_refl r, back)
        (elim (Bool-cases (x == r)) [
          | inl same ↦
              let eq : x ≡ r = ground arith in
              rw same (
                refl,
                refl,
                ap (λ (t : ℕ). (s.resource t).refs) (sym eq),
                ap (λ (t : ℕ). (s.resource t).kind) (sym eq),
              )
          | inr other ↦ rw other (refl, refl, refl, refl)
        ]))

mistaken :
    (s : Table) (id r : ℕ)
    → find s.resource s.resources id ≡ r
    → r ≢ 0
    → (s.resource r).kind ≡ rt_cond
    → resource_get s rt_lock id ≡ (r, s)
unfolding resource_get
mistaken s id r e nz k =
    let some_found : (r == 0) ≡ false = ground (arith, nz) in
    let differ : same_kind (s.resource r).kind rt_lock ≡ false = rw k refl in
    rw (e, some_found, differ) refl

-- `mutex_get` of the handle of another kind of resource takes no reference, but `mutex_put` gives one
-- back: where the tree held the only one, the object is freed while it is still in the tree.
pub mutex_put-freed :
    (s : Table) (id r : ℕ)
    → find s.resource s.resources id ≡ r
    → r ≢ 0
    → (s.resource r).kind ≡ rt_cond
    → (s.resource r).refs ≡ 1
    → let (got, s1) = resource_get s rt_lock id in
      let (left, s2) = object_put s1 got in
      (left ≡ 0) × (s2.freed ≡ r ∷ s.freed) × (find s2.resource s2.resources id ≡ r)
unfolding object_put resource_put
mutex_put-freed s id r e nz k one =
    rw (mistaken s id r e nz k)
      (rw one (refl, refl, find-same_id s.resource s.resources r _ id refl ∙ e))

object_put-last :
    (s : Table) (r : ℕ)
    → (s.resource r).refs ≡ 1
    → object_put s r ≡ (0, record (set_refs s r 0) { freed = r ∷ s.freed })
unfolding object_put resource_put
object_put-last s r one = rw one refl

pub object_put-more :
    (s : Table) (r : ℕ)
    → 1 < (s.resource r).refs
    → (s.resource r).refs < 2 ^ 32
    → object_put s r ≡ ((s.resource r).refs - 1, set_refs s r ((s.resource r).refs - 1))
unfolding object_put resource_put
object_put-more s r many small =
    let left : ((s.resource r).refs + 2 ^ 32 - 1) % 2 ^ 32 ≡ (s.resource r).refs - 1 =
      omega arith in
    let some_left : ((s.resource r).refs - 1 == 0) ≡ false = ground arith in
    rw left (rw some_left refl)

put-object :
    (s : Table) (r : ℕ)
    → ((s.resource r).kind ≡ rt_lock) ⊎ ((s.resource r).kind ≡ rt_cond)
    → proc_resource_put s r ≡ object_put s r
unfolding proc_resource_put
put-object s r (inl k) = rw (k, proc_resource_put) refl
put-object s r (inr k) = rw (k, proc_resource_put) refl

destroy-found :
    (s : Table) (id r : ℕ)
    → find s.resource s.resources id ≡ r
    → r ≢ 0
    → let s1 = record s { resources = list_remove s.resources r } in
      proc_resource_destroy s id
      ≡ (let (n, s2) = proc_resource_put s1 r in if n == 0 then (eok, s2) else (fails ebusy, s2))
unfolding proc_resource_destroy resource_remove
destroy-found s id r e nz =
    let some_found : (r == 0) ≡ false = ground (arith, nz) in
    rw (e, some_found) (rw some_found refl)

abbrev finish : ℕ × Table → Result × Table
finish (n, s) = if n == 0 then (eok, s) else (fails ebusy, s)

-- `proc_resourceDestroy` of the handle of a mutex or of a condition variable takes it out of the tree
-- in any case. It frees the object and returns EOK if the tree held the only reference; otherwise it
-- returns -EBUSY, and the object lives on with one reference less.
pub proc_resource_destroy_lem :
    (s : Table) (id r : ℕ)
    → find s.resource s.resources id ≡ r
    → r ≢ 0
    → Sorted s.resource s.resources
    → ((s.resource r).kind ≡ rt_lock) ⊎ ((s.resource r).kind ≡ rt_cond)
    → 0 < (s.resource r).refs
    → (s.resource r).refs < 2 ^ 32
    → let (result, s') = proc_resource_destroy s id in
      let last = (s.resource r).refs == 1 in
      (result ≡ (if last then eok else fails ebusy))
      × (s'.freed ≡ (if last then r ∷ s.freed else s.freed))
      × ((s'.resource r).refs ≡ (s.resource r).refs - 1)
      × (find s'.resource s'.resources id ≡ 0)
proc_resource_destroy_lem s id r e nz o k pos small =
    let s1 : Table = record s { resources = list_remove s.resources r } in
    let steps : proc_resource_destroy s id ≡ finish (object_put s1 r) =
      destroy-found s id r e nz ∙ ap finish (put-object s1 r k) in
    let gone : find s.resource (list_remove s.resources r) id ≡ 0 =
      subst (λ (t : ℕ). find s.resource (list_remove s.resources t) id ≡ 0) e
        (find-remove s.resource s.resources id o) in
    elim (Bool-cases ((s.resource r).refs == 1)) [
      | inl last ↦
          let one : (s.resource r).refs ≡ 1 = ground arith in
          rw (steps ∙ ap finish (object_put-last s1 r one)) (
            rw one (
              refl,
              refl,
              rw ==_refl refl,
              find-same_id s.resource s1.resources r _ id refl ∙ gone,
            ))
      | inr more ↦
          let left : ((s.resource r).refs - 1 == 0) ≡ false = ground arith in
          rw (steps ∙ ap finish (object_put-more s1 r (ground arith) small)) (
            rw (left, more)
              (
                refl,
                refl,
                rw ==_refl refl,
                find-same_id s.resource s1.resources r _ id refl ∙ gone,
              ))
    ]

resources_loop-empty :
    (fuel : ℕ) (s : Table) → s.resources ≡ [] → (resources_loop fuel s).resources ≡ []
unfolding resources_loop resource_remove_next
resources_loop-empty zero s e = e
resources_loop-empty (suc fuel) s e = rw (e, resource_remove_next) e
