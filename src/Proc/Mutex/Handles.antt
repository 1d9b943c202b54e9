-- ===== src/Proc/Mutex/Handles.antt =====
-- What a process sees of its mutexes through their handles.
use phoenix_rtos_kernel.Base.{
  ℕ, suc, ◌+◌, ◌-◌, ◌%◌, ◌^◌, ◌<◌, ◌≡◌, ◌≢◌, refl, ap, ◌∙◌, false, ◌∷◌, ◌==◌, if◌then◌else◌, eok,
  fails, enomem, ebusy, arith, ==_refl,
}
use phoenix_rtos_kernel.Proc.Threads.{}
use phoenix_rtos_kernel.Proc.Locks.{lock_init, lock_try}
use phoenix_rtos_kernel.Proc.Resource.{
  Table, rt_lock, find, set_refs, resource_alloc, resource_put, object_put,
}
use phoenix_rtos_kernel.Proc.Resource.Find.{Absent, find-same_id, resource_alloc_lem}
use phoenix_rtos_kernel.Proc.Resource.Refs.{found, object_put-more}
use phoenix_rtos_kernel.Proc.Mutex.{Kernel, handle, refused, mutex_create, mutex_end, mutex_try}

-- `h` is the handle of the mutex `m`, which is in use.
pub record IsHandle (k : Kernel) (h m : ℕ) : Type 0 where
  pub there : find k.table.resource k.table.resources h ≡ m
  pub object : m ≢ 0
  pub kind : (k.table.resource m).kind ≡ rt_lock
  pub used : 0 < (k.table.resource m).refs
  pub room : (k.table.resource m).refs + 1 < 2 ^ 32

-- Past the reference taken and given back, the table is as before but for the copy of the count.
get-put :
    (k : Kernel) (h m : ℕ)
    → IsHandle k h m
    → let n = (k.table.resource m).refs in
      object_put (set_refs k.table m ((n + 1) % 2 ^ 32)) m
      ≡ (n, set_refs (set_refs k.table m ((n + 1) % 2 ^ 32)) m n)
get-put k h m v =
    let n : ℕ = (k.table.resource m).refs in
    let s : Table = set_refs k.table m ((n + 1) % 2 ^ 32) in
    let count : (s.resource m).refs ≡ n + 1 = rw ==_refl (omega (arith, v.room)) in
    let back : (s.resource m).refs - 1 ≡ n = omega (arith, count) in
    object_put-more s m (omega (arith, count, v.used)) (omega (arith, count, v.room))
    ∙ ap (λ (x : ℕ). (x, set_refs s m x)) back

-- `proc_mutexTry` on the handle of a mutex takes the lock if it is free and fails with -EBUSY if it is
-- held. Either way it is held afterwards, and the mutex has as many references as before.
pub mutex_try_lem :
    (k : Kernel) (h m : ℕ)
    → IsHandle k h m
    → let (result, k') = mutex_try k h in
      (result ≡ (if k.locks.v m == 0 then fails ebusy else eok))
      × (k'.locks.v m ≡ 0)
      × ((k'.table.resource m).refs ≡ (k.table.resource m).refs)
      × (k'.table.freed ≡ k.table.freed)
unfolding mutex_try mutex_end lock_try
mutex_try_lem k h m v =
    let some_found : (m == 0) ≡ false = ground (arith, v.object) in
    let counted : ((k.table.resource m).refs == 0) ≡ false = ground (arith, v.used) in
    rw (found k.table rt_lock h m v.there v.object (rw v.kind refl))
      (rw (some_found, get-put k h m v) (rw counted (refl, rw ==_refl refl, rw ==_refl refl, refl)))

-- Where no id is left, `proc_mutexCreate` fails with -ENOMEM and frees the mutex, but leaves it in the
-- tree under the id 0, where `resource_get` finds it.
pub mutex_create-no_id :
    (k : Kernel) (m : ℕ)
    → m ≢ 0
    → Absent k.table.resource k.table.resources m 0
    → let (result, k') = mutex_create k m 0 in
      (result ≡ refused enomem)
      × (k'.table.freed ≡ m ∷ k.table.freed)
      × (find k'.table.resource k'.table.resources 0 ≡ m)
unfolding mutex_create resource_alloc
mutex_create-no_id k m nz a =
    let some : (m == 0) ≡ false = ground (arith, nz) in
    let added = resource_alloc_lem k.table m rt_lock 0 1 a (omega arith) in
    rw some (refl, refl, added.1)

-- `proc_mutexCreate` with an object and an id that is free returns the id as the handle: it leads to
-- the new mutex, which the tree alone refers to and which nobody holds.
pub mutex_create_lem :
    (k : Kernel) (m id : ℕ)
    → m ≢ 0
    → id ≢ 0
    → Absent k.table.resource k.table.resources m id
    → let (result, k') = mutex_create k m id in
      (result ≡ handle id)
      × IsHandle k' id m
      × ((k'.table.resource m).refs ≡ 1)
      × (k'.locks.v m ≡ 1)
unfolding mutex_create resource_alloc resource_put lock_init
mutex_create_lem k m id nz some_id a =
    let object : (m == 0) ≡ false = ground (arith, nz) in
    let taken : (id == 0) ≡ false = ground (arith, some_id) in
    let added = resource_alloc_lem k.table m rt_lock id (suc id) a (omega arith) in
    rw (object, taken, ==_refl m)
      (
        refl,
        record {
          there = find-same_id _ _ m _ id (rw ==_refl refl) ∙ added.1;
          object = nz;
          kind = rw ==_refl refl;
          used = rw ==_refl (omega arith);
          room = rw ==_refl (omega arith);
        },
        refl,
        refl,
      )
