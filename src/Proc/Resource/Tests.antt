-- ===== src/Proc/Resource/Tests.antt =====
-- proc/resource.c on concrete inputs.
use phoenix_rtos_kernel.Base.{◌≡◌, inl, refl, [], ◌∷◌, ◌==◌, if◌then◌else◌, arith, fails, ebusy}
use phoenix_rtos_kernel.Proc.Resource.{
  rt_lock, rt_cond, Table, find, resource_get, object_put, proc_resource_destroy,
}
use phoenix_rtos_kernel.Proc.Resource.Find.{Absent, Sorted}
use phoenix_rtos_kernel.Proc.Resource.Refs.{mutex_put-freed, proc_resource_destroy_lem}

-- The mutex 20 with the handle 1, in use by another thread, and the condition variable 30 with the
-- handle 2.
abbrev table : Table
table = record {
  resources = 20 ∷ 30 ∷ [];
  resource = λ r.
      if r == 20
      then record { refs = 2; kind = rt_lock; id = 1 }
      else record { refs = 1; kind = rt_cond; id = 2 };
  cond = λ r. 0;
  freed = [];
}

table-Absent : Absent table.resource table.resources 40 3
table-Absent = (omega arith, omega arith, (omega arith, omega arith, tt))

table-Sorted : Sorted table.resource table.resources
table-Sorted = ((omega arith, tt), (tt, tt))

mutex_put-freed_example :
    let (got, s1) = resource_get table rt_lock 2 in
    let (left, s2) = object_put s1 got in
    (left ≡ 0) × (s2.freed ≡ 30 ∷ []) × (find s2.resource s2.resources 2 ≡ 30)
mutex_put-freed_example = mutex_put-freed table 2 30 refl (omega arith) refl refl

proc_resource_destroy_lem_example :
    let (result, s') = proc_resource_destroy table 1 in
    (result ≡ fails ebusy)
    × (s'.freed ≡ [])
    × ((s'.resource 20).refs ≡ 1)
    × (find s'.resource s'.resources 1 ≡ 0)
proc_resource_destroy_lem_example =
    proc_resource_destroy_lem table 1 20 refl (omega arith) table-Sorted (inl refl) (omega arith)
      (omega arith)
