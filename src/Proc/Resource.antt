-- ===== src/Proc/Resource.antt =====
-- proc/resource.c: the handles of a process and their reference counts, with the release of each kind
-- from proc/mutex.c, proc/cond.c and proc/userintr.c. A `resource_t *`, and the object it lies in, is
-- a number, 0 for NULL; the tree of a process is the list of its resources in the order of their
-- ids. What `vm_kfree` has been given is kept, so that a use after it can be told. Locks are held
-- throughout; the search for a free id, `_resource_alloc`, is an argument: the id that it returns, 0
-- for none. Interrupt handlers are installed and removed in hal/, outside the state.
mod Tests
pub mod Find
pub mod Refs
use phoenix_rtos_kernel.Base.{
  ℕ, zero, suc, ◌+◌, ◌-◌, ◌%◌, ◌^◌, Bool, true, false, ◌&&◌, List, [], ◌∷◌, ltb, ◌==◌,
  if◌then◌else◌, upd, list_remove, Result, eok, fails, einval, ebusy, is_empty, length,
}

pub data Kind : Type 0 where
  rt_lock rt_cond rt_file rt_inth : Kind

abbrev pub same_kind : Kind → Kind → Bool
same_kind rt_lock rt_lock = true
same_kind rt_cond rt_cond = true
same_kind rt_file rt_file = true
same_kind rt_inth rt_inth = true
same_kind _ _ = false

-- `id` is a field of 28 bits, so ids and the handles that are looked for are below 2 ^ 28.
pub record Resource : Type 0 where
  pub refs : ℕ
  pub kind : Kind
  pub id : ℕ

-- A process's tree, the resources themselves, the condition variable of each interrupt handler, and
-- what has been freed.
pub record Table : Type 0 where
  pub resources : List ℕ
  pub resource : ℕ → Resource
  pub cond : ℕ → ℕ
  pub freed : List ℕ

-- `lib_rbFind(&process->resources, ...)`
abbrev pub find : (ℕ → Resource) → List ℕ → ℕ → ℕ
find f [] id = 0
find f (r ∷ rs) id = if (f r).id == id then r else find f rs id

-- `lib_rbInsert(&process->resources, ...)`, which refuses an id that is there
abbrev pub insert : (ℕ → Resource) → ℕ → List ℕ → List ℕ
insert f r [] = r ∷ []
insert f r (x ∷ xs) =
    if (f x).id == (f r).id
    then x ∷ xs
    else if ltb (f r).id (f x).id
    then r ∷ x ∷ xs
    else x ∷ insert f r xs

abbrev pub set_refs : Table → ℕ → ℕ → Table
set_refs s r n =
    let v = s.resource r in record s { resource = upd s.resource r (record v { refs = n }) }

-- resource_alloc, with its result; `id` is what `_resource_alloc` returns
unfoldable pub resource_alloc : Table → ℕ → Kind → ℕ → ℕ × Table
resource_alloc s r kind id =
    let f = upd s.resource r (record { refs = 2; kind = kind; id = id }) in
    (id, record s { resource = f; resources = insert f r s.resources })

pub resource_get : Table → Kind → ℕ → ℕ × Table
resource_get s kind id =
    let r = find s.resource s.resources id in
    if r == 0
    then (0, s)
    else if same_kind (s.resource r).kind kind
    then (r, set_refs s r (((s.resource r).refs + 1) % 2 ^ 32))
    else (r, s)

-- resource_put, with the number of references left
unfoldable pub resource_put : Table → ℕ → ℕ × Table
resource_put s r = let n = ((s.resource r).refs + 2 ^ 32 - 1) % 2 ^ 32 in (n, set_refs s r n)

pub resource_unlink : Table → ℕ → Table
unfolding resource_put
resource_unlink s r =
    let s' = (resource_put s r).1 in record s' { resources = list_remove s'.resources r }

pub resource_remove : Table → ℕ → ℕ × Table
resource_remove s id =
    let r = find s.resource s.resources id in
    if r == 0 then (0, s) else (r, record s { resources = list_remove s.resources r })

pub resource_remove_next : Table → ℕ × Table
resource_remove_next s = elim s.resources [
  | [] ↦ (0, s)
  | r ∷ rs ↦ (r, record s { resources = rs })
]

-- mutex_put and cond_put
pub object_put : Table → ℕ → ℕ × Table
unfolding resource_put
object_put s r =
    let (n, s') = resource_put s r in
    if n == 0 then (n, record s' { freed = r ∷ s'.freed }) else (n, s')

pub userintr_put : Table → ℕ → ℕ × Table
unfolding object_put resource_put
userintr_put s r =
    let (n, s') = resource_put s r in
    if n == 0
    then (let s2 = if s'.cond r == 0 then s' else (object_put s' (s'.cond r)).1 in
        (n, record s2 { freed = r ∷ s2.freed }))
    else (n, s')

-- proc_resourcePut; `none_left` is the result without a case for the kind, -EINVAL, as an unsigned int
abbrev none_left : ℕ
none_left = 2 ^ 32 - 22

pub proc_resource_put : Table → ℕ → ℕ × Table
proc_resource_put s r = elim (s.resource r).kind [
  | rt_lock ↦ object_put s r
  | rt_cond ↦ object_put s r
  | rt_file ↦ (none_left, s)
  | rt_inth ↦ userintr_put s r
]

pub proc_resource_destroy : Table → ℕ → Result × Table
unfolding resource_remove
proc_resource_destroy s id =
    let (r, s1) = resource_remove s id in
    if r == 0
    then (fails einval, s1)
    else let (n, s2) = proc_resource_put s1 r in if n == 0 then (eok, s2) else (fails ebusy, s2)

-- The loop of proc_resourcesDestroy; each round takes the first resource off the tree.
resources_loop : ℕ → Table → Table
resources_loop zero s = s
resources_loop (suc fuel) s =
    let (r, s') = resource_remove_next s in
    let rest = resources_loop fuel (proc_resource_put s' r).1 in if r == 0 then s' else rest

pub proc_resources_destroy : Table → Table
unfolding resources_loop
proc_resources_destroy s = resources_loop (length s.resources) s
