-- ===== src/Klib/Clist.antt =====
-- lib/list.c: circular lists threaded through the `next` and `prev` fields of their elements.
-- `noff` and `poff` choose the two fields, so the model has one store of them; 0 is NULL.
pub mod Ring
pub mod Remove
pub mod Add
use phoenix_rtos_kernel.Base.{ℕ, ◌==◌, Bool, ◌&&◌, if◌then◌else◌}

pub record Links : Type 0 where
  pub next : ℕ → ℕ
  pub prev : ℕ → ℕ

abbrev pub update : (ℕ → ℕ) → ℕ → ℕ → ℕ → ℕ
update f p v q = if q == p then v else f q

-- The new store, and the new `*list`.
pub list_add : Links → ℕ → ℕ → Links × ℕ
list_add s list t =
    if t == 0
    then (s, list)
    else if list == 0
    then (record s { next = update s.next t t; prev = update s.prev t t }, t)
    else let last = s.prev list in
      let p1 = update s.prev t last in
      let n1 = update s.next (p1 list) t in
      let n2 = update n1 t list in (record s { next = n2; prev = update p1 list t }, list)

-- The part of a removal that unlinks `t`.
list_unlink : Links → ℕ → ℕ → Links × ℕ
list_unlink s list t =
    let n1 = update s.next (s.prev t) (s.next t) in
    let p1 = update s.prev (n1 t) (s.prev t) in
    (record s { next = n1; prev = p1 }, if t == list then n1 t else list)

pub list_remove : Links → ℕ → ℕ → Links × ℕ
unfolding list_unlink
list_remove s list t =
    if t == 0
    then (s, list)
    else let (s', list') =
        if s.next t == t && s.prev t == t then (s, 0) else list_unlink s list t in
      (record s' { next = update s'.next t 0; prev = update s'.prev t 0 }, list')
