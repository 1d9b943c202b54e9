-- ===== src/Vm/Amap.antt =====
-- vm/amap.c: the maps of anonymous pages, shared between processes until one writes. An `anon_t *`,
-- an `amap_t *` and a `page_t *` are numbers, 0 for NULL; `SIZE_PAGE` is 4096, and what a page holds
-- is one value. What the code gets from elsewhere is an argument: the results of `vm_kmalloc`,
-- `vm_pageAlloc`, `vm_mmap` and `vm_objectPage`. `freed` has the objects and `freed_pages` the pages
-- that were given back; `held` has the locks, of amaps and anons, that are set.
mod Tests
pub mod Share
pub mod Write
use phoenix_rtos_kernel.Base.{
  ℕ, zero, suc, ◌+◌, ◌-◌, ◌*◌, ◌/◌, ◌%◌, ◌^◌, Bool, true, false, ◌&&◌, ◌||◌, not, List, [], ◌∷◌,
  ltb, ◌==◌, if◌then◌else◌, upd, list_remove,
}

pub record Anon : Type 0 where
  pub refs : ℕ
  pub page : ℕ

pub record Amap : Type 0 where
  pub size : ℕ
  pub refs : ℕ
  pub anons : ℕ → ℕ

pub record Store : Type 0 where
  pub anon : ℕ → Anon
  pub amap : ℕ → Amap
  pub data_of : ℕ → ℕ
  pub freed : List ℕ
  pub freed_pages : List ℕ
  pub held : List ℕ

abbrev pub size_page : ℕ
size_page = 4096

abbrev pub lock : Store → ℕ → Store
lock s x = record s { held = x ∷ s.held }

abbrev pub unlock : Store → ℕ → Store
unlock s x = record s { held = list_remove s.held x }

abbrev pub set_anon_refs : Store → ℕ → ℕ → Store
set_anon_refs s a n = let v = s.anon a in record s { anon = upd s.anon a (record v { refs = n }) }

abbrev pub set_amap_refs : Store → ℕ → ℕ → Store
set_amap_refs s m n = let v = s.amap m in record s { amap = upd s.amap m (record v { refs = n }) }

abbrev pub set_entry : Store → ℕ → ℕ → ℕ → Store
set_entry s m i a =
    let v = s.amap m in record s { amap = upd s.amap m (record v { anons = upd v.anons i a }) }

-- `--x`, on an int that is read as an unsigned
abbrev pub less_one : ℕ → ℕ
less_one n = (n + 2 ^ 32 - 1) % 2 ^ 32

-- amap_putanon
pub amap_put_anon : Store → ℕ → Store
amap_put_anon s a =
    let n = less_one (s.anon a).refs in
    let s' = set_anon_refs s a n in
    if a == 0
    then s
    else if n == 0
    then record s' { freed = a ∷ s'.freed; freed_pages = (s.anon a).page ∷ s'.freed_pages }
    else s'

-- amap_getanon
pub amap_get_anon : Store → ℕ → Store
amap_get_anon s a = if a == 0 then s else set_anon_refs s a (((s.anon a).refs + 1) % 2 ^ 32)

-- The loops of amap_putanons and amap_getanons, from `i` on by the number of rounds left
pub put_loop : ℕ → Store → ℕ → ℕ → Store
put_loop zero s m i = s
put_loop (suc n) s m i = put_loop n (amap_put_anon s ((s.amap m).anons i)) m (i + 1)

pub get_loop : ℕ → Store → ℕ → ℕ → Store
get_loop zero s m i = s
get_loop (suc n) s m i = get_loop n (amap_get_anon s ((s.amap m).anons i)) m (i + 1)

abbrev pub entries : ℕ → ℕ → ℕ
entries offset size = (offset + size) / size_page - offset / size_page

pub amap_put_anons : Store → ℕ → ℕ → ℕ → Store
amap_put_anons s m offset size =
    if m == 0 then s else put_loop (entries offset size) s m (offset / size_page)

pub amap_get_anons : Store → ℕ → ℕ → ℕ → Store
amap_get_anons s m offset size =
    if m == 0 then s else get_loop (entries offset size) s m (offset / size_page)

pub amap_ref : Store → ℕ → ℕ × Store
amap_ref s m = if m == 0 then (0, s) else (m, set_amap_refs s m (((s.amap m).refs + 1) % 2 ^ 32))

-- `(512 - sizeof(amap_t)) / sizeof(anon_t *)`, a constant of the port
abbrev pub chunk : ℕ → ℕ → ℕ
chunk least wanted = if ltb wanted least then least else wanted

-- amap_create; `new` is what `vm_kmalloc` returns and `least` the least number of entries. The result
-- is the amap and `*offset`.
pub amap_create : Store → ℕ → ℕ → ℕ → ℕ → ℕ → (ℕ × ℕ) × Store
amap_create s m offset size new least =
    let s1 = if m == 0 then s else set_amap_refs s m (less_one (s.amap m).refs) in
    let first = offset / size_page in
    let window = λ (i : ℕ).
      if ltb i (size / size_page) && not (m == 0) then (s.amap m).anons (first + i) else 0 in
    if not (m == 0) && (s.amap m).refs == 1
    then ((m, offset), s)
    else if new == 0
    then ((0, offset), s1)
    else (
      (new, 0),
      record s1 {
        amap =
            upd s1.amap new
              (record { size = chunk least (size / size_page); refs = 1; anons = window });
      },
    )

pub amap_put : Store → ℕ → Store
amap_put s m =
    let n = less_one (s.amap m).refs in
    let s' = set_amap_refs s m n in
    if m == 0 then s else if n == 0 then record s' { freed = m ∷ s'.freed } else s'

clear_loop : ℕ → Store → ℕ → ℕ → Store
clear_loop zero s m i = s
clear_loop (suc n) s m i = clear_loop n (set_entry s m i 0) m (i + 1)

pub amap_clear : Store → ℕ → ℕ → ℕ → Store
unfolding clear_loop
amap_clear s m offset size = clear_loop (entries offset size) s m (offset / size_page)

-- anon_new; `new` is what `vm_kmalloc` returns.
pub anon_new : Store → ℕ → ℕ → ℕ × Store
anon_new s new p =
    if new == 0
    then (0, s)
    else (new, record s { anon = upd s.anon new (record { refs = 1; page = p }) })

-- What amap_page gets from elsewhere: the page of the object (0 for none), whether the amap is still
-- there after that, whether the first and the second mapping succeed, the page from `vm_pageAlloc`
-- and the anon from `vm_kmalloc` (0 for none).
pub record Given : Type 0 where
  pub object_page : ℕ
  pub amap_left : Bool
  pub maps_source : Bool
  pub maps_copy : Bool
  pub new_page : ℕ
  pub new_anon : ℕ

-- The end of amap_page: the new anon with the page `p`.
pub install : Store → Given → ℕ → ℕ → ℕ → ℕ → ℕ × Store
unfolding anon_new
install s g m i a p =
    let s1 = if a == 0 then s else unlock s a in
    let (new, s2) = anon_new s1 g.new_anon p in
    let s3 = set_entry s2 m i new in
    if new == 0
    then (0, unlock (record s3 { freed_pages = p ∷ s3.freed_pages }) m)
    else (p, unlock s3 m)

-- amap_page from the mapping of the page `p` on; `o` tells whether there is an object.
pub copy_page : Store → Given → ℕ → ℕ → ℕ → Bool → ℕ → ℕ × Store
unfolding install
copy_page s g m i a o p =
    if not g.maps_source
    then (0, unlock s m)
    else if not (a == 0) || o
    then (if g.new_page == 0
        then (0, unlock s m)
        else if not g.maps_copy
        then (0, unlock (record s { freed_pages = g.new_page ∷ s.freed_pages }) m)
        else install (record s { data_of = upd s.data_of g.new_page (s.data_of p) }) g m i a
            g.new_page)
    else install (record s { data_of = upd s.data_of p 0 }) g m i a p

-- amap_page; `writes` is `prot & PROT_WRITE`.
pub amap_page : Store → Given → ℕ → Bool → ℕ → Bool → ℕ × Store
unfolding copy_page
amap_page s0 g m o aoffs writes =
    let s = lock s0 m in
    let i = aoffs / size_page in
    let a = (s.amap m).anons i in
    let sa = lock s a in
    if not (a == 0)
    then (if not (ltb 1 (s.anon a).refs && writes)
        then ((s.anon a).page, unlock (unlock sa a) m)
        else copy_page (set_anon_refs sa a (less_one (s.anon a).refs)) g m i a o (s.anon a).page)
    else if g.object_page == 0
    then (0, if g.amap_left then unlock s m else s)
    else if o && not writes
    then (g.object_page, unlock s m)
    else copy_page s g m i 0 o g.object_page
