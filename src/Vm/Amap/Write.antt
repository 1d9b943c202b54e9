-- ===== src/Vm/Amap/Write.antt =====
-- amap_page: copying on write, and what its failures leave.
use phoenix_rtos_kernel.Base.{
  ℕ, ◌+◌, ◌-◌, ◌/◌, ◌^◌, ◌≤◌, ◌<◌, ◌≡◌, ◌≢◌, refl, ◌∙◌, Bool, true, false, ◌∷◌, ltb, ◌==◌, upd,
  arith, ==_refl,
}
use phoenix_rtos_kernel.Vm.Amap.{
  Store, Given, size_page, set_anon_refs, less_one, amap_page, copy_page, install, anon_new,
  amap_create, lock, unlock, set_entry,
}

-- The entry of the amap at the offset.
abbrev pub entry : Store → ℕ → ℕ → ℕ
entry s m aoffs = (s.amap m).anons (aoffs / size_page)

shared_page :
    (s : Store) (g : Given) (m aoffs : ℕ) (o : Bool)
    → entry s m aoffs ≢ 0
    → 1 < (s.anon (entry s m aoffs)).refs
    → let a = entry s m aoffs in
      amap_page s g m o aoffs true
      ≡ copy_page
          (set_anon_refs (lock (lock s m) a) a (less_one (s.anon a).refs))
          g
          m
          (aoffs / size_page)
          a
          o
          (s.anon a).page
unfolding amap_page
shared_page s g m aoffs o some shared =
    let a : ℕ = entry s m aoffs in
    let there : (a == 0) ≡ false = ground (arith, some) in
    let many : ltb 1 (s.anon a).refs ≡ true = ground (arith, shared) in rw (there, many) refl

copied :
    (s : Store) (g : Given) (m i a : ℕ) (o : Bool) (p : ℕ)
    → a ≢ 0
    → g.maps_source ≡ true
    → g.maps_copy ≡ true
    → g.new_page ≢ 0
    → copy_page s g m i a o p
      ≡ install (record s { data_of = upd s.data_of g.new_page (s.data_of p) }) g m i a g.new_page
unfolding copy_page
copied s g m i a o p some v w np =
    let there : (a == 0) ≡ false = ground (arith, some) in
    let page : (g.new_page == 0) ≡ false = ground (arith, np) in rw (v, w, there, page) refl

-- The state that `install` leaves where there is a new anon.
abbrev with_anon : Store → ℕ → ℕ → ℕ → ℕ → ℕ → Store
with_anon s m i a new p =
    let s1 = unlock s a in
    let s2 = record s1 { anon = upd s1.anon new (record { refs = 1; page = p }) } in
    unlock (set_entry s2 m i new) m

installed :
    (s : Store) (g : Given) (m i a p : ℕ)
    → a ≢ 0
    → g.new_anon ≢ 0
    → install s g m i a p ≡ (p, with_anon s m i a g.new_anon p)
unfolding install anon_new
installed s g m i a p some na =
    let there : (a == 0) ≡ false = ground (arith, some) in
    let object : (g.new_anon == 0) ≡ false = ground (arith, na) in
    rw (there, object) (rw object refl)

-- A write to a page that other amaps share gets a page of its own: with the mappings, the page and the
-- anon that it asks for, `amap_page` returns the new page with a copy of the data, puts a new anon with
-- one reference in place of the shared one, which has one reference less and keeps its page, and
-- leaves no lock set.
pub amap_page-copies :
    (s : Store) (g : Given) (m aoffs : ℕ) (o : Bool)
    → entry s m aoffs ≢ 0
    → 1 < (s.anon (entry s m aoffs)).refs
    → (s.anon (entry s m aoffs)).refs < 2 ^ 32
    → g.maps_source ≡ true
    → g.maps_copy ≡ true
    → g.new_page ≢ 0
    → g.new_anon ≢ 0
    → g.new_anon ≢ entry s m aoffs
    → let a = entry s m aoffs in
      let (p, s') = amap_page s g m o aoffs true in
      (p ≡ g.new_page)
      × (s'.data_of p ≡ s.data_of (s.anon a).page)
      × (entry s' m aoffs ≡ g.new_anon)
      × ((s'.anon g.new_anon).page ≡ p)
      × ((s'.anon g.new_anon).refs ≡ 1)
      × ((s'.anon a).refs ≡ (s.anon a).refs - 1)
      × ((s'.anon a).page ≡ (s.anon a).page)
      × (s'.held ≡ s.held)
amap_page-copies s g m aoffs o some shared room v w np na fresh =
    let a : ℕ = entry s m aoffs in
    let i : ℕ = aoffs / size_page in
    let page : ℕ = (s.anon a).page in
    let s1 : Store = set_anon_refs (lock (lock s m) a) a (less_one (s.anon a).refs) in
    let s2 : Store = record s1 { data_of = upd s1.data_of g.new_page (s1.data_of page) } in
    let other : (a == g.new_anon) ≡ false = ground (arith, fresh) in
    rw
      (shared_page s g m aoffs o some shared
        ∙ copied s1 g m i a o page some v w np
        ∙ installed s2 g m i a g.new_page some na)
      (
        refl,
        rw ==_refl refl,
        rw (==_refl m, entry) (rw (==_refl (aoffs / size_page)) refl),
        rw ==_refl refl,
        rw ==_refl refl,
        rw (other, ==_refl a) (omega (arith, shared, room)),
        rw (other, ==_refl a) refl,
        rw ==_refl (rw ==_refl refl),
      )

-- Where the shared page cannot be mapped for the copy, `amap_page` fails, but the anon has lost a
-- reference all the same while the amap still has it, and its lock stays set.
pub amap_page-unmapped :
    (s : Store) (g : Given) (m aoffs : ℕ) (o : Bool)
    → entry s m aoffs ≢ 0
    → entry s m aoffs ≢ m
    → 1 < (s.anon (entry s m aoffs)).refs
    → (s.anon (entry s m aoffs)).refs < 2 ^ 32
    → g.maps_source ≡ false
    → let a = entry s m aoffs in
      let (p, s') = amap_page s g m o aoffs true in
      (p ≡ 0)
      × (entry s' m aoffs ≡ a)
      × ((s'.anon a).refs ≡ (s.anon a).refs - 1)
      × (s'.held ≡ a ∷ s.held)
unfolding copy_page
amap_page-unmapped s g m aoffs o some differ shared room v =
    let a : ℕ = entry s m aoffs in
    let other : (a == m) ≡ false = ground (arith, differ) in
    rw (shared_page s g m aoffs o some shared)
      (rw v (rw other (refl, refl, rw ==_refl (omega (arith, shared, room)), rw ==_refl refl)))

-- `amap_create` for a part of an amap that others use as well makes an amap of its own with the same
-- anons, in place of one reference to the old.
pub amap_create-shared :
    (s : Store) (m offset size new least i : ℕ)
    → m ≢ 0
    → new ≢ 0
    → new ≢ m
    → 1 < (s.amap m).refs
    → (s.amap m).refs < 2 ^ 32
    → i < size / size_page
    → let (result, s') = amap_create s m offset size new least in
      (result ≡ (new, 0))
      × ((s'.amap new).refs ≡ 1)
      × ((s'.amap new).anons i ≡ (s.amap m).anons (offset / size_page + i))
      × ((s'.amap m).refs ≡ (s.amap m).refs - 1)
      × (size / size_page ≤ (s'.amap new).size)
unfolding amap_create
amap_create-shared s m offset size new least i nz nn fresh many room inside =
    let there : (m == 0) ≡ false = ground (arith, nz) in
    let object : (new == 0) ≡ false = ground (arith, nn) in
    let more : ((s.amap m).refs == 1) ≡ false = ground (arith, many) in
    let within : ltb i (size / size_page) ≡ true = ground (arith, inside) in
    let other : (m == new) ≡ false = ground (arith, fresh) in
    rw (there, object, more)
      (
        refl,
        rw ==_refl refl,
        rw ==_refl (rw within refl),
        rw other (rw ==_refl (omega (arith, many, room))),
        rw ==_refl (ground arith),
      )
