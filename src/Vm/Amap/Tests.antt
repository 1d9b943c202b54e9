-- ===== src/Vm/Amap/Tests.antt =====
-- vm/amap.c on concrete inputs.
use phoenix_rtos_kernel.Base.{◌≡◌, refl, true, false, [], ◌∷◌, ◌==◌, if◌then◌else◌, arith}
use phoenix_rtos_kernel.Vm.Amap.{Store, Given, amap_page}
use phoenix_rtos_kernel.Vm.Amap.Share.{}
use phoenix_rtos_kernel.Vm.Amap.Write.{entry, amap_page-copies, amap_page-unmapped}

-- The amaps 7 and 8 share the anon 20 of the page 50, which holds 99, as the second of their entries.
abbrev shared : Store
shared = record {
  anon = λ a. record { refs = 2; page = 50 };
  amap = λ m. record { size = 4; refs = 1; anons = λ i. if i == 1 then 20 else 0 };
  data_of = λ p. if p == 50 then 99 else 0;
  freed = [];
  freed_pages = [];
  held = [];
}

abbrev given : Given
given = record {
  object_page = 0;
  amap_left = true;
  maps_source = true;
  maps_copy = true;
  new_page = 60;
  new_anon = 30;
}

abbrev no_maps : Given
no_maps = record given { maps_source = false }

amap_page-copies_example :
    let (p, s') = amap_page shared given 7 false 4096 true in
    (p ≡ 60)
    × (s'.data_of p ≡ 99)
    × (entry s' 7 4096 ≡ 30)
    × ((s'.anon 30).page ≡ p)
    × ((s'.anon 30).refs ≡ 1)
    × ((s'.anon 20).refs ≡ 1)
    × ((s'.anon 20).page ≡ 50)
    × (s'.held ≡ [])
amap_page-copies_example =
    amap_page-copies shared given 7 4096 false (omega arith) (omega arith) (omega arith) refl refl
      (omega arith) (omega arith) (omega arith)

amap_page-unmapped_example :
    let (p, s') = amap_page shared no_maps 7 false 4096 true in
    (p ≡ 0) × (entry s' 7 4096 ≡ 20) × ((s'.anon 20).refs ≡ 1) × (s'.held ≡ 20 ∷ [])
amap_page-unmapped_example =
    amap_page-unmapped shared no_maps 7 4096 false (omega arith) (omega arith) (omega arith)
      (omega arith) refl

-- The amap 9 has two references.
abbrev twice : Store
twice = record shared {
  amap = λ m. record { size = 4; refs = 2; anons = λ i. if i == 1 then 20 else 0 };
}
