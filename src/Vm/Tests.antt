-- ===== src/Vm/Tests.antt =====
-- vm/ on concrete inputs.
use phoenix_rtos_kernel.Base.{◌≡◌, refl, none, some, [], ◌∷◌, arith, eok}
use phoenix_rtos_kernel.Vm.SizeIndex.{}
use phoenix_rtos_kernel.Vm.Zone.{Zone, zone_create}
use phoenix_rtos_kernel.Vm.Zone.Check.{}
use phoenix_rtos_kernel.Vm.Zone.FreeList.{IsZone}
use phoenix_rtos_kernel.Vm.Zone.Create.{zone_create_lem, slots}

abbrev blank : Zone
blank = record { blocksz = 0; blocks = 0; used = 0; vaddr = 0; first = 0; pages = none }

zone_create_lem_example :
    let (result, zone', mem') = zone_create blank (λ a. 0) (some 1) (some 4096) 32 4 in
    (result ≡ eok) × IsZone zone' mem' (slots 4096 32 (omega arith) 0 4)
zone_create_lem_example =
    zone_create_lem blank (λ a. 0) 1 4096 32 4 (omega arith) (omega arith) (omega arith)
      (omega arith) (omega arith) (omega arith) (omega arith)

-- Two blocks of 32 bytes at 4096, of which the second is free.
abbrev half : Zone
half = record { blocksz = 32; blocks = 2; used = 1; vaddr = 4096; first = 4128; pages = some 1 }

half-IsZone : IsZone half (λ a. 0) (4128 ∷ [])
half-IsZone = record {
  chain = (refl, omega arith, refl);
  blocks = ((1, omega arith, omega arith), tt, tt);
  counted = refl;
  sized = omega arith;
  narrow = omega arith;
}
