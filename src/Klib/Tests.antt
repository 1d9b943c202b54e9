-- ===== src/Klib/Tests.antt =====
-- lib/ on concrete inputs.
use Prim.Native.Nat.{Ordering, compare}
use phoenix_rtos_kernel.Base.{
  ℕ, ◌+◌, ◌%◌, ◌^◌, ◌≡◌, refl, false, some, List, [], ◌∷◌, ◌++◌, take, drop, arith, ◌==◌,
  if◌then◌else◌,
}
use phoenix_rtos_kernel.Klib.Cbuffer.{Cbuffer, write, read}
use phoenix_rtos_kernel.Klib.Cbuffer.Content.{IsValid, contents}
use phoenix_rtos_kernel.Klib.Cbuffer.Fifo.{write_lem}
use phoenix_rtos_kernel.Klib.Cbuffer.Take.{read_lem}
use phoenix_rtos_kernel.Klib.Strtoul.{lib_strtoul, skip_prefix}
use phoenix_rtos_kernel.Klib.Strtoul.Scan.{scan, strtoul_lem, AllBytes}
use phoenix_rtos_kernel.Klib.Bsearch.{}
use phoenix_rtos_kernel.Klib.Bsearch.Correct.{IsOrdered}
use phoenix_rtos_kernel.Klib.Clist.{Links, list_remove}
use phoenix_rtos_kernel.Klib.Clist.Ring.{IsRing}
use phoenix_rtos_kernel.Klib.Clist.Add.{}
use phoenix_rtos_kernel.Klib.Clist.Remove.{list_remove_lem}

-- A ring of four bytes that holds 7, 8 and 9 round the end of its storage.
abbrev wrapped : Cbuffer
wrapped = record { sz = 4; r = 2; w = 1; full = false; bytes = 9 ∷ 0 ∷ 7 ∷ 8 ∷ [] }

wrapped-IsValid : IsValid wrapped 2
wrapped-IsValid = record {
  size = refl;
  size_pos = omega arith;
  small = omega arith;
  store = refl;
  r_in = omega arith;
  w_in = omega arith;
  meet = λ e. ground arith;
}

write_lem_example :
    ((write wrapped (1 ∷ 2 ∷ [])).0 ≡ 1)
    × (contents (write wrapped (1 ∷ 2 ∷ [])).1 ≡ contents wrapped ++ (1 ∷ []))
    × IsValid (write wrapped (1 ∷ 2 ∷ [])).1 2
write_lem_example = write_lem (1 ∷ 2 ∷ []) wrapped-IsValid

read_lem_example :
    ((read wrapped 2).1 ≡ 2)
    × ((read wrapped 2).0 ≡ take 2 (contents wrapped))
    × (contents (read wrapped 2).2 ≡ drop 2 (contents wrapped))
    × IsValid (read wrapped 2).2 2
read_lem_example = read_lem 2 wrapped-IsValid

abbrev hollow : Cbuffer
hollow = record { sz = 4; r = 2; w = 2; full = false; bytes = 9 ∷ 0 ∷ 7 ∷ 8 ∷ [] }

hollow-IsValid : IsValid hollow 2
hollow-IsValid = record {
  size = refl;
  size_pos = omega arith;
  small = omega arith;
  store = refl;
  r_in = omega arith;
  w_in = omega arith;
  meet = λ e. refl;
}

-- "0x1fz"
abbrev hexadecimal : List ℕ
hexadecimal = b'0' ∷ b'x' ∷ b'1' ∷ b'f' ∷ b'z' ∷ []

hexadecimal-AllBytes : AllBytes hexadecimal
hexadecimal-AllBytes = (omega arith, (omega arith, (omega arith, (omega arith, (omega arith, tt)))))

strtoul_lem_example :
    let (v, rest) = scan 16 (skip_prefix 16 hexadecimal) 0 in
    lib_strtoul hexadecimal (some []) 16 ≡ (v % 2 ^ 32, some rest)
strtoul_lem_example = strtoul_lem 16 hexadecimal (some []) hexadecimal-AllBytes

-- The key 6 in 2, 4, 6.
abbrev probe : ℕ → Ordering
probe i = compare 3 (i + 1)

probe-IsOrdered : IsOrdered probe 3
probe-IsOrdered = record { above = λ i j l b e. ground arith; below = λ i j l b e. ground arith }

-- The list of 5 and 6.
abbrev pair : Links
pair = record {
  next = λ t. if t == 5 then 6 else if t == 6 then 5 else 0;
  prev = λ t. if t == 5 then 6 else if t == 6 then 5 else 0;
}

pair-IsRing : IsRing pair 5 (5 ∷ 6 ∷ [])
pair-IsRing =
    (refl, (omega arith, (omega arith, tt), (omega arith, tt, tt)), (refl, refl, (refl, refl)))

list_remove_lem_example :
    IsRing (list_remove pair 5 5).0 (list_remove pair 5 5).1 (6 ∷ [])
    × ((list_remove pair 5 5).0.next 5 ≡ 0)
    × ((list_remove pair 5 5).0.prev 5 ≡ 0)
list_remove_lem_example = list_remove_lem pair 5 [] 5 (6 ∷ []) pair-IsRing
