-- ===== src/Klib/Strtoul.antt =====
-- lib/strtoul.c and lib/rand.c. A C string is the list of its bytes from the pointer on; past the
-- list stands the terminating NUL. `char` is compared as a byte: no byte above 127 is alphanumeric.
pub mod Scan
use phoenix_rtos_kernel.Base.{
  ℕ, zero, suc, ◌+◌, ◌-◌, ◌*◌, ◌/◌, ◌%◌, ◌^◌, Bool, true, false, ◌&&◌, ◌||◌, Option, none, some,
  List, [], ◌∷◌, bit_and, bit_or, ltb, leb, ◌==◌, if◌then◌else◌, get_or, drop,
}

-- `c & ~0x20`, on a byte
abbrev clear_case : ℕ → ℕ
clear_case c = c - bit_and c 0x20

pub strtoul_isalnum : ℕ → Bool
strtoul_isalnum c =
    if leb b'0' c && leb c b'9' then true else let c = clear_case c in leb b'A' c && leb c b'Z'

-- `t` of the loop, an unsigned int
pub digit : ℕ → ℕ
digit c = let t = (c + 2 ^ 32 - b'0') % 2 ^ 32 in if ltb 9 t then bit_or c 0x20 - b'a' + 10 else t

-- The loop, from the rest of the string and `v`.
strtoul_loop : ℕ → List ℕ → ℕ → ℕ × List ℕ
strtoul_loop base [] v = (v, [])
strtoul_loop base (c ∷ s) v =
    if strtoul_isalnum c
    then if leb base (digit c)
      then (v, c ∷ s)
      else strtoul_loop base s ((v * base + digit c) % 2 ^ 32)
    else (v, c ∷ s)

-- `nptr` behind the prefix that a hexadecimal number may have
abbrev pub skip_prefix : ℕ → List ℕ → List ℕ
skip_prefix base s =
    if base == 16 && get_or s 0 0 == b'0' && get_or s 1 0 == b'x' then drop 2 s else s

-- The second argument is `*endptr` before the call (`none` for NULL), and the second result is
-- `*endptr` after it.
pub lib_strtoul : List ℕ → Option (List ℕ) → ℕ → ℕ × Option (List ℕ)
unfolding strtoul_loop strtoul_isalnum digit
lib_strtoul nptr endptr base =
    let (v, rest) = strtoul_loop base (skip_prefix base nptr) 0 in
    (v, elim endptr [ none ↦ none | some e ↦ some rest ])

-- The product of -1 and an unsigned int.
abbrev negated : ℕ × Option (List ℕ) → ℕ × Option (List ℕ)
negated (v, e) = ((2 ^ 32 - v) % 2 ^ 32, e)

-- The result of `sign * lib_strtoul(...)`, an unsigned product read as an int: its 32 bits.
pub lib_strtol : List ℕ → Option (List ℕ) → ℕ → ℕ × Option (List ℕ)
unfolding lib_strtoul
lib_strtol nptr endptr base =
    if get_or nptr 0 0 == b'-'
    then negated (lib_strtoul (drop 1 nptr) endptr base)
    else lib_strtoul nptr endptr base

-- The new seed, and the result.
pub lib_rand : ℕ → ℕ × ℕ
lib_rand seed = let s = (seed * 1103515245 + 12345) % 2 ^ 32 in (s, s / 2)
