-- ===== src/Klib/Strtoul/Scan.antt =====
-- What lib_strtoul and lib_strtol read, against a description of numerals that is not the code's.
use Prim.Native.Nat.{}
use phoenix_rtos_kernel.Base.{
  ℕ, zero, suc, ◌+◌, ◌-◌, ◌*◌, ◌/◌, ◌%◌, ◌^◌, ◌<◌, ◌≡◌, refl, ap, Bool, true, false, ◌&&◌, Option,
  none, some, List, [], ◌∷◌, ltb, leb, ◌==◌, if◌then◌else◌, drop, arith,
}
use phoenix_rtos_kernel.Klib.Strtoul.{
  strtoul_isalnum, digit, strtoul_loop, lib_strtoul, lib_strtol, skip_prefix,
}

-- The value of a character as a digit, 0 to 9, then a to z in either case.
abbrev pub digit_value : ℕ → Option ℕ
digit_value c =
    if leb b'0' c && leb c b'9'
    then some (c - b'0')
    else if leb b'a' c && leb c b'z'
    then some (c - b'a' + 10)
    else if leb b'A' c && leb c b'Z'
    then some (c - b'A' + 10)
    else none

abbrev coded : ℕ → Option ℕ
coded c = if strtoul_isalnum c then some (digit c) else none

abbrev same : Option ℕ → Option ℕ → Bool
same none none = true
same none (some b) = false
same (some a) none = false
same (some a) (some b) = a == b

same_sound : (a b : Option ℕ) → same a b ≡ true → a ≡ b
same_sound none none h = refl
same_sound none (some b) h = ground arith
same_sound (some a) none h = ground arith
same_sound (some a) (some b) h = ground arith

-- Does the code agree with `digit_value` on the bytes below `n`?
agrees : ℕ → Bool
agrees zero = true
agrees (suc c) = if same (coded c) (digit_value c) then agrees c else false

agrees-same : (c n : ℕ) → c < n → agrees n ≡ true → same (coded c) (digit_value c) ≡ true
unfolding agrees
agrees-same c zero less all = absurd (omega arith)
agrees-same c (suc n) less all = ground (arith, λ (l : c < n). agrees-same c n l)

all_agree : agrees 256 ≡ true
unfolding agrees strtoul_isalnum digit
all_agree = refl

-- On every byte, the test and the arithmetic of the code give the digit's value.
digit_lem : (c : ℕ) → c < 256 → (if strtoul_isalnum c then some (digit c) else none) ≡ digit_value c
digit_lem c h = same_sound (coded c) (digit_value c) (agrees-same c 256 h all_agree)

-- The longest prefix of digits below the base, by its value, and what follows.
pub scan : ℕ → List ℕ → ℕ → ℕ × List ℕ
scan base [] v = (v, [])
scan base (c ∷ s) v = elim (digit_value c) [
  | none ↦ (v, c ∷ s)
  | some d ↦ if ltb d base then scan base s (v * base + d) else (v, c ∷ s)
]

abbrev pub AllBytes : List ℕ → Type 0
AllBytes [] = Unit
AllBytes (c ∷ s) = (c < 256) × AllBytes s

wrap_step : (v base d : ℕ) → (v % 2 ^ 32 * base + d) % 2 ^ 32 ≡ (v * base + d) % 2 ^ 32
wrap_step v base d =
    let parts : v ≡ v % 2 ^ 32 + 2 ^ 32 * (v / 2 ^ 32) = omega arith in
    omega (arith, ap (λ (x : ℕ). x * base) parts)

-- The loop of the code scans, with the value taken modulo 2^32.
loop-scan :
    (base : ℕ) (s : List ℕ) (v : ℕ)
    → AllBytes s
    → strtoul_loop base s (v % 2 ^ 32) ≡ ((scan base s v).0 % 2 ^ 32, (scan base s v).1)
unfolding strtoul_loop scan
loop-scan base [] v h = refl
loop-scan base (c ∷ s) v h = ground (
  arith,
  digit_lem c h.0,
  wrap_step v base (digit c),
  ap (λ (x : ℕ). strtoul_loop base s x) (wrap_step v base (digit c)),
  loop-scan base s (v * base + digit c) h.1,
)

AllBytes-drop : (n : ℕ) (s : List ℕ) → AllBytes s → AllBytes (drop n s)
AllBytes-drop zero s h = h
AllBytes-drop (suc n) [] h = h
AllBytes-drop (suc n) (c ∷ s) h = AllBytes-drop n s h.1

AllBytes-skip : (base : ℕ) (s : List ℕ) → AllBytes s → AllBytes (skip_prefix base s)
AllBytes-skip base s h = ground (arith, AllBytes-drop 2 s h)

-- `lib_strtoul` returns the value, modulo 2^32, of the longest run of digits below `base` with which
-- the string starts, behind `0x` where the base is 16; letters of either case are digits. It stores
-- the rest of the string through `endptr`, but only where `*endptr` was not NULL before the call.
pub strtoul_lem :
    (base : ℕ) (s : List ℕ) (endptr : Option (List ℕ))
    → AllBytes s
    → let (v, rest) = scan base (skip_prefix base s) 0 in
      lib_strtoul s endptr base ≡ (v % 2 ^ 32, elim endptr [ none ↦ none | some e ↦ some rest ])
unfolding lib_strtoul
strtoul_lem base s endptr h =
    ground (arith, loop-scan base (skip_prefix base s) 0 (AllBytes-skip base s h))

-- Behind a leading minus sign, `lib_strtol` returns the negative, modulo 2^32, of the value of the
-- longest run of digits.
pub strtol_lem :
    (base : ℕ) (s : List ℕ) (endptr : Option (List ℕ))
    → AllBytes s
    → ((lib_strtol (b'-' ∷ s) endptr base).0 + (scan base (skip_prefix base s) 0).0) % 2 ^ 32 ≡ 0
unfolding lib_strtol
strtol_lem base s endptr h = ground (arith, strtoul_lem base s endptr h)
