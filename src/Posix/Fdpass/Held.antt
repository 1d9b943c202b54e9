-- ===== src/Posix/Fdpass/Held.antt =====
-- The references that the packs of posix/fdpass.c hold.
use phoenix_rtos_kernel.Base.{
  ℕ, zero, suc, ◌+◌, ◌-◌, ◌<◌, ◌≡◌, ◌≢◌, refl, false, ◌==◌, ==_refl, List, [], ◌∷◌, ltb, leb,
  if◌then◌else◌, upd, is_empty, Bool-cases, inl, inr, arith,
}
use phoenix_rtos_kernel.Posix.Files.{Files, add_open_file, free_slot}
use phoenix_rtos_kernel.Posix.Files.Count.{one}
use phoenix_rtos_kernel.Posix.Files.Calls.{IsCounted, held-IsCounted, file_deref-IsCounted}
use phoenix_rtos_kernel.Posix.Files.Keep.{add_open_file-IsCounted}
use phoenix_rtos_kernel.Posix.Fdpass.{Pack, cmsg_len, length, placed, unpack_loop}

-- The number of entries of a file
abbrev pub packed : Pack → ℕ → ℕ
packed [] f = 0
packed ((g, flags) ∷ es) f = one g f + packed es f

abbrev pub all_packed : List Pack → ℕ → ℕ
all_packed [] f = 0
all_packed (p ∷ packs) f = packed p f + all_packed packs f

-- Every entry has a file.
abbrev pub HasFiles : Pack → Type 0
HasFiles [] = Unit
HasFiles ((g, flags) ∷ es) = (g ≢ 0) × HasFiles es

abbrev pub AllHaveFiles : List Pack → Type 0
AllHaveFiles [] = Unit
AllHaveFiles (p ∷ packs) = HasFiles p × AllHaveFiles packs

-- A file that is in a pack is put into the table or given back.
placed-IsCounted :
    (s : Files) (held : ℕ → ℕ) (f flags : ℕ) (fds : List ℕ)
    → IsCounted s held
    → f ≢ 0
    → 0 < held f
    → IsCounted
        (placed (add_open_file s f flags).0 (add_open_file s f flags).1 f fds).0
        (upd held f (held f - 1))
unfolding add_open_file
placed-IsCounted s held f flags fds ok nz some_held =
    let fd : ℕ = free_slot s.maxfd s.file 0 in
    let added = add_open_file-IsCounted s held ok f flags nz some_held in
    elim (Bool-cases (ltb s.maxfd fd)) [
      | inl e ↦ rw e (file_deref-IsCounted s held ok f nz some_held)
      | inr e ↦ rw e (rw e at added)
    ]

module _ (held : ℕ → ℕ) where
  abbrev pub holding : List Pack → ℕ → ℕ
  holding packs f = held f + all_packed packs f

  abbrev pub left : Pack → List Pack → List Pack
  left es packs = if is_empty es then packs else es ∷ packs

  left-packed :
      (es : Pack) (packs : List Pack) (f : ℕ)
      → all_packed (left es packs) f ≡ packed es f + all_packed packs f
  left-packed [] packs f = omega arith
  left-packed (e ∷ es) packs f = refl

  left-AllHaveFiles :
      (es : Pack) (packs : List Pack)
      → HasFiles es
      → AllHaveFiles packs
      → AllHaveFiles (left es packs)
  left-AllHaveFiles [] packs a b = b
  left-AllHaveFiles (e ∷ es) packs a b = (a, b)

  pub unpack_loop-IsCounted :
      (n : ℕ) (s : Files) (packs : List Pack) (controllen : ℕ) (fds : List ℕ)
      → AllHaveFiles packs
      → IsCounted s (holding packs)
      → let r = unpack_loop n s packs controllen fds in IsCounted r.0 (holding r.1)
  unfolding unpack_loop
  unpack_loop-IsCounted zero s packs controllen fds files ok = ok
  unpack_loop-IsCounted (suc n) s [] controllen fds files ok = ok
  unpack_loop-IsCounted (suc n) s ([] ∷ packs) controllen fds files ok = ok
  unpack_loop-IsCounted (suc n) s (((f, flags) ∷ es) ∷ packs) controllen fds ((nz, fe), fp) ok =
      elim (Bool-cases (leb (cmsg_len (length fds + 1)) controllen)) [
        | inr e ↦ rw e ok
        | inl e ↦
            let before : ℕ → ℕ = holding (((f, flags) ∷ es) ∷ packs) in
            let some_held : 0 < before f = rw (==_refl f) (omega arith) in
            let fd = (add_open_file s f flags).0 in
            let s1 = (add_open_file s f flags).1 in
            let r = placed fd s1 f fds in
            let next = placed-IsCounted s before f flags fds ok nz some_held in
            rw e (
              unpack_loop-IsCounted n r.0 (left es packs) controllen r.1
                (left-AllHaveFiles es packs fe fp)
                (held-IsCounted r.0 (upd before f (before f - 1)) next (holding (left es packs))
                  (λ j jz. elim (Bool-cases (j == f)) [
                    | inl k ↦
                        let same : j ≡ f = ground arith in
                        rw (k, same, ==_refl f) (omega (arith, left-packed es packs f))
                    | inr k ↦
                        let other : (f == j) ≡ false = ground arith in
                        rw (k, other) (omega (arith, left-packed es packs j))
                  ])))
      ]
