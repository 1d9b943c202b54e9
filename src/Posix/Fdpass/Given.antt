-- ===== src/Posix/Fdpass/Given.antt =====
-- What fdpass_unpack of posix/fdpass.c does with the files of packs.
use mathlib.Core.Path.{subst}
use mathlib.Core.List.{append_assoc, append-nil}
use phoenix_rtos_kernel.Base.{
  ℕ, zero, suc, ◌+◌, ◌≤◌, ◌<◌, ◌≡◌, ◌≢◌, ◌⊎◌, inl, inr, refl, ap, sym, ◌∙◌, Bool, true, false, List,
  [], ◌∷◌, ◌++◌, ◌==◌, ==_refl, ltb, leb, list_add, Bool-cases, arith,
}
use phoenix_rtos_kernel.Posix.Files.{Files, add_open_file, free_slot}
use phoenix_rtos_kernel.Posix.Files.Slot.{free_slot_lem}
use phoenix_rtos_kernel.Posix.Files.Loops.{file_deref-keeps}
use phoenix_rtos_kernel.Posix.Fdpass.{Pack, cmsg_len, length, entries, placed, unpack_loop}
use phoenix_rtos_kernel.Posix.Fdpass.Held.{HasFiles, AllHaveFiles, left}

-- The entries of all packs, in order
abbrev pub flat : List Pack → Pack
flat [] = []
flat ([] ∷ ps) = flat ps
flat ((e ∷ es) ∷ ps) = e ∷ flat (es ∷ ps)

-- No descriptor is free.
abbrev pub IsFull : Files → Type 0
IsFull s = (fd : ℕ) → fd ≤ s.maxfd → s.file fd ≢ 0

-- From the first entries to the last, in the table of a state: each file that is taken has the next one
-- of the descriptors, with its flags, or it has none, and then the table is full.
pub data Unpacked (s : Files) : Pack → List ℕ → Pack → Type 0 where
  stops : (es : Pack) → Unpacked s es [] es
  gives :
      (f flags fd : ℕ) (es : Pack) (fds : List ℕ) (rest : Pack)
      → fd ≤ s.maxfd
      → s.file fd ≡ f
      → s.flags fd ≡ flags
      → Unpacked s es fds rest
      → Unpacked s ((f, flags) ∷ es) (fd ∷ fds) rest
  returns :
      (f flags : ℕ) (es : Pack) (fds : List ℕ) (rest : Pack)
      → IsFull s
      → Unpacked s es fds rest
      → Unpacked s ((f, flags) ∷ es) fds rest

-- The descriptors that are in use stay as they are.
abbrev pub Stays : Files → Files → Type 0
Stays s s' =
    (s'.maxfd ≡ s.maxfd)
    × ((fd : ℕ) → s.file fd ≢ 0 → (s'.file fd ≡ s.file fd) × (s'.flags fd ≡ s.flags fd))

Stays-refl : (s : Files) → Stays s s
Stays-refl s = (refl, λ fd h. (refl, refl))

Stays-trans : (s s1 s2 : Files) → Stays s s1 → Stays s1 s2 → Stays s s2
Stays-trans s s1 s2 (m, a) (m', b) = (
  m' ∙ m,
  λ fd h. (let (f, g) = a fd h in let (f', g') = b fd (λ z. h (sym f ∙ z)) in (f' ∙ f, g' ∙ g)),
)

-- The first round: the file has a descriptor now, or the table is full.
abbrev Placed : Files → ℕ → ℕ → List ℕ → Files × List ℕ → Type 0
Placed s f flags fds r =
    Stays s r.0
    × (((fd : ℕ) × (r.1 ≡ list_add fds fd)
          × (fd ≤ s.maxfd)
          × (r.0.file fd ≡ f)
          × (r.0.flags fd ≡ flags))
        ⊎ ((r.1 ≡ fds) × IsFull s))

placed_lem :
    (s : Files) (f flags : ℕ) (fds : List ℕ)
    → Placed s f flags fds (placed (add_open_file s f flags).0 (add_open_file s f flags).1 f fds)
unfolding add_open_file
placed_lem s f flags fds =
    let fd : ℕ = free_slot s.maxfd s.file 0 in
    let (a, b, c, d) = free_slot_lem s.maxfd s.file 0 in
    elim (Bool-cases (ltb s.maxfd fd)) [
      | inl e ↦
          let (m, g, h) = file_deref-keeps s f in
          rw e (
            (m, λ j q. (ap (λ (t : ℕ → ℕ). t j) g, ap (λ (t : ℕ → ℕ). t j) h)),
            inr (refl, λ j k. d j (omega arith) (ground arith)),
          )
      | inr e ↦
          let free : s.file fd ≡ 0 = c (ground arith) in
          rw e (
            (
              refl,
              λ j q.
                  (let apart : (j == fd) ≡ false = (elim (Bool-cases (j == fd)) [
                    | inl k ↦ let same : j ≡ fd = ground arith in absurd (q (ap s.file same ∙ free))
                    | inr k ↦ k
                  ]) in
                    rw apart (refl, refl)),
            ),
            inl (fd, refl, ground arith, rw (==_refl fd) refl, rw (==_refl fd) refl),
          )
    ]

-- The loop ends where there is no entry in front, or no room.
abbrev pub no_entry : List Pack → Bool
no_entry [] = true
no_entry ([] ∷ ps) = true
no_entry ((e ∷ es) ∷ ps) = false

flat-left : (es : Pack) (packs : List Pack) → flat (left (λ j. 0) es packs) ≡ flat (es ∷ packs)
flat-left [] packs = refl
flat-left (e ∷ es) packs = refl

-- What is said of the loop: the descriptors in front stay, the new ones are given as above, and it ends
-- as it should.
abbrev Loop : Files → List Pack → ℕ → List ℕ → Files × List Pack × List ℕ → Type 0
Loop s packs controllen fds r =
    Stays s r.0
    × ((new : List ℕ) × (r.2 ≡ fds ++ new) × Unpacked r.0 (flat packs) new (flat r.1))
    × ((no_entry r.1 ≡ true) ⊎ (controllen < cmsg_len (length r.2 + 1)))

ended :
    (s : Files) (packs : List Pack) (controllen : ℕ) (fds : List ℕ)
    → (no_entry packs ≡ true) ⊎ (controllen < cmsg_len (length fds + 1))
    → Loop s packs controllen fds (s, packs, fds)
ended s packs controllen fds o = (Stays-refl s, ([], sym (append-nil fds), stops (flat packs)), o)

IsFull-Stays : (s s' : Files) → Stays s s' → IsFull s → IsFull s'
IsFull-Stays s s' (m, a) full fd h z =
    full fd (omega (arith, m)) (sym (a fd (full fd (omega (arith, m)))).0 ∙ z)

-- A round in front of the rest of the loop
round_lem :
    (s : Files) (f flags : ℕ) (es : Pack) (packs : List Pack) (controllen : ℕ) (fds : List ℕ)
    (r1 : Files × List ℕ) (r : Files × List Pack × List ℕ)
    → f ≢ 0
    → Placed s f flags fds r1
    → Loop r1.0 (left (λ j. 0) es packs) controllen r1.1 r
    → Loop s (((f, flags) ∷ es) ∷ packs) controllen fds r
round_lem s f flags es packs controllen fds r1 r nz (stays, inl (fd, e, fits, file, flag))
      (later, (new, app, un), end) =
    let (same, same') = later.1 fd (λ z. nz (sym file ∙ z)) in
    let un' = subst (λ xs. Unpacked r.0 xs new (flat r.1)) (flat-left es packs) un in
    (
      Stays-trans s r1.0 r.0 stays later,
      (
        fd ∷ new,
        app ∙ ap (λ xs. xs ++ new) e ∙ append_assoc fds (fd ∷ []) new,
        gives f flags fd (flat (es ∷ packs)) new (flat r.1) (omega (arith, later.0, stays.0))
            (same ∙ file) (same' ∙ flag) un',
      ),
      end,
    )
round_lem s f flags es packs controllen fds r1 r nz (stays, inr (e, full))
      (later, (new, app, un), end) =
    let un' = subst (λ xs. Unpacked r.0 xs new (flat r.1)) (flat-left es packs) un in
    let all = Stays-trans s r1.0 r.0 stays later in
    (
      all,
      (
        new,
        app ∙ ap (λ xs. xs ++ new) e,
        returns f flags (flat (es ∷ packs)) new (flat r.1) (IsFull-Stays s r.0 all full) un',
      ),
      end,
    )

left-AllHaveFiles :
    (es : Pack) (packs : List Pack)
    → HasFiles es
    → AllHaveFiles packs
    → AllHaveFiles (left (λ j. 0) es packs)
left-AllHaveFiles [] packs a b = b
left-AllHaveFiles (e ∷ es) packs a b = (a, b)

left-entries :
    (es : Pack) (packs : List Pack) → entries (left (λ j. 0) es packs) ≤ entries (es ∷ packs)
left-entries [] packs = omega arith
left-entries (e ∷ es) packs = omega arith

pub unpack_loop-Unpacked :
    (n : ℕ) (s : Files) (packs : List Pack) (controllen : ℕ) (fds : List ℕ)
    → AllHaveFiles packs
    → entries packs ≤ n
    → Loop s packs controllen fds (unpack_loop n s packs controllen fds)
unfolding unpack_loop
unpack_loop-Unpacked zero s [] controllen fds files h = ended s [] controllen fds (inl refl)
unpack_loop-Unpacked zero s ([] ∷ packs) controllen fds files h =
    ended s ([] ∷ packs) controllen fds (inl refl)
unpack_loop-Unpacked zero s ((e ∷ es) ∷ packs) controllen fds files h = absurd (omega arith)
unpack_loop-Unpacked (suc n) s [] controllen fds files h = ended s [] controllen fds (inl refl)
unpack_loop-Unpacked (suc n) s ([] ∷ packs) controllen fds files h =
    ended s ([] ∷ packs) controllen fds (inl refl)
unpack_loop-Unpacked (suc n) s (((f, flags) ∷ es) ∷ packs) controllen fds ((nz, fe), fp) h =
    elim (Bool-cases (leb (cmsg_len (length fds + 1)) controllen)) [
      | inr e ↦ rw e (ended s (((f, flags) ∷ es) ∷ packs) controllen fds (inr (ground arith)))
      | inl e ↦
          let r1 = placed (add_open_file s f flags).0 (add_open_file s f flags).1 f fds in
          let rest = left (λ j. 0) es packs in
          rw e (
            round_lem s f flags es packs controllen fds r1 (unpack_loop n r1.0 rest controllen r1.1)
              nz (placed_lem s f flags fds)
              (unpack_loop-Unpacked n r1.0 rest controllen r1.1 (left-AllHaveFiles es packs fe fp)
                (omega (arith, left-entries es packs))))
    ]
