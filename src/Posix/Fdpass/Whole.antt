-- ===== src/Posix/Fdpass/Whole.antt =====
-- fdpass_unpack and fdpass_discard of posix/fdpass.c as a whole.
use mathlib.Core.Path.{subst}
use phoenix_rtos_kernel.Posix.Fdpass.Given.{flat, Unpacked, stops, no_entry, unpack_loop-Unpacked}
use phoenix_rtos_kernel.Base.{
  true, if◌then◌else◌, ◌<◌, sym, ◌⊎◌, ℕ, zero, suc, ◌+◌, ◌-◌, ◌≤◌, ◌<◌, ◌≡◌, refl, false, ◌||◌,
  ◌==◌, ==_refl, List, [], ◌∷◌, ltb, leb, upd, list_add, is_empty, Bool-cases, inl, inr, arith,
}
use phoenix_rtos_kernel.Posix.Files.{
  Files, Answer, descriptor, ebadf, enfile, enomem, file_deref, add_open_file,
}
use phoenix_rtos_kernel.Posix.Files.Count.{}
use phoenix_rtos_kernel.Posix.Files.Calls.{IsCounted, held-IsCounted, file_deref-IsCounted}
use phoenix_rtos_kernel.Posix.Fdpass.{
  Pack, cmsg_len, length, entries, placed, unpack_loop, fdpass_unpack, discard_pack, fdpass_discard,
}
use phoenix_rtos_kernel.Posix.Fdpass.Held.{
  packed, HasFiles, AllHaveFiles, holding, left, unpack_loop-IsCounted,
}

length-add : (xs : List ℕ) (x : ℕ) → length (list_add xs x) ≡ length xs + 1
length-add [] x = refl
length-add (y ∷ ys) x = omega (arith, length-add ys x)

placed-length :
    (a : Answer) (s : Files) (f : ℕ) (fds : List ℕ) → length (placed a s f fds).1 ≤ length fds + 1
placed-length (descriptor fd) s f fds = omega (arith, length-add fds fd)
placed-length ebadf s f fds = omega arith
placed-length enfile s f fds = omega arith
placed-length enomem s f fds = omega arith

-- The descriptors fit into the control data.
unpack_loop-fits :
    (n : ℕ) (s : Files) (packs : List Pack) (controllen : ℕ) (fds : List ℕ)
    → cmsg_len (length fds) ≤ controllen
    → cmsg_len (length (unpack_loop n s packs controllen fds).2) ≤ controllen
unfolding unpack_loop
unpack_loop-fits zero s packs controllen fds h = h
unpack_loop-fits (suc n) s [] controllen fds h = h
unpack_loop-fits (suc n) s ([] ∷ packs) controllen fds h = h
unpack_loop-fits (suc n) s (((f, flags) ∷ es) ∷ packs) controllen fds h =
    elim (Bool-cases (leb (cmsg_len (length fds + 1)) controllen)) [
      | inr e ↦ rw e h
      | inl e ↦
          let a = (add_open_file s f flags).0 in
          let r = placed a (add_open_file s f flags).1 f fds in
          rw e (
            unpack_loop-fits n r.0 (left (λ j. 0) es packs) controllen r.1
              (ground (arith, placed-length a (add_open_file s f flags).1 f fds)))
    ]

nothing :
    (packs : List Pack) (controllen : ℕ)
    → is_empty packs || ltb controllen (cmsg_len 1) ≡ true
    → (no_entry packs ≡ true) ⊎ (controllen < cmsg_len 1)
nothing [] controllen e = inl refl
nothing (p ∷ packs) controllen e = inr (ground arith)

-- fdpass_unpack turns the files of packs into descriptors, in order, and gives a file back only when the
-- table of descriptors is full; no reference is lost: the counts are right for the packs that it leaves.
-- It writes the descriptors that the files have got, and reports their length, which is not more than
-- there is room for; with no pack, or no room for one descriptor, it reports 0 and leaves all packs. It
-- ends where there is no entry in front or no room for one more.
pub fdpass_unpack_lem :
    (s : Files) (held : ℕ → ℕ) (packs : List Pack) (controllen : ℕ)
    → AllHaveFiles packs
    → IsCounted s (holding held packs)
    → let r = fdpass_unpack s packs controllen in
      IsCounted r.0 (holding held r.1)
      × Unpacked r.0 (flat packs) r.2 (flat r.1)
      × (r.3 ≡ (if is_empty packs || ltb controllen (cmsg_len 1) then 0 else cmsg_len (length r.2)))
      × (r.3 ≤ controllen)
      × ((no_entry r.1 ≡ true) ⊎ (controllen < cmsg_len (length r.2 + 1)))
unfolding fdpass_unpack
fdpass_unpack_lem s held packs controllen files ok =
    elim (Bool-cases (is_empty packs || ltb controllen (cmsg_len 1))) [
      | inl e ↦ rw e (ok, stops (flat packs), refl, omega arith, nothing packs controllen e)
      | inr e ↦
          let (stays, (new, app, un), end) =
            unpack_loop-Unpacked (entries packs) s packs controllen [] files (omega arith) in
          let r = unpack_loop (entries packs) s packs controllen [] in
          let same : new ≡ r.2 = sym app in
          rw e (
            unpack_loop-IsCounted held (entries packs) s packs controllen [] files ok,
            subst (λ xs. Unpacked r.0 (flat packs) xs (flat r.1)) same un,
            refl,
            unpack_loop-fits (entries packs) s packs controllen [] (ground arith),
            end,
          )
    ]

discard_pack-IsCounted :
    (s : Files) (held : ℕ → ℕ) (p : Pack)
    → HasFiles p
    → IsCounted s (λ f. held f + packed p f)
    → IsCounted (discard_pack s p) held
unfolding discard_pack
discard_pack-IsCounted s held [] files ok =
    held-IsCounted s (λ f. held f + packed [] f) ok held (λ f nz. omega arith)
discard_pack-IsCounted s held ((g, flags) ∷ es) (nz, files) ok =
    let before : ℕ → ℕ = λ f. held f + packed ((g, flags) ∷ es) f in
    let some_held : 0 < before g = rw (==_refl g) (omega arith) in
    let given_back = file_deref-IsCounted s before ok g nz some_held in
    discard_pack-IsCounted (file_deref s g) held es files (
      held-IsCounted (file_deref s g) (upd before g (before g - 1)) given_back
        (λ f. held f + packed es f)
        (λ j jz. elim (Bool-cases (j == g)) [
          | inl k ↦ let same : j ≡ g = ground arith in rw (k, same, ==_refl g) (omega arith)
          | inr k ↦ let other : (g == j) ≡ false = ground arith in rw (k, other) (omega arith)
        ]))

-- fdpass_discard gives back the references of all packs, and no others.
pub fdpass_discard_lem :
    (s : Files) (held : ℕ → ℕ) (packs : List Pack)
    → AllHaveFiles packs
    → IsCounted s (holding held packs)
    → IsCounted (fdpass_discard s packs) held
unfolding fdpass_discard
fdpass_discard_lem s held [] files ok =
    held-IsCounted s (holding held []) ok held (λ f nz. omega arith)
fdpass_discard_lem s held (p ∷ packs) (fp, files) ok =
    fdpass_discard_lem (discard_pack s p) held packs files (
      discard_pack-IsCounted s (holding held packs) p fp (
        held-IsCounted s (holding held (p ∷ packs)) ok (λ f. holding held packs f + packed p f)
          (λ f nz. omega arith)))
