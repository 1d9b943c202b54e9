-- ===== src/Posix/Files/Keep.antt =====
-- The calls of posix/posix.c that open, duplicate and close descriptors keep the counts.
use mathlib.Core.Path.{subst}
use phoenix_rtos_kernel.Base.{
  ℕ, ◌+◌, ◌-◌, ◌^◌, ◌≤◌, ◌<◌, ◌≡◌, ◌≢◌, refl, true, false, ◌||◌, ◌==◌, ==_refl, ltb, upd,
  Bool-cases, inl, inr, arith, Option, none, some,
}
use phoenix_rtos_kernel.Posix.Files.{
  Files, Answer, descriptor, ebadf, enfile, enomem, take_ref, file_deref, is_bad, get_open_file,
  free_slot, new_file, add_open_file, close, dup, dup_to,
}
use phoenix_rtos_kernel.Posix.Files.Slot.{free_slot_lem}
use phoenix_rtos_kernel.Posix.Files.Count.{count, one, count-upd, count-pos}
use phoenix_rtos_kernel.Posix.Files.Calls.{
  IsCounted, referred, held-IsCounted, flags-IsCounted, take-IsCounted, file_deref-IsCounted,
  unlink-IsCounted, link-IsCounted,
}

-- The references of the caller after a call that may have taken one
abbrev pub gained : (ℕ → ℕ) → Option ℕ → ℕ → ℕ
gained held none = held
gained held (some f) = upd held f (held f + 1)

-- The references of the caller after a call that may have put one into the table
abbrev pub given : (ℕ → ℕ) → ℕ → Answer → ℕ → ℕ
given held f (descriptor fd) = upd held f (held f - 1)
given held f ebadf = held
given held f enfile = held
given held f enomem = held

back :
    (held : ℕ → ℕ) (f j : ℕ)
    → upd (upd held f (held f + 1)) f (upd held f (held f + 1) f - 1) j ≡ held j
back held f j = elim (Bool-cases (j == f)) [
  | inl e ↦ let same : j ≡ f = ground arith in rw (e, ==_refl f, same) (omega arith)
  | inr e ↦ rw e refl
]

module _ (s : Files) (held : ℕ → ℕ) (ok : IsCounted s held) where
  -- The file of a descriptor is allocated.
  pub listed : (fd : ℕ) → fd ≤ s.maxfd → s.file fd ≢ 0 → s.alive (s.file fd) ≡ true
  listed fd h nz =
      referred s held ok (s.file fd) nz
        (omega (arith, count-pos (s.maxfd + 1) s.file fd (omega arith)))

  -- The descriptor is taken out of the table, and its reference is given back.
  pub drop-IsCounted :
      (fd : ℕ)
      → fd ≤ s.maxfd
      → s.file fd ≢ 0
      → IsCounted (file_deref (record s { file = upd s.file fd 0 }) (s.file fd)) held
  drop-IsCounted fd h nz =
      let f : ℕ = s.file fd in
      let out = unlink-IsCounted s held ok fd h nz in
      let s1 : Files = record s { file = upd s.file fd 0 } in
      let h1 : ℕ → ℕ = upd held f (held f + 1) in
      held-IsCounted (file_deref s1 f) (upd h1 f (h1 f - 1))
        (file_deref-IsCounted s1 h1 out f nz (rw (==_refl f) (omega arith))) held
        (λ j jz. back held f j)

  pub get_open_file-IsCounted :
      (fd : ℕ)
      → s.refs (s.file fd) + 1 < 2 ^ 32
      → IsCounted (get_open_file s fd).1 (gained held (get_open_file s fd).0)
  unfolding get_open_file
  get_open_file-IsCounted fd small = elim (Bool-cases (is_bad s fd)) [
    | inl e ↦ rw e ok
    | inr e ↦
        let nz : s.file fd ≢ 0 = λ g. ground (arith, g) in
        rw e (take-IsCounted s held ok (s.file fd) nz (listed fd (ground arith) nz) small)
  ]

  pub close-IsCounted : (fd : ℕ) → IsCounted (close s fd).1 held
  unfolding close
  close-IsCounted fd = elim (Bool-cases (is_bad s fd)) [
    | inl e ↦ rw e ok
    | inr e ↦ rw e (drop-IsCounted fd (ground arith) (λ g. ground (arith, g)))
  ]

  -- A descriptor that is free gets a new reference.
  pub dup_to-IsCounted :
      (f fd : ℕ)
      → f ≢ 0
      → s.alive f ≡ true
      → s.refs f + 1 < 2 ^ 32
      → fd ≤ s.maxfd
      → s.file fd ≡ 0
      → IsCounted (dup_to s f fd) held
  dup_to-IsCounted f fd nz a small h free =
      let s1 : Files = take_ref s f in
      let h1 : ℕ → ℕ = upd held f (held f + 1) in
      let taken : IsCounted s1 h1 = take-IsCounted s held ok f nz a small in
      let linked = link-IsCounted s1 h1 taken fd f h free nz (rw (==_refl f) (omega arith)) in
      let s2 : Files = record s1 { file = upd s.file fd f } in
      flags-IsCounted s2 held
        (held-IsCounted s2 (upd h1 f (h1 f - 1)) linked held (λ j jz. back held f j))
        (upd s.flags fd 0)

  pub dup-IsCounted : (fd : ℕ) → s.refs (s.file fd) + 1 < 2 ^ 32 → IsCounted (dup s fd).1 held
  unfolding dup
  dup-IsCounted fd small =
      let new : ℕ = free_slot s.maxfd s.file 0 in
      let (a, b, c, d) = free_slot_lem s.maxfd s.file 0 in
      elim (Bool-cases (is_bad s fd || ltb s.maxfd new)) [
        | inl e ↦ rw e ok
        | inr e ↦
            let nz : s.file fd ≢ 0 = λ g. ground (arith, g) in
            let fits : new ≤ s.maxfd = ground arith in
            rw e (
              dup_to-IsCounted (s.file fd) new nz (listed fd (ground arith) nz) small fits
                (c (omega arith)))
      ]

  pub add_open_file-IsCounted :
      (f flags : ℕ)
      → f ≢ 0
      → 0 < held f
      → IsCounted (add_open_file s f flags).1 (given held f (add_open_file s f flags).0)
  unfolding add_open_file
  add_open_file-IsCounted f flags nz some_held =
      let fd : ℕ = free_slot s.maxfd s.file 0 in
      let (a, b, c, d) = free_slot_lem s.maxfd s.file 0 in
      elim (Bool-cases (ltb s.maxfd fd)) [
        | inl e ↦ rw e ok
        | inr e ↦
            let fits : fd ≤ s.maxfd = ground arith in
            rw e (
              flags-IsCounted (record s { file = upd s.file fd f }) (upd held f (held f - 1))
                (link-IsCounted s held ok fd f fits (c (omega arith)) nz some_held)
                (upd s.flags fd flags))
      ]

  pub new_file-IsCounted :
      (start f : ℕ) → start ≤ s.maxfd → s.alive f ≡ false → IsCounted (new_file s start f).1 held
  unfolding new_file
  new_file-IsCounted start f h fresh =
      let fd : ℕ = free_slot (s.maxfd - start) s.file start in
      let (a, b, c, d) = free_slot_lem (s.maxfd - start) s.file start in
      elim (Bool-cases (ltb s.maxfd fd)) [
        | inl e ↦ rw e ok
        | inr e ↦
            let fits : fd ≤ s.maxfd = ground arith in
            let free : s.file fd ≡ 0 = c (omega arith) in
            let counts : (j : ℕ)
                → count (s.maxfd + 1) (upd s.file fd f) j + one 0 j
                  ≡ count (s.maxfd + 1) s.file j + one f j =
              (λ j.
                subst
                  (λ g.
                    count (s.maxfd + 1) (upd s.file fd f) j + one g j
                    ≡ count (s.maxfd + 1) s.file j + one f j)
                  free (count-upd (s.maxfd + 1) s.file fd f j (omega arith))) in
            elim (Bool-cases (f == 0)) [
              | inl g ↦
                  rw (e, g)
                    (record {
                      bounded = ok.bounded;
                      live = λ j jz b. ground (arith, counts j, ok.live j jz b);
                      dead = λ j jz b. ground (arith, counts j, ok.dead j jz b);
                    })
              | inr g ↦
                  rw (e, g)
                    (record {
                      bounded = ok.bounded;
                      live = λ j jz b. elim (Bool-cases (j == f)) [
                        | inl k ↦
                            let same : j ≡ f = ground arith in
                            rw k (
                              ground
                                (arith, same, counts j, ok.dead f (λ z. ground (arith, z)) fresh))
                        | inr k ↦ rw k (ground (arith, counts j, ok.live j jz (rw k at b)))
                      ];
                      dead = λ j jz b. elim (Bool-cases (j == f)) [
                        | inl k ↦ ground arith
                        | inr k ↦ ground (arith, counts j, ok.dead j jz (rw k at b))
                      ];
                    })
            ]
      ]
