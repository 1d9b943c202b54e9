-- ===== src/Posix/Files/Calls.antt =====
-- The references that the calls of posix/posix.c count.
use phoenix_rtos_kernel.Base.{
  ℕ, ◌+◌, ◌-◌, ◌%◌, ◌^◌, ◌≤◌, ◌<◌, ◌≡◌, ◌≢◌, true, false, ◌==◌, upd, Bool-cases, inl, inr, arith,
}
use phoenix_rtos_kernel.Posix.Files.{Files, take_ref, file_deref}
use phoenix_rtos_kernel.Posix.Files.Count.{count, count-upd}

-- The references of a file: its descriptors, and `held f` references of calls and of other processes
abbrev pub references : Files → (ℕ → ℕ) → ℕ → ℕ
references s held f = count (s.maxfd + 1) s.file f + held f

-- A file that is allocated counts its references and has some; no reference is to another one.
pub record IsCounted (s : Files) (held : ℕ → ℕ) : Type 0 where
  pub bounded : s.maxfd < 2 ^ 31
  pub live :
      (f : ℕ)
      → f ≢ 0
      → s.alive f ≡ true
      → (references s held f ≡ s.refs f) × (0 < s.refs f) × (s.refs f < 2 ^ 32)
  pub dead : (f : ℕ) → f ≢ 0 → s.alive f ≡ false → references s held f ≡ 0

module _ (s : Files) (held : ℕ → ℕ) (ok : IsCounted s held) where
  -- A file that is referred to is allocated.
  pub referred : (f : ℕ) → f ≢ 0 → 0 < references s held f → s.alive f ≡ true
  referred f nz h = elim (Bool-cases (s.alive f)) [
    | inl e ↦ e
    | inr e ↦ absurd (omega (arith, ok.dead f nz e))
  ]

  pub held-IsCounted : (held' : ℕ → ℕ) → ((f : ℕ) → f ≢ 0 → held f ≡ held' f) → IsCounted s held'
  held-IsCounted held' same = record {
    bounded = ok.bounded;
    live = λ f nz a. (let (x, y, z) = ok.live f nz a in (omega (arith, same f nz), y, z));
    dead = λ f nz a. omega (arith, same f nz, ok.dead f nz a);
  }

  pub flags-IsCounted : (flags : ℕ → ℕ) → IsCounted (record s { flags = flags }) held
  flags-IsCounted flags = record { bounded = ok.bounded; live = ok.live; dead = ok.dead }

  pub take-IsCounted :
      (f : ℕ)
      → f ≢ 0
      → s.alive f ≡ true
      → s.refs f + 1 < 2 ^ 32
      → IsCounted (take_ref s f) (upd held f (held f + 1))
  take-IsCounted f nz a small = record {
    bounded = ok.bounded;
    live = λ j jz b. elim (Bool-cases (j == f)) [
      | inl e ↦
          let same : j ≡ f = ground arith in
          rw (e, same) (let (x, y, z) = ok.live f nz a in (omega arith, omega arith, omega arith))
      | inr e ↦ rw e (ok.live j jz b)
    ];
    dead = λ j jz b. elim (Bool-cases (j == f)) [
      | inl e ↦ let same : j ≡ f = ground arith in ground (arith, same)
      | inr e ↦ rw e (ok.dead j jz b)
    ];
  }

  pub file_deref-IsCounted :
      (f : ℕ) → f ≢ 0 → 0 < held f → IsCounted (file_deref s f) (upd held f (held f - 1))
  unfolding file_deref
  file_deref-IsCounted f nz some_held =
      let (x, y, z) = ok.live f nz (referred f nz (omega arith)) in
      let left : (s.refs f + 2 ^ 32 - 1) % 2 ^ 32 ≡ s.refs f - 1 = omega arith in
      elim (Bool-cases ((s.refs f + 2 ^ 32 - 1) % 2 ^ 32 == 0)) [
        | inl g ↦ rw g (record {
          bounded = ok.bounded;
          live = λ j jz b. elim (Bool-cases (j == f)) [
            | inl e ↦ ground arith
            | inr e ↦ rw e (ok.live j jz (rw e at b))
          ];
          dead = λ j jz b. elim (Bool-cases (j == f)) [
            | inl e ↦ let same : j ≡ f = ground arith in rw (e, same) (ground arith)
            | inr e ↦ rw e (ok.dead j jz (rw e at b))
          ];
        })
        | inr g ↦ rw g (record {
          bounded = ok.bounded;
          live = λ j jz b. elim (Bool-cases (j == f)) [
            | inl e ↦
                let same : j ≡ f = ground arith in
                rw (e, same) (omega arith, ground arith, omega arith)
            | inr e ↦ rw e (ok.live j jz b)
          ];
          dead = λ j jz b. elim (Bool-cases (j == f)) [
            | inl e ↦
                let same : j ≡ f = ground arith in ground (arith, same, referred f nz (omega arith))
            | inr e ↦ rw e (ok.dead j jz b)
          ];
        })
      ]

  -- The reference of a descriptor goes over to the call.
  pub unlink-IsCounted :
      (fd : ℕ)
      → fd ≤ s.maxfd
      → s.file fd ≢ 0
      → IsCounted
          (record s { file = upd s.file fd 0 })
          (upd held (s.file fd) (held (s.file fd) + 1))
  unlink-IsCounted fd h nz =
      let same : (j : ℕ)
          → j ≢ 0
          → count (s.maxfd + 1) (upd s.file fd 0) j + upd held (s.file fd) (held (s.file fd) + 1) j
            ≡ references s held j =
        (λ j jz. elim (Bool-cases (j == s.file fd)) [
          | inl e ↦
              let at : j ≡ s.file fd = ground arith in
              ground (arith, count-upd (s.maxfd + 1) s.file fd 0 j (omega arith), at)
          | inr e ↦ ground (arith, count-upd (s.maxfd + 1) s.file fd 0 j (omega arith))
        ]) in
      record {
        bounded = ok.bounded;
        live = λ j jz a. (let (x, y, z) = ok.live j jz a in (omega (arith, same j jz), y, z));
        dead = λ j jz a. omega (arith, same j jz, ok.dead j jz a);
      }

  -- The reference of a call goes over to a descriptor.
  pub link-IsCounted :
      (fd f : ℕ)
      → fd ≤ s.maxfd
      → s.file fd ≡ 0
      → f ≢ 0
      → 0 < held f
      → IsCounted (record s { file = upd s.file fd f }) (upd held f (held f - 1))
  link-IsCounted fd f h free nz some_held =
      let same : (j : ℕ)
          → j ≢ 0
          → count (s.maxfd + 1) (upd s.file fd f) j + upd held f (held f - 1) j
            ≡ references s held j =
        (λ j jz. elim (Bool-cases (j == f)) [
          | inl e ↦
              let at : j ≡ f = ground arith in
              ground (arith, count-upd (s.maxfd + 1) s.file fd f j (omega arith), at, free)
          | inr e ↦ ground (arith, count-upd (s.maxfd + 1) s.file fd f j (omega arith), free)
        ]) in
      record {
        bounded = ok.bounded;
        live = λ j jz a. (let (x, y, z) = ok.live j jz a in (omega (arith, same j jz), y, z));
        dead = λ j jz a. omega (arith, same j jz, ok.dead j jz a);
      }
