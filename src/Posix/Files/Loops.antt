-- ===== src/Posix/Files/Loops.antt =====
-- _posix_dup2 and the loops of posix_exec and posix_clone in posix/posix.c keep the counts.
use mathlib.Core.Path.{subst}
use phoenix_rtos_kernel.Base.{
  ap, ◌∙◌, ℕ, zero, suc, ◌+◌, ◌-◌, ◌%◌, ◌^◌, ◌≤◌, ◌<◌, ◌≡◌, ◌≢◌, refl, sym, true, false, ◌||◌, ◌==◌,
  ==_refl, ltb, leb, upd, Bool-cases, inl, inr, arith,
}
use phoenix_rtos_kernel.Posix.Files.{Files, take_ref, file_deref, dup2, exec_loop, clone_loop}
use phoenix_rtos_kernel.Posix.Files.Count.{count, one}
use phoenix_rtos_kernel.Posix.Files.Calls.{IsCounted, held-IsCounted, take-IsCounted}
use phoenix_rtos_kernel.Posix.Files.Keep.{listed, drop-IsCounted, dup_to-IsCounted}

pub file_deref-keeps :
    (s : Files) (f : ℕ)
    → ((file_deref s f).maxfd ≡ s.maxfd)
      × ((file_deref s f).file ≡ s.file)
      × ((file_deref s f).flags ≡ s.flags)
unfolding file_deref
file_deref-keeps s f = elim (Bool-cases ((s.refs f + 2 ^ 32 - 1) % 2 ^ 32 == 0)) [
  | inl e ↦ rw e (refl, refl, refl)
  | inr e ↦ rw e (refl, refl, refl)
]

-- Another file keeps its references.
file_deref-other : (s : Files) (f j : ℕ) → (j == f) ≡ false → (file_deref s f).refs j ≡ s.refs j
unfolding file_deref
file_deref-other s f j h = elim (Bool-cases ((s.refs f + 2 ^ 32 - 1) % 2 ^ 32 == 0)) [
  | inl e ↦ rw (e, h) refl
  | inr e ↦ rw (e, h) refl
]

file_deref-less :
    (s : Files) (f : ℕ) → 0 < s.refs f → s.refs f < 2 ^ 32 → (file_deref s f).refs f ≡ s.refs f - 1
unfolding file_deref
file_deref-less s f h k =
    let left : (s.refs f + 2 ^ 32 - 1) % 2 ^ 32 ≡ s.refs f - 1 = omega arith in
    elim (Bool-cases ((s.refs f + 2 ^ 32 - 1) % 2 ^ 32 == 0)) [
      | inl e ↦ rw (e, ==_refl f) left
      | inr e ↦ rw (e, ==_refl f) left
    ]

module _ (s : Files) (held : ℕ → ℕ) (ok : IsCounted s held) where
  listed_after : (fd f : ℕ) → s.file fd ≡ f → f ≢ 0 → fd ≤ s.maxfd → s.alive f ≡ true
  listed_after fd f same nz h =
      subst (λ g. s.alive g ≡ true) same (listed s held ok fd h (λ z. nz (sym same ∙ z)))

  -- Giving back a reference leaves no file with more of them.
  few_left :
      (s0 : Files) (fd2 f : ℕ)
      → s0.refs ≡ s.refs
      → fd2 ≤ s.maxfd
      → s.file fd2 ≢ 0
      → s.refs f + 1 < 2 ^ 32
      → (file_deref s0 (s.file fd2)).refs f + 1 < 2 ^ 32
  few_left s0 fd2 f same h nz small =
      let here : s0.refs f ≡ s.refs f = ap (λ (r : ℕ → ℕ). r f) same in
      elim (Bool-cases (f == s.file fd2)) [
        | inl e ↦
            let equal : s.file fd2 ≡ f = ground arith in
            let (x, y, z) = ok.live (s.file fd2) nz (listed s held ok fd2 h nz) in
            let before : s.refs (s.file fd2) ≡ s.refs f = ap s.refs equal in
            subst (λ g. (file_deref s0 g).refs f + 1 < 2 ^ 32) (sym equal)
              (omega (
                arith,
                file_deref-less s0 f (omega (arith, here, before)) (omega (arith, here)),
                here,
              ))
        | inr e ↦ omega (arith, file_deref-other s0 (s.file fd2) f e, here)
      ]

module _ (s : Files) (held : ℕ → ℕ) (ok : IsCounted s held) where
  -- The descriptor that is replaced is another one, so the file keeps a reference meanwhile.
  pub dup2-IsCounted :
      (fd fd2 : ℕ) → fd ≢ fd2 → s.refs (s.file fd) + 1 < 2 ^ 32 → IsCounted (dup2 s fd fd2).1 held
  unfolding dup2
  dup2-IsCounted fd fd2 apart small = elim (Bool-cases (leb (2 ^ 31) fd || ltb s.maxfd fd)) [
    | inl e ↦ rw e ok
    | inr e ↦ elim (Bool-cases (leb (2 ^ 31) fd2 || ltb s.maxfd fd2)) [
      | inl g ↦ rw (e, g) ok
      | inr g ↦ elim (Bool-cases (s.file fd == 0)) [
        | inl h ↦ rw (e, g, h) ok
        | inr h ↦
            let nz : s.file fd ≢ 0 = λ z. ground (arith, z) in
            let fits : fd2 ≤ s.maxfd = ground arith in
            elim (Bool-cases (s.file fd2 == 0)) [
              | inl k ↦
                  rw (e, g, h, k)
                    (dup_to-IsCounted s held ok (s.file fd) fd2 nz
                      (listed s held ok fd (ground arith) nz) small fits (ground arith))
              | inr k ↦
                  let s1 : Files = file_deref (record s { file = upd s.file fd2 0 }) (s.file fd2) in
                  let ok1 : IsCounted s1 held =
                    drop-IsCounted s held ok fd2 fits (λ z. ground (arith, z)) in
                  let (keeps, files, flags) =
                    file_deref-keeps (record s { file = upd s.file fd2 0 }) (s.file fd2) in
                  let other : (fd == fd2) ≡ false = ground (arith, apart) in
                  let same : s1.file fd ≡ s.file fd =
                    ap (λ (r : ℕ → ℕ). r fd) files ∙ rw other refl in
                  let free : s1.file fd2 ≡ 0 =
                    ap (λ (r : ℕ → ℕ). r fd2) files ∙ rw (==_refl fd2) refl in
                  let alive : s1.alive (s.file fd) ≡ true =
                    listed_after s1 held ok1 fd (s.file fd) same nz (rw keeps (ground arith)) in
                  let few : s1.refs (s.file fd) + 1 < 2 ^ 32 =
                    few_left s held ok (record s { file = upd s.file fd2 0 }) fd2 (s.file fd) refl
                      fits (λ z. ground (arith, z)) small in
                  rw (e, g, h, k)
                    (dup_to-IsCounted s1 held ok1 (s.file fd) fd2 nz alive few (rw keeps fits) free)
            ]
      ]
    ]
  ]

-- Whether the descriptor is cleared before or after is the same.
clear-file_deref :
    (s : Files) (f fd : ℕ)
    → record (file_deref s f) { file = upd (file_deref s f).file fd 0 }
      ≡ file_deref (record s { file = upd s.file fd 0 }) f
unfolding file_deref
clear-file_deref s f fd = elim (Bool-cases ((s.refs f + 2 ^ 32 - 1) % 2 ^ 32 == 0)) [
  | inl e ↦ rw e refl
  | inr e ↦ rw e refl
]

abbrev cleared : Files → ℕ → Files
cleared s fd = (let c = file_deref s (s.file fd) in record c { file = upd c.file fd 0 })

-- posix_exec closes descriptors, and keeps the counts.
pub exec_loop-IsCounted :
    (n : ℕ) (s : Files) (held : ℕ → ℕ) (fd : ℕ)
    → fd + n ≤ s.maxfd + 1
    → IsCounted s held
    → IsCounted (exec_loop n s fd) held
unfolding exec_loop
exec_loop-IsCounted zero s held fd h ok = ok
exec_loop-IsCounted (suc n) s held fd h ok =
    elim (Bool-cases (s.file fd == 0 || s.flags fd % 2 == 0)) [
      | inl e ↦ rw e (exec_loop-IsCounted n s held (fd + 1) (omega arith) ok)
      | inr e ↦
          let (keeps, files, flags) = file_deref-keeps s (s.file fd) in
          let next : IsCounted (cleared s fd) held =
            subst (λ x. IsCounted x held) (sym (clear-file_deref s (s.file fd) fd))
              (drop-IsCounted s held ok fd (omega arith) (λ z. ground (arith, z))) in
          rw e (exec_loop-IsCounted n (cleared s fd) held (fd + 1) (omega (arith, keeps)) next)
    ]

count_next : (i : ℕ) (t : ℕ → ℕ) (f : ℕ) → count (i + 1) t f ≡ one (t i) f + count i t f
unfolding count
count_next i t f = let e : i + 1 ≡ suc i = omega arith in rw e refl

-- posix_clone takes a reference for each descriptor.
pub clone_loop-IsCounted :
    (n : ℕ) (s : Files) (held : ℕ → ℕ) (i m : ℕ)
    → i + n ≡ m
    → m ≤ s.maxfd + 1
    → ((f : ℕ) → s.refs f + n < 2 ^ 32)
    → IsCounted s (λ f. held f + count i s.file f)
    → IsCounted (clone_loop n s i) (λ f. held f + count m s.file f)
unfolding clone_loop
clone_loop-IsCounted zero s held i m e h few ok =
    let same : i ≡ m = omega arith in
    subst (λ k. IsCounted s (λ f. held f + count k s.file f)) same ok
clone_loop-IsCounted (suc n) s held i m e h few ok = elim (Bool-cases (s.file i == 0)) [
  | inl z ↦ rw z (
      clone_loop-IsCounted n s held (i + 1) m (omega arith) h (λ f. omega (arith, few f))
        (held-IsCounted s (λ f. held f + count i s.file f) ok (λ f. held f + count (i + 1) s.file f)
          (λ f nz. ground (arith, count_next i s.file f))))
  | inr z ↦
      let h0 : ℕ → ℕ = λ f. held f + count i s.file f in
      let g : ℕ = s.file i in
      let nz : g ≢ 0 = λ q. ground (arith, q) in
      let taken =
        take-IsCounted s h0 ok g nz (listed s h0 ok i (omega arith) nz) (omega (arith, few g)) in
      rw z (
        clone_loop-IsCounted n (take_ref s g) held (i + 1) m (omega arith) h
          (λ f. ground (arith, few f))
          (held-IsCounted (take_ref s g) (upd h0 g (h0 g + 1)) taken
            (λ f. held f + count (i + 1) s.file f)
            (λ f q. elim (Bool-cases (f == g)) [
              | inl k ↦
                  let same : f ≡ g = ground arith in ground (arith, same, count_next i s.file f)
              | inr k ↦ ground (arith, count_next i s.file f)
            ])))
]
