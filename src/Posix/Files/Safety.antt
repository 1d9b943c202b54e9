-- ===== src/Posix/Files/Safety.antt =====
-- All sequences of the calls of posix/posix.c that handle descriptors.
use mathlib.Core.Bool.{true≢false}
use phoenix_rtos_kernel.Base.{
  ap, sym, ◌∙◌, ℕ, zero, suc, ◌+◌, ◌-◌, ◌^◌, ◌≤◌, ◌<◌, ◌≡◌, ◌≢◌, refl, Bool, false, ◌==◌, upd,
  Bool-cases, inl, inr, arith,
}
use phoenix_rtos_kernel.Posix.Files.{
  Files, file_deref, get_open_file, new_file, put_unused_file, add_open_file, close, dup, dup2,
  exec, clone_loop,
}
use phoenix_rtos_kernel.Posix.Files.Count.{count, count-upd}
use phoenix_rtos_kernel.Posix.Files.Calls.{
  IsCounted, references, held-IsCounted, file_deref-IsCounted,
}
use phoenix_rtos_kernel.Posix.Files.Keep.{
  gained, given, get_open_file-IsCounted, close-IsCounted, dup-IsCounted, add_open_file-IsCounted,
  new_file-IsCounted,
}
use phoenix_rtos_kernel.Posix.Files.Loops.{
  dup2-IsCounted, exec_loop-IsCounted, clone_loop-IsCounted,
}

-- The states of a process from an empty table on. `held f` is the number of references to a file that
-- are not in the table: those that calls have got and not given back, and those of the processes that
-- posix_clone has copied the table to. Memory for a new file is free before, no other call comes between
-- the two parts of posix_newFile, only the call that has made a file puts it away unused, a descriptor
-- is not duplicated onto itself, and no file gets 2 ^ 32 references. Calls that only forward messages,
-- posix_pipe and posix_exit are not among them.
pub data Reaches : Files → (ℕ → ℕ) → Type 0 where
  starts :
      (s : Files)
      → s.maxfd < 2 ^ 31
      → s.file ≡ (λ fd. 0)
      → s.alive ≡ (λ f. false)
      → Reaches s (λ f. 0)
  gets :
      (s : Files) (held : ℕ → ℕ) (fd : ℕ)
      → Reaches s held
      → s.refs (s.file fd) + 1 < 2 ^ 32
      → Reaches (get_open_file s fd).1 (gained held (get_open_file s fd).0)
  derefs :
      (s : Files) (held : ℕ → ℕ) (f : ℕ)
      → Reaches s held
      → f ≢ 0
      → 0 < held f
      → Reaches (file_deref s f) (upd held f (held f - 1))
  creates :
      (s : Files) (held : ℕ → ℕ) (start f : ℕ)
      → Reaches s held
      → start ≤ s.maxfd
      → s.alive f ≡ false
      → Reaches (new_file s start f).1 held
  puts_unused :
      (s : Files) (held : ℕ → ℕ) (fd : ℕ)
      → Reaches s held
      → fd ≤ s.maxfd
      → s.file fd ≢ 0
      → references s held (s.file fd) ≡ 1
      → Reaches (put_unused_file s fd) held
  adds :
      (s : Files) (held : ℕ → ℕ) (f flags : ℕ)
      → Reaches s held
      → f ≢ 0
      → 0 < held f
      → Reaches (add_open_file s f flags).1 (given held f (add_open_file s f flags).0)
  closes : (s : Files) (held : ℕ → ℕ) (fd : ℕ) → Reaches s held → Reaches (close s fd).1 held
  dups :
      (s : Files) (held : ℕ → ℕ) (fd : ℕ)
      → Reaches s held
      → s.refs (s.file fd) + 1 < 2 ^ 32
      → Reaches (dup s fd).1 held
  dups_to :
      (s : Files) (held : ℕ → ℕ) (fd fd2 : ℕ)
      → Reaches s held
      → fd ≢ fd2
      → s.refs (s.file fd) + 1 < 2 ^ 32
      → Reaches (dup2 s fd fd2).1 held
  execs : (s : Files) (held : ℕ → ℕ) → Reaches s held → Reaches (exec s) held
  clones :
      (s : Files) (held : ℕ → ℕ)
      → Reaches s held
      → ((f : ℕ) → s.refs f + (s.maxfd + 1) < 2 ^ 32)
      → Reaches (clone_loop (s.maxfd + 1) s 0) (λ f. held f + count (s.maxfd + 1) s.file f)

count-empty : (n f : ℕ) → f ≢ 0 → count n (λ fd. 0) f ≡ 0
unfolding count
count-empty zero f nz = refl
count-empty (suc n) f nz =
    let other : (0 == f) ≡ false = ground (arith, nz) in rw (other, count-empty n f nz) refl

starts-IsCounted :
    (s : Files)
    → s.maxfd < 2 ^ 31
    → s.file ≡ (λ fd. 0)
    → s.alive ≡ (λ f. false)
    → IsCounted s (λ f. 0)
starts-IsCounted s bound files alive = record {
  bounded = bound;
  live = λ f nz a. absurd (true≢false (sym a ∙ ap (λ (r : ℕ → Bool). r f) alive));
  dead = λ f nz a. rw files (omega (arith, count-empty (s.maxfd + 1) f nz));
}

put_unused_file-IsCounted :
    (s : Files) (held : ℕ → ℕ) (fd : ℕ)
    → IsCounted s held
    → fd ≤ s.maxfd
    → s.file fd ≢ 0
    → references s held (s.file fd) ≡ 1
    → IsCounted (put_unused_file s fd) held
unfolding put_unused_file
put_unused_file-IsCounted s held fd ok h nz single = record {
  bounded = ok.bounded;
  live = λ j jz b. elim (Bool-cases (j == s.file fd)) [
    | inl e ↦ ground arith
    | inr e ↦
        ground
          (arith, count-upd (s.maxfd + 1) s.file fd 0 j (omega arith), ok.live j jz (rw e at b))
  ];
  dead = λ j jz b. elim (Bool-cases (j == s.file fd)) [
    | inl e ↦
        let same : j ≡ s.file fd = ground arith in
        ground (arith, same, single, count-upd (s.maxfd + 1) s.file fd 0 j (omega arith))
    | inr e ↦
        ground
          (arith, count-upd (s.maxfd + 1) s.file fd 0 j (omega arith), ok.dead j jz (rw e at b))
  ];
}

none_counted : (t : ℕ → ℕ) (f : ℕ) → count 0 t f ≡ 0
unfolding count
none_counted t f = refl

-- Over all sequences of these calls, where posix_newFile is not interrupted by another one, memory for a
-- new file is free before, and no descriptor is duplicated onto itself: a file that is allocated has as
-- many references as there are descriptors and holders of it, and at least one; and no descriptor and
-- no holder has a file that has been freed.
pub files_safe : (s : Files) (held : ℕ → ℕ) → Reaches s held → IsCounted s held
files_safe s held (starts s0 a b c) = starts-IsCounted s0 a b c
files_safe s held (gets s0 h fd r small) = get_open_file-IsCounted s0 h (files_safe s0 h r) fd small
files_safe s held (derefs s0 h f r nz some_held) =
    file_deref-IsCounted s0 h (files_safe s0 h r) f nz some_held
files_safe s held (creates s0 h start f r a b) =
    new_file-IsCounted s0 h (files_safe s0 h r) start f a b
files_safe s held (puts_unused s0 h fd r a b c) =
    put_unused_file-IsCounted s0 h fd (files_safe s0 h r) a b c
files_safe s held (adds s0 h f flags r nz some_held) =
    add_open_file-IsCounted s0 h (files_safe s0 h r) f flags nz some_held
files_safe s held (closes s0 h fd r) = close-IsCounted s0 h (files_safe s0 h r) fd
files_safe s held (dups s0 h fd r small) = dup-IsCounted s0 h (files_safe s0 h r) fd small
files_safe s held (dups_to s0 h fd fd2 r apart small) =
    dup2-IsCounted s0 h (files_safe s0 h r) fd fd2 apart small
files_safe s held (execs s0 h r) =
    exec_loop-IsCounted (s0.maxfd + 1) s0 h 0 (omega arith) (files_safe s0 h r)
files_safe s held (clones s0 h r few) =
    clone_loop-IsCounted (s0.maxfd + 1) s0 h 0 (s0.maxfd + 1) (omega arith) (omega arith) few (
      held-IsCounted s0 h (files_safe s0 h r) (λ f. h f + count 0 s0.file f)
        (λ f nz. omega (arith, none_counted s0.file f)))
