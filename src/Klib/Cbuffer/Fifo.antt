-- ===== src/Klib/Cbuffer/Fifo.antt =====
-- _cbuffer_write of lib/cbuffer.c, and the contents of the ring.
use phoenix_rtos_kernel.Base.{
  ℕ, ◌+◌, ◌-◌, ◌≤◌, ◌<◌, ◌≡◌, refl, ap, true, false, List, ◌++◌, min, ltb, ◌||◌, ◌==◌, inl, inr,
  Bool-cases, if◌then◌else◌, length, get_or, take, drop, blit, arith, length-blit, get_or-blit,
  length-drop, get_or-drop, list_ext, length-append, length-take, get_or-append, get_or-take,
}
use phoenix_rtos_kernel.Klib.Cbuffer.{Cbuffer, write_front, write_copy, write}
use phoenix_rtos_kernel.Klib.Cbuffer.Content.{
  IsValid, used, fold, at, contents, length-contents, get_or-contents, advance-fold,
}

minus_zero : (j : ℕ) → j - 0 ≡ j
minus_zero j = omega arith

-- The second copy of a write: it fills the front, and leaves the rest of what was there.
module _ (buf : Cbuffer) (once src : List ℕ) (n : ℕ) where
  write_front-count :
      n ≤ length src → (write_front buf once src n).1 ≡ n + min (length src - n) buf.r
  unfolding write_front
  write_front-count h = ground arith

  write_front-at :
      (j : ℕ)
      → buf.r ≤ length once
      → get_or (write_front buf once src n).0 j 0
        ≡ (if ltb j (min (length src - n) buf.r) then get_or src (n + j) 0 else get_or once j 0)
  unfolding write_front
  write_front-at j h = ground (
    arith,
    length-drop n src,
    get_or-blit once 0 (drop n src) (min (length src - n) buf.r) j 0,
    get_or-drop n src (j - 0) 0,
    ap (λ (x : ℕ). get_or src (n + x) 0) (minus_zero j),
  )

module _ {buf : Cbuffer} {k : ℕ} (src : List ℕ) (v : IsValid buf k) (room : buf.full ≡ false) where
  -- `_cbuffer_write` stores as many bytes as fit.
  write_copy-count : (write_copy buf src).1 ≡ min (length src) (buf.sz - used buf)
  unfolding write_copy write_front
  write_copy-count = ground arith

  length-write_copy : length (write_copy buf src).0 ≡ buf.sz
  unfolding write_copy write_front
  length-write_copy =
      let n : ℕ = min (length src) (buf.sz - buf.w) in
      ground (
        arith,
        length-blit buf.bytes buf.w src (min (length src) (buf.r - buf.w)),
        length-blit buf.bytes buf.w src n,
        length-blit (blit buf.bytes buf.w src n) 0 (drop n src) (min (length src - n) buf.r),
      )

  -- One cell after the copies, when the free cells are in one piece.
  write_copy-low :
      (i j : ℕ)
      → ltb buf.w buf.r ≡ true
      → j ≡ fold buf.sz (buf.r + i)
      → i < used buf + (write_copy buf src).1
      → get_or (write_copy buf src).0 j 0
        ≡ (if ltb i (used buf) then get_or buf.bytes j 0 else get_or src (i - used buf) 0)
  unfolding write_copy write_front
  write_copy-low i j low e h = ground (
    arith,
    get_or-blit buf.bytes buf.w src (min (length src) (buf.r - buf.w)) j 0,
    ap (λ (x : ℕ). get_or src x 0) (index low e h),
  )
    where
      index :
          ltb buf.w buf.r ≡ true
          → j ≡ fold buf.sz (buf.r + i)
          → i < used buf + (write_copy buf src).1
          → (if ltb i (used buf) then 0 else j - buf.w) ≡ i - used buf
      index low e h = ground arith

  -- The source indices of the two copies, counted from the oldest byte.
  tail_cell :
      (i j : ℕ)
      → ltb buf.w buf.r ≡ false
      → used buf ≤ i
      → j ≡ buf.r + i
      → get_or src (j - buf.w) 0 ≡ get_or src (i - used buf) 0
  tail_cell i j high below e =
      let same : j - buf.w ≡ i - used buf = ground arith in ap (λ (x : ℕ). get_or src x 0) same

  front_cell :
      (i j : ℕ)
      → ltb buf.w buf.r ≡ false
      → buf.sz ≤ buf.r + i
      → j ≡ buf.r + i - buf.sz
      → i < used buf + (write_copy buf src).1
      → get_or src (min (length src) (buf.sz - buf.w) + j) 0 ≡ get_or src (i - used buf) 0
  unfolding write_copy write_front
  front_cell i j high wraps e h =
      let same : min (length src) (buf.sz - buf.w) + j ≡ i - used buf = ground arith in
      ap (λ (x : ℕ). get_or src x 0) same

  -- One cell after the copies, when the free cells may go round the end.
  write_copy-high :
      (i j : ℕ)
      → ltb buf.w buf.r ≡ false
      → j ≡ fold buf.sz (buf.r + i)
      → i < used buf + (write_copy buf src).1
      → get_or (write_copy buf src).0 j 0
        ≡ (if ltb i (used buf) then get_or buf.bytes j 0 else get_or src (i - used buf) 0)
  unfolding write_copy
  write_copy-high i j high e h =
      let n : ℕ = min (length src) (buf.sz - buf.w) in
      let once : List ℕ = blit buf.bytes buf.w src n in
      ground (
        arith,
        length-blit buf.bytes buf.w src n,
        get_or-blit buf.bytes buf.w src n j 0,
        write_front-count buf once src n,
        write_front-at buf once src n j,
        tail_cell i j,
        front_cell i j,
      )

  -- Behind the old bytes stand the new ones, and the old ones are as they were.
  write_copy-at :
      (i : ℕ)
      → i < used buf + (write_copy buf src).1
      → get_or (write_copy buf src).0 (fold buf.sz (buf.r + i)) 0
        ≡ (if ltb i (used buf) then at buf i else get_or src (i - used buf) 0)
  write_copy-at i h = elim (Bool-cases (ltb buf.w buf.r)) [
    | inl low ↦ write_copy-low i (fold buf.sz (buf.r + i)) low refl h
    | inr high ↦ write_copy-high i (fold buf.sz (buf.r + i)) high refl h
  ]

module _ {buf : Cbuffer} {k : ℕ} (src : List ℕ) (v : IsValid buf k) where
  write-none : ((length src == 0) || buf.full) ≡ true → write buf src ≡ (0, buf)
  unfolding write
  write-none e = rw e

  -- A write returns how many bytes fit, and that many are stored on top of the old ones.
  pub write-count : (write buf src).0 ≡ min (length src) (buf.sz - used buf)
  unfolding write
  write-count = ground (arith, write_copy-count src v)

  pub write-IsValid : IsValid (write buf src).1 k
  unfolding write
  write-IsValid =
      let n : ℕ = (write_copy buf src).1 in
      ground (arith, write_copy-count src v, length-write_copy src v, advance-fold buf.w n v)

  used-write : used (write buf src).1 ≡ used buf + (write buf src).0
  unfolding write
  used-write =
      let n : ℕ = (write_copy buf src).1 in
      ground (arith, write_copy-count src v, advance-fold buf.w n v)

  write-at :
      (i : ℕ)
      → i < used buf + (write buf src).0
      → at (write buf src).1 i
        ≡ (if ltb i (used buf) then at buf i else get_or src (i - used buf) 0)
  unfolding write
  write-at i h = ground (arith, λ (room : buf.full ≡ false). write_copy-at src v room i)

  write-cell :
      (i : ℕ)
      → i < used buf + (write buf src).0
      → get_or (contents (write buf src).1) i 0
        ≡ get_or (contents buf ++ take (write buf src).0 src) i 0
  write-cell i h = ground (
    arith,
    used-write,
    get_or-contents (write buf src).1 i,
    get_or-contents buf i,
    write-at i h,
    get_or-append (contents buf) (take (write buf src).0 src) i 0,
    length-contents buf,
    get_or-take (write buf src).0 src (i - used buf) 0,
  )

  length-write :
      length (contents (write buf src).1) ≡ length (contents buf ++ take (write buf src).0 src)
  length-write = omega (
    arith,
    used-write,
    write-count,
    length-contents (write buf src).1,
    length-contents buf,
    length-append (contents buf) (take (write buf src).0 src),
    length-take (write buf src).0 src,
  )

  contents-write : contents (write buf src).1 ≡ contents buf ++ take (write buf src).0 src
  contents-write =
      list_ext (contents (write buf src).1) (contents buf ++ take (write buf src).0 src) 0
        length-write
        λ i h. write-cell i (omega (arith, length-contents (write buf src).1, used-write))

  -- `_cbuffer_write` on a valid buffer returns the smaller of the number of bytes offered and of the
  -- free ones, appends exactly that many of them, in order, to the contents, and keeps the buffer
  -- valid.
  pub write_lem :
      ((write buf src).0 ≡ min (length src) (buf.sz - used buf))
      × (contents (write buf src).1
          ≡ contents buf ++ take (min (length src) (buf.sz - used buf)) src)
      × IsValid (write buf src).1 k
  write_lem = (write-count, rw (← write-count) contents-write, write-IsValid)
