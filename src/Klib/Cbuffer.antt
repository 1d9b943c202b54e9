-- ===== src/Klib/Cbuffer.antt =====
-- lib/cbuffer.c and lib/cbuffer.h: the byte ring whose size is a power of two.
-- The bytes that a caller hands over are a list, `sz` is its length; what a read copies out is the
-- list that it returns. Sizes are below 2^30 in every valid buffer, so no `size_t` or `int` wraps.
pub mod Content
pub mod Fifo
pub mod Take
use phoenix_rtos_kernel.Base.{
  ℕ, zero, suc, ◌+◌, ◌-◌, ◌^◌, ◌≤◌, ◌<◌, ◌≡◌, Bool, true, false, ◌&&◌, ◌||◌, not, List, [], ◌++◌,
  min, bit_and, ltb, ◌==◌, if◌then◌else◌, length, take, drop, blit,
}

pub record Cbuffer : Type 0 where
  pub sz : ℕ
  pub r : ℕ
  pub w : ℕ
  pub full : Bool
  pub bytes : List ℕ

pub init : List ℕ → ℕ → Cbuffer
init store sz = record { sz = sz; r = 0; w = 0; full = false; bytes = store }

-- `buf->w + bytes` and `buf->r + bytes`, masked by `buf->sz - 1`
abbrev pub advance : Cbuffer → ℕ → ℕ → ℕ
advance buf at n = bit_and (at + n) (buf.sz - 1)

-- The second copy of a write, to the front: `size` bytes still to go, `src` their start.
write_front : Cbuffer → List ℕ → List ℕ → ℕ → List ℕ × ℕ
write_front buf copied src n =
    if ltb n (length src) && not (buf.r == 0)
    then (blit copied 0 (drop n src) (min (length src - n) buf.r), n + min (length src - n) buf.r)
    else (copied, n)

-- What is stored, and how many bytes were.
write_copy : Cbuffer → List ℕ → List ℕ × ℕ
write_copy buf src =
    if ltb buf.w buf.r
    then (
      blit buf.bytes buf.w src (min (length src) (buf.r - buf.w)),
      min (length src) (buf.r - buf.w),
    )
    else let n = min (length src) (buf.sz - buf.w) in
      write_front buf (blit buf.bytes buf.w src n) src n

pub write : Cbuffer → List ℕ → ℕ × Cbuffer
write buf src =
    if (length src == 0) || buf.full
    then (0, buf)
    else let (stored, n) = write_copy buf src in
      let w' = advance buf buf.w n in (n, record buf { w = w'; full = w' == buf.r; bytes = stored })

-- The bytes that a read of at most `sz` copies out.
read_copy : Cbuffer → ℕ → List ℕ
read_copy buf sz =
    if ltb buf.r buf.w
    then take (min sz (buf.w - buf.r)) (drop buf.r buf.bytes)
    else let n = min sz (buf.sz - buf.r) in
      let tail = take n (drop buf.r buf.bytes) in
      if ltb n sz then tail ++ take (min (sz - n) buf.w) buf.bytes else tail

-- The value of `bytes` that the same branches of a read compute.
read_count : Cbuffer → ℕ → ℕ
read_count buf sz =
    if ltb buf.r buf.w
    then min sz (buf.w - buf.r)
    else let n = min sz (buf.sz - buf.r) in if ltb n sz then n + min (sz - n) buf.w else n

pub read : Cbuffer → ℕ → List ℕ × ℕ × Cbuffer
read buf sz =
    if (sz == 0) || (buf.r == buf.w && not buf.full)
    then ([], 0, buf)
    else let n = read_count buf sz in
      (read_copy buf sz, n, record buf { r = advance buf buf.r n; full = false })

pub free : Cbuffer → ℕ
free buf =
    if buf.w == buf.r
    then (if buf.full then 0 else buf.sz)
    else bit_and (buf.r + 2 ^ 32 - buf.w + buf.sz) (buf.sz - 1)

pub avail : Cbuffer → ℕ
unfolding free
avail buf = buf.sz - free buf

pub discard : Cbuffer → ℕ → ℕ × Cbuffer
unfolding free
discard buf sz = let cnt = min (free buf) sz in (cnt, record buf { r = advance buf buf.r cnt })
