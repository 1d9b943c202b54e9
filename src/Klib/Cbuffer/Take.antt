-- ===== src/Klib/Cbuffer/Take.antt =====
-- _cbuffer_read of lib/cbuffer.c and _cbuffer_discard of lib/cbuffer.h, and the contents of the ring.
use phoenix_rtos_kernel.Base.{
  ℕ, ◌+◌, ◌-◌, ◌<◌, ◌≡◌, ap, false, List, min, ◌&&◌, not, ◌==◌, length, get_or, take, drop, arith,
  length-drop, get_or-drop, list_ext, length-append, length-take, get_or-append, get_or-take,
}
use phoenix_rtos_kernel.Klib.Cbuffer.{Cbuffer, read_copy, read_count, read, discard}
use phoenix_rtos_kernel.Klib.Cbuffer.Content.{
  IsValid, used, fold, at, contents, length-contents, get_or-contents, advance-fold,
}

module _ {buf : Cbuffer} {k : ℕ} (sz : ℕ) (v : IsValid buf k) where
  read_count-lem : (buf.r == buf.w && not buf.full) ≡ false → read_count buf sz ≡ min sz (used buf)
  unfolding read_count
  read_count-lem some = ground arith

  length-read_copy : length (read_copy buf sz) ≡ read_count buf sz
  unfolding read_copy read_count
  length-read_copy =
      let n : ℕ = min sz (buf.sz - buf.r) in
      ground (
        arith,
        length-take (min sz (buf.w - buf.r)) (drop buf.r buf.bytes),
        length-take n (drop buf.r buf.bytes),
        length-drop buf.r buf.bytes,
        length-append (take n (drop buf.r buf.bytes)) (take (min (sz - n) buf.w) buf.bytes),
        length-take (min (sz - n) buf.w) buf.bytes,
      )

  -- The bytes that come out are the oldest ones.
  read_copy-at :
      (i j : ℕ)
      → i < read_count buf sz
      → j ≡ fold buf.sz (buf.r + i)
      → get_or (read_copy buf sz) i 0 ≡ get_or buf.bytes j 0
  unfolding read_copy read_count
  read_copy-at i j h e =
      let n : ℕ = min sz (buf.sz - buf.r) in
      let tail : List ℕ = take n (drop buf.r buf.bytes) in
      ground (
        arith,
        get_or-take (min sz (buf.w - buf.r)) (drop buf.r buf.bytes) i 0,
        get_or-drop buf.r buf.bytes i 0,
        get_or-take n (drop buf.r buf.bytes) i 0,
        length-take n (drop buf.r buf.bytes),
        length-drop buf.r buf.bytes,
        get_or-append tail (take (min (sz - n) buf.w) buf.bytes) i 0,
        get_or-take (min (sz - n) buf.w) buf.bytes (i - n) 0,
        λ (same : i - n ≡ j). ap (λ (x : ℕ). get_or buf.bytes x 0) same,
        λ (same : buf.r + i ≡ j). ap (λ (x : ℕ). get_or buf.bytes x 0) same,
      )

  pub read-count : (read buf sz).1 ≡ min sz (used buf)
  unfolding read
  read-count = ground (arith, read_count-lem)

  pub read-IsValid : IsValid (read buf sz).2 k
  unfolding read
  read-IsValid = ground (arith, read_count-lem, advance-fold buf.r (read_count buf sz) v)

  used-read : used (read buf sz).2 + (read buf sz).1 ≡ used buf
  unfolding read
  used-read = ground (arith, read_count-lem, advance-fold buf.r (read_count buf sz) v)

  length-read : length (read buf sz).0 ≡ (read buf sz).1
  unfolding read
  length-read = ground (arith, length-read_copy)

  read-at : (i : ℕ) → i < (read buf sz).1 → get_or (read buf sz).0 i 0 ≡ at buf i
  unfolding read
  read-at i h = ground (arith, read_copy-at i (fold buf.sz (buf.r + i)))

  rest_index :
      (i : ℕ)
      → i < used (read buf sz).2
      → fold buf.sz ((read buf sz).2.r + i) ≡ fold buf.sz (buf.r + ((read buf sz).1 + i))
  unfolding read
  rest_index i h = ground (arith, read_count-lem, advance-fold buf.r (read_count buf sz) v)

  read-keeps : ((read buf sz).2.bytes ≡ buf.bytes) × ((read buf sz).2.sz ≡ buf.sz)
  unfolding read
  read-keeps = ground arith

  rest-at : (i : ℕ) → i < used (read buf sz).2 → at (read buf sz).2 i ≡ at buf ((read buf sz).1 + i)
  rest-at i h =
      rw (read-keeps.0, read-keeps.1) (ap (λ (x : ℕ). get_or buf.bytes x 0) (rest_index i h))

  -- What `_cbuffer_read` copies out is the front of the contents.
  read-front : (read buf sz).0 ≡ take (read buf sz).1 (contents buf)
  read-front =
      list_ext (read buf sz).0 (take (read buf sz).1 (contents buf)) 0
        (omega (
          arith,
          length-read,
          used-read,
          length-take (read buf sz).1 (contents buf),
          length-contents buf,
        ))
        λ i h. ground (
          arith,
          length-read,
          used-read,
          read-at i,
          get_or-take (read buf sz).1 (contents buf) i 0,
          get_or-contents buf i,
        )

  -- What it leaves is the rest.
  read-rest : contents (read buf sz).2 ≡ drop (read buf sz).1 (contents buf)
  read-rest =
      list_ext (contents (read buf sz).2) (drop (read buf sz).1 (contents buf)) 0
        (omega (
          arith,
          used-read,
          length-contents (read buf sz).2,
          length-drop (read buf sz).1 (contents buf),
          length-contents buf,
        ))
        λ i h. ground (
          arith,
          used-read,
          length-contents (read buf sz).2,
          get_or-contents (read buf sz).2 i,
          rest-at i,
          get_or-drop (read buf sz).1 (contents buf) i 0,
          get_or-contents buf ((read buf sz).1 + i),
        )

  -- `_cbuffer_read` on a valid buffer returns the smaller of the number asked for and of the bytes
  -- stored, copies out exactly that many of the oldest bytes in order, leaves the rest as the
  -- contents, and keeps the buffer valid.
  pub read_lem :
      ((read buf sz).1 ≡ min sz (used buf))
      × ((read buf sz).0 ≡ take (min sz (used buf)) (contents buf))
      × (contents (read buf sz).2 ≡ drop (min sz (used buf)) (contents buf))
      × IsValid (read buf sz).2 k
  read_lem = (read-count, rw (← read-count) read-front, rw (← read-count) read-rest, read-IsValid)

-- On an empty buffer of more than one byte, `_cbuffer_discard` does not leave it empty: it moves the
-- read index by up to `sz` bytes that were never written, and what follows counts as stored.
pub discard-empty :
    {buf : Cbuffer} {k : ℕ} (sz : ℕ)
    → IsValid buf k
    → used buf ≡ 0
    → 0 < sz
    → sz < buf.sz
    → ((discard buf sz).0 ≡ sz) × (used (discard buf sz).1 ≡ buf.sz - sz)
unfolding discard
discard-empty {buf} {k} sz v empty some less = ground (arith, advance-fold buf.r sz v)
