-- ===== src/Posix/Fdpass.antt =====
-- fdpass_unpack and fdpass_discard of posix/fdpass.c. A pack is the list of the entries of `fd` that it
-- still has, each a file and its flags; `packs` is the list of the packs. A cmsghdr has 12 bytes, an
-- int 4. The process is found.
mod Tests
pub mod Held
pub mod Given
pub mod Whole
use phoenix_rtos_kernel.Base.{
  ℕ, zero, suc, ◌+◌, ◌*◌, Bool, true, false, ◌||◌, List, [], ◌∷◌, ltb, leb, if◌then◌else◌, list_add,
  is_empty,
}
use phoenix_rtos_kernel.Posix.Files.{
  Files, Answer, descriptor, ebadf, enfile, enomem, file_deref, add_open_file,
}

-- `CMSG_LEN(sizeof(int) * n)`
abbrev pub cmsg_len : ℕ → ℕ
cmsg_len n = 12 + 4 * n

abbrev pub Pack : Type 0
Pack = List (ℕ × ℕ)

abbrev pub length : List ℕ → ℕ
length [] = 0
length (x ∷ xs) = length xs + 1

abbrev pub entries : List Pack → ℕ
entries [] = 0
entries ([] ∷ ps) = entries ps
entries ((e ∷ es) ∷ ps) = entries (es ∷ ps) + 1

-- What is done with the descriptor that a file got: it is written behind those before, or the file
-- is given back.
abbrev pub placed : Answer → Files → ℕ → List ℕ → Files × List ℕ
placed (descriptor fd) s f fds = (s, list_add fds fd)
placed ebadf s f fds = (file_deref s f, fds)
placed enfile s f fds = (file_deref s f, fds)
placed enomem s f fds = (file_deref s f, fds)

-- The loop of fdpass_unpack, by the number of entries that are left
unfoldable pub unpack_loop : ℕ → Files → List Pack → ℕ → List ℕ → Files × List Pack × List ℕ
unpack_loop zero s packs controllen fds = (s, packs, fds)
unpack_loop (suc n) s [] controllen fds = (s, [], fds)
unpack_loop (suc n) s ([] ∷ packs) controllen fds = (s, [] ∷ packs, fds)
unpack_loop (suc n) s (((f, flags) ∷ es) ∷ packs) controllen fds =
    let (fd, s1) = add_open_file s f flags in
    let (s2, fds') = placed fd s1 f fds in
    let rest = unpack_loop n s2 (if is_empty es then packs else es ∷ packs) controllen fds' in
    if leb (cmsg_len (length fds + 1)) controllen then rest else (s, ((f, flags) ∷ es) ∷ packs, fds)

-- fdpass_unpack: the packs that are left, the descriptors that are written, and the length of them
unfoldable pub fdpass_unpack : Files → List Pack → ℕ → Files × List Pack × List ℕ × ℕ
fdpass_unpack s packs controllen =
    let (s', packs', fds) = unpack_loop (entries packs) s packs controllen [] in
    if is_empty packs || ltb controllen (cmsg_len 1)
    then (s, packs, [], 0)
    else (s', packs', fds, cmsg_len (length fds))

-- fdpass_discard, pack after pack, from the first file of each
unfoldable pub discard_pack : Files → Pack → Files
discard_pack s [] = s
discard_pack s ((f, flags) ∷ es) = discard_pack (file_deref s f) es

unfoldable pub fdpass_discard : Files → List Pack → Files
fdpass_discard s [] = s
fdpass_discard s (p ∷ packs) = fdpass_discard (discard_pack s p) packs
