-- ===== src/Posix/Files.antt =====
-- The descriptors of a process and the references of open files in posix/posix.c. An `open_file_t *` is
-- a number with 0 for NULL; `refs` is read in the file's memory, and `alive` says that this memory is
-- allocated. A descriptor that a caller passes is an `int` as a 32-bit word. The operations find the
-- process, and hold its lock.
mod Tests
pub mod Slot
pub mod Count
pub mod Calls
pub mod Keep
pub mod Loops
pub mod Safety
use phoenix_rtos_kernel.Base.{
  ℕ, zero, suc, ◌+◌, ◌-◌, ◌%◌, ◌^◌, Bool, true, false, ◌&&◌, ◌||◌, not, Option, none, some, ltb,
  leb, ◌==◌, if◌then◌else◌, upd,
}

pub record Files : Type 0 where
  pub maxfd : ℕ
  pub file : ℕ → ℕ
  pub flags : ℕ → ℕ
  pub refs : ℕ → ℕ
  pub alive : ℕ → Bool

pub data Answer : Type 0 where
  descriptor : ℕ → Answer
  ebadf enfile enomem : Answer

-- `(*f)->refs++`
abbrev pub take_ref : Files → ℕ → Files
take_ref s f = record s { refs = upd s.refs f ((s.refs f + 1) % 2 ^ 32) }

-- posix_fileDeref; what is closed with the last reference is outside.
unfoldable pub file_deref : Files → ℕ → Files
file_deref s f =
    let left = (s.refs f + 2 ^ 32 - 1) % 2 ^ 32 in
    let s' = record s { refs = upd s.refs f left } in
    if left == 0 then record s' { alive = upd s.alive f false } else s'

-- `fd < 0 || fd > p->maxfd || p->fds[fd].file == NULL`
abbrev pub is_bad : Files → ℕ → Bool
is_bad s fd = leb (2 ^ 31) fd || ltb s.maxfd fd || s.file fd == 0

-- posix_getOpenFile
unfoldable pub get_open_file : Files → ℕ → Option ℕ × Files
get_open_file s fd = if is_bad s fd then (none, s) else (some (s.file fd), take_ref s (s.file fd))

-- `while (p->fds[fd].file != NULL && fd++ < p->maxfd)`, by the number `maxfd - fd`
unfoldable pub free_slot : ℕ → (ℕ → ℕ) → ℕ → ℕ
free_slot zero t fd = if t fd == 0 then fd else fd + 1
free_slot (suc n) t fd = let rest = free_slot n t (fd + 1) in if t fd == 0 then fd else rest

-- What posix_newFile does while it holds the lock, with memory for the file
abbrev pub enter_file : Files → ℕ → ℕ → Files
enter_file s fd f = record s { file = upd s.file fd f; alive = upd s.alive f true }

-- What it does once it has cleared the lock
abbrev pub set_up_file : Files → ℕ → Files
set_up_file s f = record s { refs = upd s.refs f 1 }

-- posix_newFile as a whole, with no other call between the two, for the memory that is allocated, 0 when there is none
unfoldable pub new_file : Files → ℕ → ℕ → Answer × Files
new_file s start f =
    let fd = free_slot (s.maxfd - start) s.file start in
    let s' = record s { file = upd s.file fd f } in
    if ltb s.maxfd fd
    then (enfile, s)
    else if f == 0
    then (enomem, s')
    else (descriptor fd, set_up_file (enter_file s fd f) f)

-- posix_putUnusedFile
unfoldable pub put_unused_file : Files → ℕ → Files
put_unused_file s fd = record s { alive = upd s.alive (s.file fd) false; file = upd s.file fd 0 }

-- _posix_addOpenFile
unfoldable pub add_open_file : Files → ℕ → ℕ → Answer × Files
add_open_file s f flags =
    let fd = free_slot s.maxfd s.file 0 in
    if ltb s.maxfd fd
    then (enfile, s)
    else (descriptor fd, record s { file = upd s.file fd f; flags = upd s.flags fd flags })

-- posix_close
unfoldable pub close : Files → ℕ → Answer × Files
close s fd =
    if is_bad s fd
    then (ebadf, s)
    else (descriptor 0, file_deref (record s { file = upd s.file fd 0 }) (s.file fd))

-- posix_dup
unfoldable pub dup : Files → ℕ → Answer × Files
dup s fd =
    let f = s.file fd in
    let new = free_slot s.maxfd s.file 0 in
    if is_bad s fd || ltb s.maxfd new then (ebadf, s) else (
      descriptor new,
      take_ref (record s { file = upd s.file new f; flags = upd s.flags new 0 }) f,
    )

-- The end of _posix_dup2, once `fildes2` is closed
abbrev pub dup_to : Files → ℕ → ℕ → Files
dup_to s f fd2 = take_ref (record s { file = upd s.file fd2 f; flags = upd s.flags fd2 0 }) f

-- _posix_dup2
unfoldable pub dup2 : Files → ℕ → ℕ → Answer × Files
dup2 s fd fd2 =
    let f = s.file fd in
    let s' =
      if s.file fd2 == 0
      then s
      else file_deref (record s { file = upd s.file fd2 0 }) (s.file fd2) in
    if leb (2 ^ 31) fd || ltb s.maxfd fd
    then (ebadf, s)
    else if leb (2 ^ 31) fd2 || ltb s.maxfd fd2
    then (ebadf, s)
    else if f == 0
    then (ebadf, s)
    else (descriptor fd2, dup_to s' f fd2)

-- The loop of posix_exec, from descriptor `fd` on, by the number of rounds; FD_CLOEXEC is 1.
unfoldable pub exec_loop : ℕ → Files → ℕ → Files
exec_loop zero s fd = s
exec_loop (suc n) s fd =
    let s' =
      if s.file fd == 0 || s.flags fd % 2 == 0
      then s
      else (let c = file_deref s (s.file fd) in record c { file = upd c.file fd 0 }) in
    exec_loop n s' (fd + 1)

-- posix_exec
abbrev pub exec : Files → Files
exec s = exec_loop (s.maxfd + 1) s 0

-- The loop of posix_clone that takes references for the child, on the table that it has copied
unfoldable pub clone_loop : ℕ → Files → ℕ → Files
clone_loop zero s i = s
clone_loop (suc n) s i =
    let s' = if s.file i == 0 then s else take_ref s (s.file i) in clone_loop n s' (i + 1)
