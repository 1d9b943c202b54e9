-- ===== src/Lib.antt =====
-- The core of the Phoenix-RTOS kernel: its containers, memory, scheduling, messages and
-- descriptors.
--
-- Parts and files. Every file names the code it is about; a definition has the name of the C function
-- in snake_case, without the prefix of its subsystem where the module says it.
--   Base            Boolean tests, lists, bits, errors and stores, shared by all parts.
--   Hal/BitScan     hal/riscv64/cpu.h: hal_cpuGetLastBit and hal_cpuGetFirstBit.
--   Klib/Cbuffer    lib/cbuffer.c, lib/cbuffer.h: the byte ring; Content says what it holds.
--   Klib/Clist      lib/list.c: the circular lists, on a store of links; Ring says what they hold.
--   Klib/Strtoul    lib/strtoul.c and lib/rand.c.
--   Klib/Bsearch    lib/bsearch.c.
--   Klib/Rb         lib/rb.c, lib/rb.h: the red-black trees; Order relates them to sequences.
--   Vm/SizeIndex    the index of a size, as vm/page.c and vm/kmalloc.c compute it.
--   Vm/Page         vm/page.c: _page_alloc, and in Free _page_free; Cover has the pool invariant.
--   Vm/Zone         vm/zone.c: zones of equal blocks and their free lists.
--   Vm/Kmalloc      vm/kmalloc.c: the kernel heap, over the zones.
--   Vm/Amap         vm/amap.c: anonymous pages that are shared until one writes.
--   Proc/Threads    proc/threads.c: wait queues, sleeping and threads_schedule.
--   Proc/Locks      proc/threads.c: the locks.
--   Proc/Resource   proc/resource.c: handles and reference counts.
--   Proc/Messages   proc/msg.c, proc/ports.c: messages over ports; Safety has the sequences of calls.
--   Proc/Names      proc/name.c: the cache of port names and the resolution of paths.
--   Proc/Mutex      proc/mutex.c and proc/cond.c, over the locks and the resources.
--   Posix/Files     posix/posix.c: descriptors and the references of open files; Safety has the
--                   sequences of calls.
--   Posix/Splitname posix/posix.c: the directory and the base of a path.
--   Posix/Fdpass    posix/fdpass.c: fdpass_unpack and fdpass_discard, over Posix/Files.
--
-- How they interact. The page allocator and the scheduler keep their threads and segments in the
-- circular lists of lib/list.c: Klib/Clist relates these to sequences, and the other parts take
-- the sequences, as they take the trees of lib/rb.c, which Klib/Rb relates to sequences. The zones
-- get their pages from the page allocator, and the amaps get pages and mappings, as arguments. The
-- locks put threads on the wait queues of the scheduler; mutexes and condition variables are locks
-- and wait queues behind the handles of a process.
--
-- State and steps. A structure is a record, a pointer a number with 0 for NULL, an array or a table of
-- objects a function or a list, and an operation a function from the state before to its results and
-- the state after. Spinlocks and locks that an operation holds throughout make it one step. A call that
-- sleeps is split where it sleeps: the part before, and the part once the thread runs again with the
-- return value that the scheduler left. Words wrap as in C, with the modulus written out. What code
-- outside the modelled parts returns (a page, a mapping, an allocation, a free id, the time) is an
-- argument.
--
-- Bounds and fuel. The loops run on the number of their rounds or on fuel that is enough: the
-- search for a segment ends within the 32 sizes, a binary search within the number of items, a
-- lock's loop in its second round, since a queue keeps one wakeup, and the scheduler's within the
-- number of priorities, ready threads and reapers, since each round goes to the next priority or
-- takes a thread off a list. Balancing a tree after an insertion takes at most twice as many
-- rounds as there are nodes above, and two; after a removal as many as there are nodes above, and
-- three. The resolution of a path takes at most as many rounds as the path has bytes, and two. The
-- packs of descriptors are unpacked within as many rounds as they have entries. The joining of
-- halves of free pages ends within the 32 sizes. Pages are allocated for sizes up to 2^30 and
-- freed in pools of fewer than 2^18, so that the shifts of the code stay within an int. Sizes of
-- rings are at most 2^30, so that no index overflows.
--
-- Not modelled: the ports under hal/ but for the bit scans, printing, the tests, start-up, the
-- unpacking of system calls, and the network sockets, which only forward messages; the start-up of
-- the page allocator, memory maps and objects, the mapping of the data of messages, the search for
-- the id of a new port, the calls of proc/name.c that only pack a message, processes, and unix
-- sockets, which are parts of their own; the calls of posix/posix.c that forward messages, and
-- what is closed with the last reference to a file; the callback by which lib/rb.c augments nodes.
pub mod Base
pub mod Hal
pub mod Klib
pub mod Posix
pub mod Proc
pub mod Vm
