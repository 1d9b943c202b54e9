-- ===== src/Proc.antt =====
-- proc/: processes and threads.
pub mod Threads
pub mod Resource
pub mod Locks
pub mod Mutex
pub mod Names
pub mod Messages
