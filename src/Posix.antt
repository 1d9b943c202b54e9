-- ===== src/Posix.antt =====
-- posix/: the POSIX layer of the kernel.
pub mod Fdpass
pub mod Files
pub mod Splitname
