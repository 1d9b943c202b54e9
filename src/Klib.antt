-- ===== src/Klib.antt =====
-- lib/: the kernel's own small library.
pub mod Bsearch
pub mod Cbuffer
pub mod Clist
pub mod Rb
pub mod Strtoul
mod Tests
