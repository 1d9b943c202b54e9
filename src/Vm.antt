-- ===== src/Vm.antt =====
-- vm/: the memory allocators of the kernel.
pub mod Amap
pub mod Kmalloc
pub mod Page
pub mod SizeIndex
pub mod Zone
mod Tests
