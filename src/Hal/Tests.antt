-- ===== src/Hal/Tests.antt =====
-- hal/riscv64/cpu.h on concrete inputs.
use phoenix_rtos_kernel.Base.{}
use phoenix_rtos_kernel.Hal.BitScan.{}
use phoenix_rtos_kernel.Hal.BitScan.Order.{}
use phoenix_rtos_kernel.Hal.BitScan.First.{}
