-- ===== src/Hal.antt =====
-- hal/: the parts of the hardware abstraction layer that the modelled components call.
pub mod BitScan
mod Tests
