-- ===== src/Kernel.antt =====
-- src/hash_join_kernel.cpp.
pub mod State
pub mod Configure
pub mod Cycles
pub mod Build
pub mod Probe
pub mod Run
pub mod Watchdog
