-- ===== src/Join/Probe.antt =====
-- The probe phase of a session.
pub mod Buffer
pub mod Rows
pub mod Batch
pub mod Frame
pub mod Phase
