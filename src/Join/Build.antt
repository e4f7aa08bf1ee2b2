-- ===== src/Join/Build.antt =====
-- The build phase of a session.
pub mod Rows
pub mod Frame
pub mod Phase
