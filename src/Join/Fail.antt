-- ===== src/Join/Fail.antt =====
-- A session whose inner rows do not fit into the hash table.
pub mod Rows
pub mod Frame
pub mod Phase
pub mod Run
