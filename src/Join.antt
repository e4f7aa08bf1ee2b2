-- ===== src/Join.antt =====
-- A whole session of algorithm A, from the frames that the host sends to the frames that it reads.
pub mod Output
pub mod Input
pub mod Frames
pub mod Build
pub mod Result
pub mod Probe
pub mod Session
pub mod Finish
pub mod Run
pub mod Relation
pub mod Overrun
pub mod Collect
pub mod Sends
pub mod Heard
pub mod Client
pub mod Fail
