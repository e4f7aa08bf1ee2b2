-- ===== src/Tests.antt =====
-- Runs of the model on concrete inputs, and the theorems at concrete inputs.
mod Table
mod Board
mod Frames
mod Session
mod Places
mod Partitions
mod Overflow
mod Client
mod Watchdog
mod Run
mod Udp
mod Software
mod Adapter
