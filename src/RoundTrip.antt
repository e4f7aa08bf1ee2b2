-- ===== src/RoundTrip.antt =====
-- What one side writes and the other side reads.
pub mod Numbers
pub mod ToBoard
pub mod Receive
pub mod FromBoard
pub mod Timing
pub mod Results
