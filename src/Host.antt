-- ===== src/Host.antt =====
-- host/: the C++ library that talks to the board.
pub mod Transport
pub mod Outcome
pub mod Serializer
pub mod Decoder
pub mod Metrics
pub mod Client
pub mod Udp
pub mod Software
pub mod Keeps
