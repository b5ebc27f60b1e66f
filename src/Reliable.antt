-- ===== src/Reliable.antt =====
-- pkg/tunnel/reliable.go: the reliable transport over an unreliable carrier.
pub mod Packet
pub mod Seq
pub mod Sack
pub mod Receiver
pub mod Rtt
pub mod Congestion
pub mod Sender
pub mod Stream
pub mod Manager
pub mod Link
