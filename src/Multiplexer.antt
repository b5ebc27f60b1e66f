-- ===== src/Multiplexer.antt =====
-- pkg/tunnel/manager.go: virtual connections, multiplexed over one tunnel.
pub mod Connection
pub mod Manager
pub mod Dial
pub mod Handle
pub mod Objects
pub mod Dispatch
pub mod Bytes
pub mod Loss
pub mod Write
pub mod Delivery
pub mod Invariant
pub mod Steps
pub mod Runs
pub mod Handshake
