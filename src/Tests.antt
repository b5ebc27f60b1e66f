-- ===== src/Tests.antt =====
-- Concrete runs: the theorems at inputs at which their hypotheses hold.
mod Floats
mod GrePackets
mod Packets
mod Receiving
mod Sending
mod Streams
mod Multiplexing
mod Tunnels
mod Serving
mod Clients
mod Linked
mod Tunnelling
mod Routes
mod Commands
