-- ===== src/Tunnel.antt =====
-- pkg/shadowgre: the two ends of the tunnel. The server carries each stream to a TCP connection of its
-- own with the backend, the client to the TCP connection that it accepted.
pub mod Stream
pub mod Steps
pub mod Account
pub mod Writing
pub mod Order
pub mod Server
pub mod Routing
pub mod Shutdown
pub mod Quiet
pub mod Prefix
pub mod Close
pub mod Clients
pub mod Sessions
pub mod Ids
pub mod Client
pub mod Delivery
pub mod Served
pub mod EndToEnd
