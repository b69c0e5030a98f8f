-- ===== src/Cluster.antt =====
-- tattle/cluster.py
pub mod Streams
pub mod Datagrams
pub mod Dispatching
pub mod Exchange
pub mod Handling
pub mod Probing
pub mod Rounds
pub mod Choosing
pub mod Joining
pub mod Lifecycle
pub mod Clients
pub mod Waits
pub mod Steps
pub mod Connections
