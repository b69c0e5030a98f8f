-- ===== src/Tests.antt =====
-- The theorems at concrete inputs, and runs of the definitions.
pub mod Queues
pub mod Nodes
pub mod Wires
pub mod Clusters
pub mod Handling
pub mod Codecs
pub mod Listeners
pub mod Connections
pub mod Clients
pub mod Networks
pub mod Timers
pub mod Requests
pub mod Announcements
