-- ===== src/Node.antt =====
-- internal/node: the daemon.
pub mod Address
pub mod Topology
pub mod Server
pub mod Client
pub mod Deploy
pub mod Control
