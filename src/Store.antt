-- ===== src/Store.antt =====
-- internal/store: the SQLite tables. A statement is modelled by what its SQL text says of the rows.
pub mod Clients
pub mod Rows
pub mod Metrics
pub mod Logs
pub mod Lifecycle
pub mod Handshakes
pub mod Queries
pub mod TimeRange
pub mod Collector
