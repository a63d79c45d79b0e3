-- ===== src/Protocol.antt =====
-- internal/protocol: the data of the messages, the handshake and the control messages.
pub mod Types
pub mod Handshake
pub mod Control
