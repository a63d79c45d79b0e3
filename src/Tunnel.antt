-- ===== src/Tunnel.antt =====
-- internal/tunnel: the encrypted packet connection and the TUN device's packet and routing code.
pub mod Crypto
pub mod Conn
pub mod Packet
pub mod Routing
