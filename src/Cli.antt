-- ===== src/Cli.antt =====
-- cmd/vpn: the command line.
pub mod Format
pub mod Client
pub mod Diagnostics
pub mod Versions
