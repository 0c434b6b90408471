-- ===== src/Server.antt =====
-- internal/server: the daemon's side of a session.
pub mod PairingWindow
pub mod Pinned
pub mod Handshake
pub mod Reconnect
pub mod Bulk
pub mod Identity
pub mod Session
