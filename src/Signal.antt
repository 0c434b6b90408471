-- ===== src/Signal.antt =====
-- internal/signal: the wire messages and the cryptographic checks that the broker and the daemon share.
pub mod Message
pub mod Crypto
pub mod Canonical
