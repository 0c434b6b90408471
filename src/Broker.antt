-- ===== src/Broker.antt =====
-- internal/signalbroker: the rendezvous broker.
pub mod Turn
pub mod State
pub mod Ice
pub mod Watch
pub mod Daemons
pub mod Clients
pub mod Serve
pub mod Links
pub mod Sessions
pub mod Writes
pub mod Gate
pub mod Presence
pub mod Counts
pub mod Subscriptions
