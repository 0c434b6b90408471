-- ===== src/Tests.antt =====
-- Small runs of the modelled code, and the theorems applied to concrete inputs.
mod Encoder
mod Broker
mod Handshake
mod Pairing
mod Peer
mod Session
mod Sim
mod Browser
mod Identity
mod Companion
mod Daemon
mod Subscriptions
mod Updatecheck
