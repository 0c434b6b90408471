-- ===== src/Sim.antt =====
-- internal/backend/sim: the iOS Simulator behind a feed, driven through the helper simbeam-control.
pub mod Frames
pub mod Startup
pub mod Keymap
pub mod Input
