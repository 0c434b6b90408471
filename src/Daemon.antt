-- ===== src/Daemon.antt =====
-- cmd/simbeamd: the daemon's command line, as far as it has state of its own.
pub mod Control
pub mod Pair
pub mod Terminal
pub mod Unpair
