-- ===== src/Program.antt =====
-- main.go: the program as a tracker and as a peer.
pub mod Routes
pub mod Main
pub mod Sharing
pub mod Shutdown
