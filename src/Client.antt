-- ===== src/Client.antt =====
-- server.go: what the server asks of the tracker, and sharing and downloading from one end to the other.
pub mod Address
pub mod Announce
pub mod Machine
pub mod Share
pub mod Fetch
pub mod Published
pub mod Announced
pub mod Stopped
pub mod Relisted
pub mod Sharing
pub mod EndToEnd
pub mod Discovered
