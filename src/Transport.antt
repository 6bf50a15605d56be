-- ===== src/Transport.antt =====
-- p2p/tcp_transport.go: how connections come about.
pub mod Dial
pub mod Select
pub mod Waiting
pub mod Panics
pub mod Twice
pub mod Listen
pub mod Known
