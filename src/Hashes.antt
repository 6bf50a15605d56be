-- ===== src/Hashes.antt =====
-- piece_verification.go and server.go: the hashes of a file and of its chunks.
pub mod Defs
pub mod Count
pub mod Chunks
