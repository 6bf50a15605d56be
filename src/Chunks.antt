-- ===== src/Chunks.antt =====
-- The chunks of a file: ReadChunk of store.go, and writeAndVerifyChunk of server.go.
pub mod Defs
pub mod WriteAt
pub mod Write
pub mod Agree
pub mod Transfer
pub mod Honest
pub mod Rebuild
