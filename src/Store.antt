-- ===== src/Store.antt =====
-- store.go: the files of a store.
pub mod Defs
pub mod RoundTrip
pub mod Pieces
