-- ===== src/Pieces.antt =====
-- piece_manager.go: which pieces of a download are missing, and which peers have them.
pub mod Defs
pub mod Invariant
pub mod Candidates
pub mod Selection
pub mod Progress
pub mod Reach
pub mod Table
